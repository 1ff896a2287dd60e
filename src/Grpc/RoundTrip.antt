-- ===== src/Grpc/RoundTrip.antt =====
-- What GetWidget reads after CreateWidget.
use mathlib.Core.Path.{subst}
use skit_x.Common.{
  ℕ, ◌≡◌, true, sym, ap, ◌∙◌, some, Result, ok, err, ==_refl, inl, inr, Option-cases,
}
use skit_x.Dbx.{Error, Tokens, Querier}
use skit_x.Dbx.Table.{Serves, find, micros}
use skit_x.Errs.{AppError}
use skit_x.Listing.{Formats}
use skit_x.Grpc.{
  Edge, CreateWidgetRequest, ProtoWidget, create_widget, create_checked, get_widget, to_proto,
  answered,
}
use skit_x.Widget.{Widget, Created, Store}
use skit_x.Widget.Spec.{kept}
use skit_x.Widget.Core
use skit_x.Widget.Core.{State}
use skit_x.Widget.World.{Ctx, Options}
use skit_x.Widget.Core.Writes.{create_commits}
use skit_x.Widget.Db.{DbWidget, widgets, store}
use skit_x.Widget.Db.Contract.{store_contract}
use skit_x.Widget.Db.Queue.{HasTasks, find_widget}
use skit_x.Widget.Stack.Rows.{query_by_id_outcome, found_or_missing}

-- What is assumed of uuid: the text of an id parses to it.
pub record IsEdge (e : Edge) : Type 0 where
  pub parse-uuid_text : (i : ℕ) → e.parse_uuid (e.uuid_text i) ≡ some i

module _ {q : Querier DbWidget} (serves : Serves widgets q)
    (tasks : Created → q.Db → Result Error (Unit {0}) × q.Db) (queued : HasTasks serves tasks)
    (f : Formats) (tokens : Tokens) (o : Options) (e : Edge) (lawful : IsEdge e) where
  abbrev widget_store : Store
  widget_store = store q f tokens (some tasks)

  created-inv :
      (ctx : Ctx) (req : CreateWidgetRequest) (c : Result AppError (Unit {0}))
      (world world' : State widget_store o) (p : ProtoWidget)
      → create_checked e widget_store o ctx req c world ≡ (ok p, world')
      → (w : Widget) × (p ≡ to_proto e w)
        × (Core.create widget_store o ctx
              (record { name = req.name; description = req.description })
              world
            ≡ (ok w, world'))
  unfolding create_widget
  created-inv ctx req (err x) world world' p h = cc (ap (λ v. v.0) h)
  created-inv ctx req (ok _) world world' p h =
      answered-inv
        (Core.create widget_store o ctx (record { name = req.name; description = req.description })
          world)
        h
    where
      answered-inv :
          (r : Result AppError Widget × State widget_store o)
          → answered e widget_store o r ≡ (ok p, world')
          → (w : Widget) × (p ≡ to_proto e w) × (r ≡ (ok w, world'))
      answered-inv (ok w, d) g =
          (w, cc (ap (λ v. v.0) g), ap (λ (x : State widget_store o). (ok w, x)) (ap (λ v. v.1) g))
      answered-inv (err x, d) g = cc (ap (λ v. v.0) g)

  -- a row that the store finds is read
  read_back :
      (i : ℕ) (w : Widget) (world : State widget_store o)
      → serves.up world.db ≡ true
      → find_widget serves world.db i ≡ some w
      → Core.query_by_id widget_store o i world ≡ ok w
  read_back i w world up found = elim (Option-cases (find widgets i (serves.listing world.db))) [
    | inl absent ↦ cc (rw absent at found)
    | inr (row, there) ↦
        query_by_id_outcome serves f tokens (some tasks) o i world up
        ∙ rw (there, found_or_missing) (cc (rw there at found))
  ]

  -- the answer with the times that the columns keep
  abbrev pub as_read : ProtoWidget → ProtoWidget
  as_read p = record p { created_at = micros p.created_at; updated_at = micros p.updated_at }

  -- the widget of the request
  abbrev pub answer_of : Ctx → CreateWidgetRequest → ProtoWidget
  answer_of ctx req = record {
    id = e.uuid_text ctx.new_id;
    name = req.name;
    description = req.description;
    created_at = ctx.now;
    updated_at = ctx.now;
  }

  -- A CreateWidget that succeeds answers the widget of the request under the id and the time of the
  -- call, and GetWidget answers the same for its id, but with the times cut to the microsecond, on
  -- the world that the create left, while the database answers, with tasks that put every event into
  -- the queue of the transaction, and where the text of an id parses to it.
  pub get-create_widget :
      (ctx : Ctx) (req : CreateWidgetRequest) (world world' : State widget_store o)
      (p : ProtoWidget)
      → create_widget e widget_store o ctx req world ≡ (ok p, world')
      → serves.up world'.db ≡ true
      → (p ≡ answer_of ctx req)
        × (get_widget e widget_store o (record { id = p.id }) world' ≡ ok (as_read p))
  unfolding create_widget get_widget store_contract
  get-create_widget ctx req world world' p h up =
      let (w, same, made) = created-inv ctx req (e.check_name req.name) world world' p h in
      let (fresh, (_, rows, _, _, _, _)) =
        create_commits widget_store o (store_contract serves tasks queued f tokens) ctx _ world
          world' w made in
      let found = rows w.id ∙ rw (==_refl w.id) in
      (
        same ∙ ap (to_proto e) fresh,
        subst
            (λ (v : ProtoWidget).
              get_widget e widget_store o (record { id = v.id }) world' ≡ ok (as_read v))
            (sym same)
            (rw (lawful.parse-uuid_text w.id) (rw (read_back w.id (kept w) world' up found))),
      )
