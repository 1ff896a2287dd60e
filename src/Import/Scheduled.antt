-- ===== src/Import/Scheduled.antt =====
-- What Schedule hands to the queue.
use skit_x.Common.{
  ℕ, suc, ◌∙◌, [], ◌∷◌, ◌≤◌, String, ◌≡◌, refl, ap, Bool, false, List, Result, ok, err, length,
  arith, inl, inr, Bool-cases,
}
use skit_x.Dbx.{Error}
use skit_x.Errs.{AppError}
use skit_x.Widget.{Widget, NewWidget}
use skit_x.Widget.Settings.{Settings, writable, check, check_iff, max_import}
use skit_x.Import.{
  Queue, Codec, Ctx, Task, import_queue, new_widgets, over_limit, schedule, schedule_writable,
  enqueue, asked,
}

-- What is assumed of JSON: a text that was marshalled is read back.
pub record IsCodec {P : Type 0} (c : Codec P) : Type 0 where
  pub unmarshal-marshal : (ws : List Widget) (b : P) → c.marshal ws ≡ ok b → c.unmarshal b ≡ ok ws

-- The widgets of a batch: the n-th id and on, one for each, in the order of the batch.
unfoldable pub imported : Ctx → ℕ → List NewWidget → List Widget
imported ctx n [] = []
imported ctx n (nw ∷ rest) =
    record {
      id = ctx.new_ids n;
      name = nw.name;
      description = nw.description;
      created_at = ctx.now;
      updated_at = ctx.now;
    }
    ∷ imported ctx (suc n) rest

new_widgets-imported :
    (ctx : Ctx) (n : ℕ) (news : List NewWidget) → new_widgets ctx n news ≡ imported ctx n news
unfolding imported
new_widgets-imported ctx n [] = refl
new_widgets-imported ctx n (nw ∷ rest) =
    ap
      (◌∷◌ (record {
        id = ctx.new_ids n;
        name = nw.name;
        description = nw.description;
        created_at = ctx.now;
        updated_at = ctx.now;
      }))
      (new_widgets-imported ctx (suc n) rest)

module _ {P : Type 0} (q : Queue P) (codec : Codec P) where
  -- The task of the batch, whose payload reads back as one widget for each that was given.
  abbrev pub IsTaskOf : Ctx → String → List NewWidget → Task P → Type 0
  IsTaskOf ctx name news task =
      (task.queue ≡ import_queue)
      × (task.kind ≡ import_queue)
      × (task.key ≡ name)
      × (codec.unmarshal task.payload ≡ ok (imported ctx 0 news))

  enqueue-inv :
      (name : String) (ws : List Widget) (r : Result Error P) (st st' : q.State) (b : Bool)
      → codec.marshal ws ≡ r
      → enqueue q codec name r st ≡ (ok b, st')
      → (payload : P) × (codec.marshal ws ≡ ok payload)
        × (q.schedule
              (record { queue = import_queue; kind = import_queue; key = name; payload = payload })
              st
            ≡ (ok b, st'))
  enqueue-inv name ws (err e) st st' b m h = cc (ap (λ p. p.0) h)
  enqueue-inv name ws (ok payload) st st' b m h = (payload, m, asked-inv (q.schedule _ st) h)
    where
      asked-inv :
          (r : Result Error Bool × q.State) → asked q codec r ≡ (ok b, st') → r ≡ (ok b, st')
      asked-inv (ok c, s) g = cc (ap (λ p. p.0) g, ap (λ p. p.1) g)
      asked-inv (err e, s) g = cc (ap (λ p. p.0) g)

  limited-inv :
      (ctx : Ctx) (set : Settings) (name : String) (news : List NewWidget)
      (g : Result AppError (Unit {0})) (st st' : q.State) (b : Bool)
      → schedule_writable q codec ctx set name news g st ≡ (ok b, st')
      → (over_limit set news ≡ false)
        × (enqueue q codec name (codec.marshal (new_widgets ctx 0 news)) st ≡ (ok b, st'))
  unfolding schedule
  limited-inv ctx set name news (err e) st st' b h = cc (ap (λ p. p.0) h)
  limited-inv ctx set name news (ok _) st st' b h = elim (Bool-cases (over_limit set news)) [
    | inl over ↦ cc (ap (λ p. p.0) (rw over at h))
    | inr fits ↦ (fits, rw fits at h)
  ]

  -- A Schedule that succeeds, with JSON that reads back what it wrote and settings that pass their
  -- check, has handed the queue one task of the import queue and kind: it carries the key of the call, its payload reads back
  -- as one widget for each of the batch, in order, with the ids and the time of the call, and the
  -- batch has no more than max_import of them. The answer is the queue's.
  pub schedule_hands_over :
      IsCodec codec
      → (ctx : Ctx) (set : Settings) (name : String) (news : List NewWidget) (st st' : q.State)
        (b : Bool)
      → check set ≡ ok tt
      → schedule q codec ctx set name news st ≡ (ok b, st')
      → (task : Task P) × IsTaskOf ctx name news task
        × (q.schedule task st ≡ (ok b, st'))
        × (length news ≤ max_import)
  unfolding schedule
  schedule_hands_over lawful ctx set name news st st' b saved h =
      let (fits, g) = limited-inv ctx set name news (writable set) st st' b h in
      let (payload, m, sent) =
        enqueue-inv name (new_widgets ctx 0 news) (codec.marshal (new_widgets ctx 0 news)) st st' b
          refl g in
      let (n, limit, _, bounded) = (check_iff set).0 saved in
      (
        record { queue = import_queue; kind = import_queue; key = name; payload = payload },
        (
          refl,
          refl,
          refl,
          lawful.unmarshal-marshal (new_widgets ctx 0 news) payload m
              ∙ ap ok (new_widgets-imported ctx 0 news),
        ),
        sent,
        (let small = rw limit at fits in ground (arith, small, bounded)),
      )
