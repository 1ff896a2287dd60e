-- ===== src/Widget/Stack/Rows.antt =====
-- Update, Delete and QueryByID of Core over the store of widgetdb: the reply on every branch.
use mathlib.Core.Option.{get_or}
use mathlib.Core.Path.{subst}
use skit_x.Common.{
  ℕ, ◌≡◌, sym, ap, ◌∙◌, true, false, Option, none, some, List, Result, ok, err, inl, inr,
  Option-cases,
}
use skit_x.Dbx.{Error, wrap, Tokens, Querier}
use skit_x.Dbx.Find.{find-id}
use skit_x.Dbx.Table.{Serves, find, is_taken}
use skit_x.Errs.{AppError, internal, wrapped}
use skit_x.Listing.{Formats}
use skit_x.Widget.{Widget, UpdateWidget, Store}
use skit_x.Widget.Core
use skit_x.Widget.Core.{State, patch}
use skit_x.Widget.World.{Ctx, Options, not_found_error}
use skit_x.Widget.Core.Replies
use skit_x.Widget.Db
use skit_x.Widget.Db.{
  DbWidget, widgets, row_args, to_db_widget, to_core_widget, store, sentinel_not_found, Tasks,
}

module _ {q : Querier DbWidget} (serves : Serves widgets q) (f : Formats) (tokens : Tokens)
    (tasks : Tasks q f tokens) (o : Options) where
  abbrev widget_store : Store
  widget_store = store q f tokens tasks

  abbrev row_of : ℕ → State widget_store o → Option DbWidget
  row_of i world = find widgets i (serves.listing world.db)

  -- the reply for the row of the id, if there is one
  abbrev pub found_or_missing : ℕ → Option DbWidget → Result AppError Widget
  found_or_missing i none = err (not_found_error i)
  found_or_missing i (some row) = ok (to_core_widget row)

  read_found :
      (i : ℕ) (row : DbWidget) (db : q.Db)
      → serves.up db ≡ true
      → find widgets i (serves.listing db) ≡ some row
      → widget_store.query_by_id i db ≡ ok (to_core_widget row)
  unfolding Db.query_by_id
  read_found i row db up found = rw (serves.select_found i row db up found)

  read_missing :
      (i : ℕ) (db : q.Db)
      → serves.up db ≡ true
      → find widgets i (serves.listing db) ≡ none
      → widget_store.query_by_id i db ≡ err (wrap "querybyid" sentinel_not_found)
  unfolding Db.query_by_id
  read_missing i db up absent = let (e, x, m) = serves.select_absent i db up absent in rw x (rw m)

  -- On a database that answers, QueryByID returns the row of the id, or NotFound for an id that
  -- the table lacks.
  pub query_by_id_outcome :
      (i : ℕ) (world : State widget_store o)
      → serves.up world.db ≡ true
      → Core.query_by_id widget_store o i world ≡ found_or_missing i (row_of i world)
  unfolding Core.query_by_id
  query_by_id_outcome i world up = elim (Option-cases (row_of i world)) [
    | inl absent ↦ rw (read_missing i world.db up absent) (rw absent)
    | inr (row, found) ↦ rw (read_found i row world.db up found) (rw found)
  ]

  -- On a database that answers, Delete of a writable service succeeds for an id that the table has
  -- and is answered NotFound for one that it lacks.
  pub delete_outcome :
      (i : ℕ) (world : State widget_store o)
      → serves.up world.db ≡ true
      → world.settings.read_only ≡ false
      → (Core.delete widget_store o i world).0
        ≡ elim (row_of i world) [ none ↦ err (not_found_error i) | some _ ↦ ok tt ]
  unfolding Db.delete
  delete_outcome i world up open' = elim (Option-cases (row_of i world)) [
    | inl absent ↦ rw absent (
        Replies.delete-err widget_store o world open' i (wrap "delete" sentinel_not_found) world.db
          (rw (serves.delete_absent i world.db up absent)))
    | inr (row, found) ↦
        let (db', x, _, _) = serves.delete_row i row world.db up found in
        rw found (Replies.delete-ok widget_store o world open' i db' (rw x))
  ]

  -- the row with the fields that an Update gave and a new updated_at
  abbrev pub patched : Ctx → UpdateWidget → DbWidget → Widget
  patched ctx uw row = record {
    id = row.id;
    name = get_or uw.name row.name;
    description = get_or uw.description row.description;
    created_at = row.created_at;
    updated_at = ctx.now;
  }

  -- What Update answers: NotFound without a row, Internal where the new name belongs to another
  -- widget, and the patched widget otherwise.
  abbrev pub UpdateReply :
      Ctx → ℕ → UpdateWidget → List DbWidget → Option DbWidget → Result AppError Widget → Type 0
  UpdateReply ctx i uw rows none reply = reply ≡ err (not_found_error i)
  UpdateReply ctx i uw rows (some row) reply =
      let w = patched ctx uw row in
      (is_taken widgets (to_db_widget w) rows ≡ false → reply ≡ ok w)
      × (is_taken widgets (to_db_widget w) rows ≡ true
          → (e : Error) × (reply ≡ err (wrapped internal e)))

  update_found_outcome :
      (ctx : Ctx) (i : ℕ) (uw : UpdateWidget) (world : State widget_store o) (row : DbWidget)
      → serves.up world.db ≡ true
      → world.settings.read_only ≡ false
      → row_of i world ≡ some row
      → UpdateReply ctx i uw
          (serves.listing world.db)
          (some row)
          (Core.update widget_store o ctx i uw world).0
  unfolding Db.update
  update_found_outcome ctx i uw world row up open' found =
      let own = find-id widgets i (serves.listing world.db) row found in
      let w = patch widget_store o ctx uw (to_core_widget row) in
      let there = ap (λ j. find widgets j (serves.listing world.db)) own ∙ found in
      let read = read_found i row world.db up found in
      (
        λ free.
            let (db', x, _, _) = serves.update_row (to_db_widget w) row world.db up there free in
            Replies.update-ok widget_store o world open' ctx i uw (to_core_widget row) db' read
              (rw x),
        λ taken.
            let (e, x, _, lacks) =
              serves.update_taken (to_db_widget w) row world.db up there taken in
            (
              wrap "update" e,
              Replies.update-err widget_store o world open' ctx i uw (to_core_widget row)
                    (wrap "update" e) world.db read (rw x)
                  ∙ rw lacks,
            ),
      )

  -- On a database that answers, Update of a writable service is answered NotFound for an id that
  -- the table lacks, Internal where the new name belongs to another widget (where Create says
  -- AlreadyExists), and the patched widget otherwise.
  pub update_outcome :
      (ctx : Ctx) (i : ℕ) (uw : UpdateWidget) (world : State widget_store o)
      → serves.up world.db ≡ true
      → world.settings.read_only ≡ false
      → UpdateReply ctx i uw
          (serves.listing world.db)
          (row_of i world)
          (Core.update widget_store o ctx i uw world).0
  update_outcome ctx i uw world up open' = elim (Option-cases (row_of i world)) [
    | inl absent ↦
        rw (absent, UpdateReply)
          (Replies.update-missing widget_store o world open' ctx i uw _
            (read_missing i world.db up absent))
    | inr (row, found) ↦
        subst
          (λ r.
            UpdateReply ctx i uw (serves.listing world.db) r
              (Core.update widget_store o ctx i uw world).0)
          (sym found) (update_found_outcome ctx i uw world row up open' found)
  ]
