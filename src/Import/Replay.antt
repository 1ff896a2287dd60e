-- ===== src/Import/Replay.antt =====
-- A task that is delivered again.
use skit_x.Common.{
  ℕ, ◌≡◌, refl, sym, ap, ◌∙◌, true, Option, none, some, List, [], ◌∷◌, map, Result, ok, err, inl,
  inr, Option-cases,
}
use skit_x.Dbx.{Error, Arg, text, time, uuid, Querier}
use skit_x.Dbx.Table.{Serves, find}
use skit_x.Widget.{Widget}
use skit_x.Widget.Db.{DbWidget, widgets, to_db_widget, bulk_insert, bulk_done, insert_values}
use skit_x.Import.{Codec, handle, handled, handle_decoded}

abbrev pub or_else : {A : Type 0} → Option A → Option A → Option A
or_else none other = other
or_else (some r) other = some r

-- the values of a multi-row INSERT, five for each widget
unfoldable pub batch_values : List Widget → List Arg
batch_values [] = []
batch_values (w ∷ ws) =
    uuid w.id
    ∷ text w.name
    ∷ text w.description
    ∷ time w.created_at
    ∷ time w.updated_at
    ∷ batch_values ws

abbrev pub kept_row : Widget → DbWidget
kept_row w = widgets.stored (to_db_widget w)

module _ {q : Querier DbWidget} (serves : Serves widgets q) where
  abbrev pub row_of : q.Db → ℕ → Option DbWidget
  row_of db i = find widgets i (serves.listing db)

  -- the multi-row INSERT that leaves the rows of ids it finds as they are
  abbrev pub insert_ignoring : List Widget → q.Db → Result Error (Unit {0}) × q.Db
  insert_ignoring ws db =
      q.bulk_insert "widgets" ("id" ∷ "name" ∷ "description" ∷ "created_at" ∷ "updated_at" ∷ [])
        (batch_values ws) "ON CONFLICT (id) DO NOTHING" db

  -- What is assumed of Postgres: an INSERT with ON CONFLICT (id) DO NOTHING that succeeds has added
  -- the rows whose id was missing, and one whose ids are all there succeeds and changes nothing.
  pub record SkipsConflicts : Type 0 where
    pub adds_missing :
        (w : Widget) (ws : List Widget) (db db' : q.Db)
        → insert_ignoring (w ∷ ws) db ≡ (ok tt, db')
        → (i : ℕ) → row_of db' i ≡ or_else (row_of db i) (find widgets i (map kept_row (w ∷ ws)))
    pub skips_present :
        (w : Widget) (ws : List Widget) (db : q.Db)
        → serves.up db ≡ true
        → ((i : ℕ) → row_of db i ≡ none → find widgets i (map kept_row (w ∷ ws)) ≡ none)
        → insert_ignoring (w ∷ ws) db ≡ (ok tt, db)

  insert_values-batch : (ws : List Widget) → insert_values q ws ≡ batch_values ws
  unfolding batch_values
  insert_values-batch [] = refl
  insert_values-batch (w ∷ ws) =
      ap
        (λ rest.
          uuid w.id
          ∷ text w.name
          ∷ text w.description
          ∷ time w.created_at
          ∷ time w.updated_at
          ∷ rest)
        (insert_values-batch ws)

  bulk_done-inv :
      (r : Result Error (Unit {0}) × q.Db) (db' : q.Db)
      → bulk_done q r ≡ (ok tt, db')
      → r ≡ (ok tt, db')
  bulk_done-inv (ok tt, db) db' h = ap (λ p. (ok tt, p.1)) h
  bulk_done-inv (err e, db) db' h = cc (ap (λ p. p.0) h)

  bulk_insert-batch :
      (w : Widget) (ws : List Widget) (db : q.Db)
      → bulk_insert q (w ∷ ws) db ≡ bulk_done q (insert_ignoring (w ∷ ws) db)
  unfolding bulk_insert
  bulk_insert-batch w ws db =
      ap
        (λ values. bulk_done q (
          q.bulk_insert "widgets" ("id" ∷ "name" ∷ "description" ∷ "created_at" ∷ "updated_at" ∷ [])
            values "ON CONFLICT (id) DO NOTHING" db))
        (insert_values-batch (w ∷ ws))

  module _ (skips : SkipsConflicts) where
    pub bulk_insert-adds :
        (ws : List Widget) (db db' : q.Db)
        → bulk_insert q ws db ≡ (ok tt, db')
        → (i : ℕ) → row_of db' i ≡ or_else (row_of db i) (find widgets i (map kept_row ws))
    unfolding bulk_insert find
    bulk_insert-adds [] db db' h i = elim (Option-cases (row_of db i)) [
      | inl e ↦ ap (λ p. row_of p.1 i) (sym h) ∙ rw e
      | inr (r, e) ↦ ap (λ p. row_of p.1 i) (sym h) ∙ rw e
    ]
    bulk_insert-adds (w ∷ ws) db db' h i =
        skips.adds_missing w ws db db' (bulk_done-inv _ db' (sym (bulk_insert-batch w ws db) ∙ h)) i

    bulk_insert-skips :
        (ws : List Widget) (db : q.Db)
        → serves.up db ≡ true
        → ((i : ℕ) → row_of db i ≡ none → find widgets i (map kept_row ws) ≡ none)
        → bulk_insert q ws db ≡ (ok tt, db)
    unfolding bulk_insert
    bulk_insert-skips [] db up h = refl
    bulk_insert-skips (w ∷ ws) db up h =
        bulk_insert-batch w ws db ∙ ap (bulk_done q) (skips.skips_present w ws db up h)

  module _ {P : Type 0} (codec : Codec P) where
    decoded-inv :
        (r : Result Error (List Widget)) (db db' : q.Db)
        → handle_decoded codec q r db ≡ (ok tt, db')
        → (ws : List Widget) × (r ≡ ok ws) × (bulk_insert q ws db ≡ (ok tt, db'))
    unfolding handle
    decoded-inv (err e) db db' h = cc (ap (λ p. p.0) h)
    decoded-inv (ok ws) db db' h = (ws, refl, handled_ok (bulk_insert q ws db) h)
      where
        handled_ok :
            (r : Result Error (Unit {0}) × q.Db)
            → handled codec q r ≡ (ok tt, db')
            → r ≡ (ok tt, db')
        handled_ok (ok tt, d) g = ap (λ (x : q.Db). (ok tt, x)) (ap (λ p. p.1) g)
        handled_ok (err e, d) g = cc (ap (λ p. p.0) g)

    -- What a Handle that succeeds has done.
    pub handled-inv :
        (payload : P) (db db' : q.Db)
        → handle codec q payload db ≡ (ok tt, db')
        → (ws : List Widget) × (codec.unmarshal payload ≡ ok ws)
          × (bulk_insert q ws db ≡ (ok tt, db'))
    unfolding handle
    handled-inv payload db db' h = decoded-inv (codec.unmarshal payload) db db' h

  module _ {P : Type 0} (codec : Codec P) (skips : SkipsConflicts) where
    -- A row of the batch is there after a Handle.
    present : (o p : Option DbWidget) → or_else o p ≡ none → p ≡ none
    present none p h = h
    present (some r) p h = cc

    -- A task whose Handle succeeded can be delivered again at any time: with ON CONFLICT (id) DO
    -- NOTHING, on a database that answers and in which no row that was there after the first
    -- delivery has been deleted, the second succeeds and changes nothing, so it undoes no update
    -- that came between.
    pub replay_changes_nothing :
        (payload : P) (db db' later : q.Db)
        → handle codec q payload db ≡ (ok tt, db')
        → serves.up later ≡ true
        → ((i : ℕ) → row_of later i ≡ none → row_of db' i ≡ none)
        → handle codec q payload later ≡ (ok tt, later)
    unfolding handle
    replay_changes_nothing payload db db' later h up kept =
        let (ws, decoded, inserted) = handled-inv codec payload db db' h in
        let again = bulk_insert-skips skips ws later up (λ i absent.
          present (row_of db i) (find widgets i (map kept_row ws))
            (sym (bulk_insert-adds skips ws db db' inserted i) ∙ kept i absent)) in
        rw decoded (rw again)
