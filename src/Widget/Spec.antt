-- ===== src/Widget/Spec.antt =====
-- What Core relies on in a Store: a map from ids to widgets and the log of scheduled events, and
-- that a failed call leaves the database as it was.
use skit_x.Common.{
  ℕ, ◌≡◌, true, Option, none, some, List, [], ◌∷◌, ◌++◌, Result, ok, err, ◌==◌, if◌then◌else◌,
}
use skit_x.Dbx.{Error, is, err_not_found}
use skit_x.Dbx.Table.{micros}
use skit_x.Widget.{Widget, Created, Store}

-- the widget as the table keeps it: its times to the microsecond
abbrev pub kept : Widget → Widget
kept w = record w { created_at = micros w.created_at; updated_at = micros w.updated_at }

pub record IsStore (s : Store) : Type 0 where
  pub find : s.Db → ℕ → Option Widget
  pub outbox : s.Db → List Created
  pub find-id : (i : ℕ) (w : Widget) (db : s.Db) → find db i ≡ some w → w.id ≡ i
  pub query_by_id_ok :
      (i : ℕ) (w : Widget) (db : s.Db) → s.query_by_id i db ≡ ok w → find db i ≡ some w
  pub query_by_id_missing :
      (i : ℕ) (e : Error) (db : s.Db)
      → s.query_by_id i db ≡ err e
      → is e err_not_found ≡ true
      → find db i ≡ none
  pub create_ok :
      (w : Widget) (db db' : s.Db)
      → s.create w db ≡ (ok tt, db')
      → (find db w.id ≡ none)
        × ((i : ℕ) → find db' i ≡ (if w.id == i then some (kept w) else find db i))
        × (outbox db' ≡ outbox db)
  pub update_ok :
      (w old : Widget) (db db' : s.Db)
      → find db w.id ≡ some old
      → s.update w db ≡ (ok tt, db')
      → ((i : ℕ)
          → find db' i ≡ (
              if w.id == i
              then some (record (kept w) { created_at = old.created_at })
              else find db i))
        × (outbox db' ≡ outbox db)
  pub update_err :
      (w : Widget) (e : Error) (db db' : s.Db) → s.update w db ≡ (err e, db') → db' ≡ db
  pub delete_ok :
      (i : ℕ) (db db' : s.Db)
      → s.delete i db ≡ (ok tt, db')
      → ((j : ℕ) → find db' j ≡ (if i == j then none else find db j)) × (outbox db' ≡ outbox db)
  pub delete_err : (i : ℕ) (e : Error) (db db' : s.Db) → s.delete i db ≡ (err e, db') → db' ≡ db
  pub schedule_ok :
      (c : Created) (db db' : s.Db)
      → s.schedule c db ≡ (ok tt, db')
      → (outbox db' ≡ outbox db ++ c ∷ []) × ((i : ℕ) → find db' i ≡ find db i)
  -- A transaction that commits has run its callback; one that fails leaves nothing behind.
  pub within_ok :
      (f : s.Db → Result Error (Unit {0}) × s.Db) (db db' : s.Db)
      → s.within_tran_tasks f db ≡ (ok tt, db')
      → f db ≡ (ok tt, db')
  pub within_err :
      (f : s.Db → Result Error (Unit {0}) × s.Db) (e : Error) (db db' : s.Db)
      → s.within_tran_tasks f db ≡ (err e, db')
      → db' ≡ db
