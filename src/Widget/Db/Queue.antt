-- ===== src/Widget/Db/Queue.antt =====
-- The queue of tasks beside the table, and the widget that the table has for an id.
use mathlib.Core.Option
use mathlib.Core.Option.{some-injective}
use skit_x.Common.{ℕ, ◌≡◌, Option, List, [], ◌∷◌, ◌++◌, Result, ok, err}
use skit_x.Dbx.{Error, Params, Querier}
use skit_x.Dbx.Table.{Serves, find}
use skit_x.Widget.{Widget, Created}
use skit_x.Widget.Db.{DbWidget, widgets, to_core_widget}

module _ {q : Querier DbWidget} (serves : Serves widgets q) where
  -- What is assumed of the queue and of dbx.WithinTran: a scheduled event is the last of the queue,
  -- the statements of a table do not touch the queue, and a transaction commits what its callback
  -- did or leaves nothing.
  pub record HasTasks (tasks : Created → q.Db → Result Error (Unit {0}) × q.Db) : Type 0 where
    pub outbox : q.Db → List Created
    pub schedule_ok :
        (c : Created) (db db' : q.Db)
        → tasks c db ≡ (ok tt, db')
        → (outbox db' ≡ outbox db ++ c ∷ [])
          × ((i : ℕ) → find widgets i (serves.listing db') ≡ find widgets i (serves.listing db))
    pub insert_outbox :
        (p : Params) (db db' : q.Db)
        → q.named_exec widgets.insert_sql p db ≡ (ok tt, db')
        → outbox db' ≡ outbox db
    pub update_outbox :
        (p : Params) (n : ℕ) (db db' : q.Db)
        → q.named_exec_rows_affected widgets.update_sql p db ≡ (ok n, db')
        → outbox db' ≡ outbox db
    pub delete_outbox :
        (p : Params) (n : ℕ) (db db' : q.Db)
        → q.named_exec_rows_affected widgets.delete_sql p db ≡ (ok n, db')
        → outbox db' ≡ outbox db
    pub within_ok :
        (f : q.Db → Result Error (Unit {0}) × q.Db) (db db' : q.Db)
        → q.within_tran f db ≡ (ok tt, db')
        → f db ≡ (ok tt, db')
    pub within_err :
        (f : q.Db → Result Error (Unit {0}) × q.Db) (e : Error) (db db' : q.Db)
        → q.within_tran f db ≡ (err e, db')
        → db' ≡ db

  -- the widget of an id
  abbrev pub find_widget : q.Db → ℕ → Option Widget
  find_widget db i = Option.map to_core_widget (find widgets i (serves.listing db))
