-- ===== src/Widget.antt =====
-- core/widget/model.go, core/widget/settings.go, and the contract `Store` of core/widget/widget.go.
pub mod Settings
pub mod World
pub mod Core
pub mod Spec
pub mod Db
pub mod Stack
use skit_x.Common.{ℕ, String, Option, Result, List}
use skit_x.Dbx.{Error, By, Page, Cursor}

-- An id is the uuid as a number of 128 bits, a time the nanoseconds since the
-- zero time.Time in UTC.
pub record Widget : Type 0 where
  pub id : ℕ
  pub name : String
  pub description : String
  pub created_at : ℕ
  pub updated_at : ℕ

pub record NewWidget : Type 0 where
  pub name : String
  pub description : String

pub record UpdateWidget : Type 0 where
  pub name : Option String
  pub description : Option String

pub record QueryFilter : Type 0 where
  pub name : Option String
  pub description : Option String

-- The domain event of a created widget; `id` stands for the text of the uuid.
pub record Created : Type 0 where
  pub id : ℕ
  pub name : String
  pub description : String
  pub created_at : ℕ

-- widget.Store: CRUD over the database, Schedule of the scheduler of a transaction, and
-- WithinTranTasks. The callback of a transaction calls `create` and `schedule` on the state of the
-- transaction.
pub record Store : Type 1 where
  pub Db : Type 0
  pub create : Widget → Db → Result Error (Unit {0}) × Db
  pub update : Widget → Db → Result Error (Unit {0}) × Db
  pub delete : ℕ → Db → Result Error (Unit {0}) × Db
  pub query_by_id : ℕ → Db → Result Error Widget
  pub query : QueryFilter → By → Page → Db → Result Error (List Widget)
  pub query_by_cursor : QueryFilter → Cursor → Db → Result Error (List Widget × String)
  pub count : QueryFilter → Db → Result Error ℕ
  pub schedule : Created → Db → Result Error (Unit {0}) × Db
  pub within_tran_tasks : (Db → Result Error (Unit {0}) × Db) → Db → Result Error (Unit {0}) × Db
