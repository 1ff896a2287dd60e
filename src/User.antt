-- ===== src/User.antt =====
-- core/user/model.go and the contract `Store` of core/user/user.go.
pub mod Db
pub mod Core
pub mod Stack
pub mod Filter
pub mod Listings
use skit_x.Common.{ℕ, String, Option, Result, List}
use skit_x.Dbx.{Error, By, Page, Cursor}

pub record User : Type 0 where
  pub id : ℕ
  pub email : String
  pub name : String
  pub created_at : ℕ
  pub updated_at : ℕ

pub record NewUser : Type 0 where
  pub email : String
  pub name : String

pub record UpdateUser : Type 0 where
  pub email : Option String
  pub name : Option String

pub record QueryFilter : Type 0 where
  pub name : Option String
  pub email : Option String

-- user.Store
pub record Store : Type 1 where
  pub Db : Type 0
  pub create : User → Db → Result Error (Unit {0}) × Db
  pub update : User → Db → Result Error (Unit {0}) × Db
  pub delete : ℕ → Db → Result Error (Unit {0}) × Db
  pub query_by_id : ℕ → Db → Result Error User
  pub query : QueryFilter → By → Page → Db → Result Error (List User)
  pub query_by_cursor : QueryFilter → Cursor → Db → Result Error (List User × String)
  pub count : QueryFilter → Db → Result Error ℕ
