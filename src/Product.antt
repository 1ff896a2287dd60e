-- ===== src/Product.antt =====
-- core/product/model.go and the contract `Store` of core/product/product.go.
pub mod Db
pub mod Core
pub mod Stack
pub mod Filter
pub mod Listings
use skit_x.Common.{ℕ, ℤ, String, Option, Result, List}
use skit_x.Dbx.{Error, By, Page, Cursor}

pub record Product : Type 0 where
  pub id : ℕ
  pub name : String
  pub price : ℤ
  pub created_at : ℕ
  pub updated_at : ℕ

pub record NewProduct : Type 0 where
  pub name : String
  pub price : ℤ

pub record UpdateProduct : Type 0 where
  pub name : Option String
  pub price : Option ℤ

pub record QueryFilter : Type 0 where
  pub name : Option String
  pub min_price : Option ℤ
  pub max_price : Option ℤ

-- product.Store
pub record Store : Type 1 where
  pub Db : Type 0
  pub create : Product → Db → Result Error (Unit {0}) × Db
  pub update : Product → Db → Result Error (Unit {0}) × Db
  pub delete : ℕ → Db → Result Error (Unit {0}) × Db
  pub query_by_id : ℕ → Db → Result Error Product
  pub query : QueryFilter → By → Page → Db → Result Error (List Product)
  pub query_by_cursor : QueryFilter → Cursor → Db → Result Error (List Product × String)
  pub count : QueryFilter → Db → Result Error ℕ
