-- ===== src/Product/Core.antt =====
-- core/product/product.go: the operations of Core over any Store. A write returns the database that
-- it leaves, beside an error too.
use mathlib.Core.Option.{get_or}
use skit_x.Common.{ℕ, String, List, [], ◌∷◌, Result, ok, err, if◌then◌else◌}
use skit_x.Dbx.{Error, is, err_not_found, uuid, By, Page, Cursor}
use skit_x.Errs.{AppError, newf, wrapped, not_found, internal}
use skit_x.Product.{Product, NewProduct, UpdateProduct, QueryFilter, Store}

-- What a call takes from outside: time.Now and uuid.New.
pub record Ctx : Type 0 where
  pub now : ℕ
  pub new_id : ℕ

-- Core.notFound
abbrev pub not_found_error : ℕ → AppError
not_found_error i = record (newf not_found "product %s not found" (uuid i ∷ [])) {
  message_id = "product.not_found";
  args = ("id", uuid i) ∷ [];
}

abbrev not_found_or_internal : ℕ → Error → AppError
not_found_or_internal i e = if is e err_not_found then not_found_error i else wrapped internal e

-- Any error of the listings is Internal.
abbrev pub internally : {A : Type 0} → Result Error A → Result AppError A
internally (ok a) = ok a
internally (err e) = err (wrapped internal e)

abbrev pub new_product : Ctx → NewProduct → Product
new_product ctx np = record {
  id = ctx.new_id;
  name = np.name;
  price = np.price;
  created_at = ctx.now;
  updated_at = ctx.now;
}

-- the partial update: a nil field is left unchanged
abbrev pub patch : Ctx → UpdateProduct → Product → Product
patch ctx up u = record u {
  name = get_or up.name u.name;
  price = get_or up.price u.price;
  updated_at = ctx.now;
}

module _ (s : Store) where
  abbrev created : Product → Result Error (Unit {0}) × s.Db → Result AppError Product × s.Db
  created u (ok _, db) = (ok u, db)
  created u (err e, db) = (err (wrapped internal e), db)

  -- Core.Create
  unfoldable pub create : Ctx → NewProduct → s.Db → Result AppError Product × s.Db
  create ctx np db = created (new_product ctx np) (s.create (new_product ctx np) db)

  abbrev mapped : ℕ → Result Error Product → Result AppError Product
  mapped i (ok u) = ok u
  mapped i (err e) = err (not_found_or_internal i e)

  -- Core.QueryByID
  unfoldable pub query_by_id : ℕ → s.Db → Result AppError Product
  query_by_id i db = mapped i (s.query_by_id i db)

  -- Core.Query
  unfoldable pub query : QueryFilter → By → Page → s.Db → Result AppError (List Product)
  query filter by pg db = internally (s.query filter by pg db)

  -- Core.QueryByCursor
  unfoldable pub query_by_cursor :
      QueryFilter → Cursor → s.Db → Result AppError (List Product × String)
  query_by_cursor filter cur db = internally (s.query_by_cursor filter cur db)

  -- Core.Count
  unfoldable pub count : QueryFilter → s.Db → Result AppError ℕ
  count filter db = internally (s.count filter db)

  abbrev updated : ℕ → Product → Result Error (Unit {0}) × s.Db → Result AppError Product × s.Db
  updated i u (ok _, db) = (ok u, db)
  updated i u (err e, db) = (err (not_found_or_internal i e), db)

  abbrev update_found :
      Ctx → ℕ → UpdateProduct → Result AppError Product → s.Db → Result AppError Product × s.Db
  update_found ctx i up (err e) db = (err e, db)
  update_found ctx i up (ok u) db = updated i (patch ctx up u) (s.update (patch ctx up u) db)

  -- Core.Update
  unfoldable pub update : Ctx → ℕ → UpdateProduct → s.Db → Result AppError Product × s.Db
  unfolding query_by_id
  update ctx i up db = update_found ctx i up (query_by_id i db) db

  abbrev deleted : ℕ → Result Error (Unit {0}) × s.Db → Result AppError (Unit {0}) × s.Db
  deleted i (ok _, db) = (ok tt, db)
  deleted i (err e, db) = (err (not_found_or_internal i e), db)

  -- Core.Delete
  unfoldable pub delete : ℕ → s.Db → Result AppError (Unit {0}) × s.Db
  delete i db = deleted i (s.delete i db)
