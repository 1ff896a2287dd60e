-- ===== src/User/Core.antt =====
-- core/user/user.go: the operations of Core over any Store. A write returns the database that it
-- leaves, beside an error too.
use mathlib.Core.Option.{get_or}
use skit_x.Common.{ℕ, String, List, [], ◌∷◌, Result, ok, err, if◌then◌else◌}
use skit_x.Dbx.{Error, is, err_not_found, err_already_exists, text, uuid, By, Page, Cursor}
use skit_x.Errs.{AppError, newf, wrapped, not_found, already_exists, internal}
use skit_x.User.{User, NewUser, UpdateUser, QueryFilter, Store}

-- What a call takes from outside: time.Now and uuid.New.
pub record Ctx : Type 0 where
  pub now : ℕ
  pub new_id : ℕ

-- Core.notFound
abbrev pub not_found_error : ℕ → AppError
not_found_error i = record (newf not_found "user %s not found" (uuid i ∷ [])) {
  message_id = "user.not_found";
  args = ("id", uuid i) ∷ [];
}

abbrev pub already_exists_error : String → AppError
already_exists_error email =
    record (newf already_exists "user %q already exists" (text email ∷ [])) {
      message_id = "user.already_exists";
      args = ("email", text email) ∷ [];
    }

-- Core.writeErr
abbrev pub write_err : Error → String → AppError
write_err e email =
    if is e err_already_exists then already_exists_error email else wrapped internal e

abbrev not_found_or_internal : ℕ → Error → AppError
not_found_or_internal i e = if is e err_not_found then not_found_error i else wrapped internal e

-- Any error of the listings is Internal.
abbrev pub internally : {A : Type 0} → Result Error A → Result AppError A
internally (ok a) = ok a
internally (err e) = err (wrapped internal e)

abbrev pub new_user : Ctx → NewUser → User
new_user ctx nu = record {
  id = ctx.new_id;
  email = nu.email;
  name = nu.name;
  created_at = ctx.now;
  updated_at = ctx.now;
}

-- the partial update: a nil field is left unchanged
abbrev pub patch : Ctx → UpdateUser → User → User
patch ctx uu u = record u {
  email = get_or uu.email u.email;
  name = get_or uu.name u.name;
  updated_at = ctx.now;
}

module _ (s : Store) where
  abbrev created : User → Result Error (Unit {0}) × s.Db → Result AppError User × s.Db
  created u (ok _, db) = (ok u, db)
  created u (err e, db) = (err (write_err e u.email), db)

  -- Core.Create
  unfoldable pub create : Ctx → NewUser → s.Db → Result AppError User × s.Db
  create ctx nu db = created (new_user ctx nu) (s.create (new_user ctx nu) db)

  abbrev mapped : ℕ → Result Error User → Result AppError User
  mapped i (ok u) = ok u
  mapped i (err e) = err (not_found_or_internal i e)

  -- Core.QueryByID
  unfoldable pub query_by_id : ℕ → s.Db → Result AppError User
  query_by_id i db = mapped i (s.query_by_id i db)

  -- Core.Query
  unfoldable pub query : QueryFilter → By → Page → s.Db → Result AppError (List User)
  query filter by pg db = internally (s.query filter by pg db)

  -- Core.QueryByCursor
  unfoldable pub query_by_cursor :
      QueryFilter → Cursor → s.Db → Result AppError (List User × String)
  query_by_cursor filter cur db = internally (s.query_by_cursor filter cur db)

  -- Core.Count
  unfoldable pub count : QueryFilter → s.Db → Result AppError ℕ
  count filter db = internally (s.count filter db)

  abbrev updated : ℕ → User → Result Error (Unit {0}) × s.Db → Result AppError User × s.Db
  updated i u (ok _, db) = (ok u, db)
  updated i u (err e, db) =
      (err (if is e err_not_found then not_found_error i else write_err e u.email), db)

  abbrev update_found :
      Ctx → ℕ → UpdateUser → Result AppError User → s.Db → Result AppError User × s.Db
  update_found ctx i uu (err e) db = (err e, db)
  update_found ctx i uu (ok u) db = updated i (patch ctx uu u) (s.update (patch ctx uu u) db)

  -- Core.Update
  unfoldable pub update : Ctx → ℕ → UpdateUser → s.Db → Result AppError User × s.Db
  unfolding query_by_id
  update ctx i uu db = update_found ctx i uu (query_by_id i db) db

  abbrev deleted : ℕ → Result Error (Unit {0}) × s.Db → Result AppError (Unit {0}) × s.Db
  deleted i (ok _, db) = (ok tt, db)
  deleted i (err e, db) = (err (not_found_or_internal i e), db)

  -- Core.Delete
  unfoldable pub delete : ℕ → s.Db → Result AppError (Unit {0}) × s.Db
  delete i db = deleted i (s.delete i db)
