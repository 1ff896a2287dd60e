-- ===== src/Api/Users.antt =====
-- api/user/user.go and api/user/model.go, over the user Core.
use skit_x.Common.{ℕ, String, Option, List, [], ◌∷◌, map, Result, ok, err, ◌>>=◌}
use skit_x.Api.{Edge, ListQuery, Answer, Paged}
use skit_x.Api.Inputs.{
  given, invalidated, id_of, cursor_of, responded, answered, cursor_page, paged_list,
}
use skit_x.Dbx.{By, Tokens}
use skit_x.Errs.{AppError}
use skit_x.User.{User, QueryFilter, Store}
use skit_x.User.Core
use skit_x.User.Core.{Ctx}

-- Response
pub record UserResponse : Type 0 where
  pub id : String
  pub email : String
  pub name : String
  pub created_at : ℕ
  pub updated_at : ℕ

-- The bodies, decoded and validated by rest.Decode.
pub record CreateUserReq : Type 0 where
  pub email : String
  pub name : String

pub record UpdateUserReq : Type 0 where
  pub email : Option String
  pub name : Option String

-- user.DefaultOrder and user.SortableFields
abbrev pub default_order : By
default_order = record { field = "created_at"; direction = "DESC" }

abbrev pub sortable_fields : List String
sortable_fields = "created_at" ∷ "name" ∷ "email" ∷ []

module _ (e : Edge) where
  -- toResponse
  abbrev pub to_response : User → UserResponse
  to_response u = record {
    id = e.uuid_text u.id;
    email = u.email;
    name = u.name;
    created_at = u.created_at;
    updated_at = u.updated_at;
  }

  -- toResponseList
  abbrev pub to_response_list : List User → List UserResponse
  to_response_list = map to_response

  -- parseUserFilter
  unfoldable pub parse_user_filter : ListQuery → QueryFilter
  parse_user_filter q = record {
    name = given (e.trim_space q.name);
    email = given (e.trim_space q.email);
  }

  module _ (s : Store) where
    -- Handler.create, by the decoded body
    unfoldable pub create :
        Ctx → Result AppError CreateUserReq → s.Db → Result AppError (Answer UserResponse) × s.Db
    create ctx (err x) db = (err x, db)
    create ctx (ok req) db =
        answered 201 to_response
          (Core.create s ctx (record { email = req.email; name = req.name }) db)

    -- Handler.query
    unfoldable pub query : ListQuery → s.Db → Result AppError (Paged UserResponse)
    query q db = do
      pg ← invalidated (e.parse_page q.page q.rows)
      by ← invalidated (e.parse_order sortable_fields q.order_by default_order)
      paged_list to_response pg (Core.query s (parse_user_filter q) by pg db)
          (Core.count s (parse_user_filter q) db)

    -- Handler.queryCursor
    unfoldable pub query_cursor :
        Tokens → ListQuery → s.Db → Result AppError (List UserResponse × String)
    query_cursor tokens q db = do
      _ ← invalidated (tokens.key q.cursor)
      cursor_page to_response (Core.query_by_cursor s (parse_user_filter q) (cursor_of e q) db)

    -- Handler.queryByID
    unfoldable pub query_by_id : String → s.Db → Result AppError UserResponse
    query_by_id id db = do i ← id_of e id; responded to_response (Core.query_by_id s i db)

    abbrev update_decoded :
        Ctx
        → Result AppError ℕ
        → Result AppError UpdateUserReq
        → s.Db
        → Result AppError (Answer UserResponse) × s.Db
    update_decoded ctx (err x) body db = (err x, db)
    update_decoded ctx (ok i) (err x) db = (err x, db)
    update_decoded ctx (ok i) (ok req) db =
        answered 200 to_response
          (Core.update s ctx i (record { email = req.email; name = req.name }) db)

    -- Handler.update, by the decoded body
    unfoldable pub update :
        Ctx
        → String
        → Result AppError UpdateUserReq
        → s.Db
        → Result AppError (Answer UserResponse) × s.Db
    update ctx id body db = update_decoded ctx (id_of e id) body db

    abbrev delete_parsed : Result AppError ℕ → s.Db → Result AppError (Unit {0}) × s.Db
    delete_parsed (err x) db = (err x, db)
    delete_parsed (ok i) db = Core.delete s i db

    -- Handler.delete: no document is the status 204.
    unfoldable pub delete : String → s.Db → Result AppError (Unit {0}) × s.Db
    delete id db = delete_parsed (id_of e id) db
