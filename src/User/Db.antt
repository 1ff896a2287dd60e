-- ===== src/User/Db.antt =====
-- core/user/userdb: model.go, order.go and userdb.go, over any querier.
use skit_x.Common.{
  ℕ, String, ◌<>◌, Option, none, some, List, [], ◌∷◌, map, Result, ok, err, ◌>>=◌, str_eq,
  if◌then◌else◌,
}
use skit_x.Dbx.{
  Error, is, wrap, wrap_both, err_not_found, err_already_exists, db_duplicated_entry, db_not_found,
  text, num, time, uuid, Params, By, Page, Cursor, Tokens, Querier,
}
use skit_x.Dbx.Affected.{affected}
use skit_x.Dbx.Table.{Table, micros, offset_rows}
use skit_x.Listing
use skit_x.Listing.{Formats, wrap_err}
use skit_x.Listing.Clauses.{clause_of, substring}
use skit_x.User.{User, QueryFilter, Store}

pub record DbUser : Type 0 where
  pub id : ℕ
  pub email : String
  pub name : String
  pub created_at : ℕ
  pub updated_at : ℕ

-- toDBUser; times are instants, so UTC() changes nothing.
abbrev pub to_db_user : User → DbUser
to_db_user u = record {
  id = u.id;
  email = u.email;
  name = u.name;
  created_at = u.created_at;
  updated_at = u.updated_at;
}

-- toCoreUser
abbrev pub to_core_user : DbUser → User
to_core_user r = record {
  id = r.id;
  email = r.email;
  name = r.name;
  created_at = r.created_at;
  updated_at = r.updated_at;
}

-- toCoreUsers
abbrev pub to_core_users : List DbUser → List User
to_core_users = map to_core_user

-- The `db` tags of dbUser.
abbrev pub user_args : DbUser → Params
user_args r =
    ("id", uuid r.id)
    ∷ ("email", text r.email)
    ∷ ("name", text r.name)
    ∷ ("created_at", time r.created_at)
    ∷ ("updated_at", time r.updated_at)
    ∷ []

-- The statements of the store, the unique index users_email_key, and the SET of the UPDATE.
abbrev pub users : Table DbUser
users = record {
  insert_sql =
      "INSERT INTO users (id, email, name, created_at, updated_at) VALUES (:id, :email, :name, :created_at, :updated_at)";
  update_sql =
      "UPDATE users SET email = :email, name = :name, updated_at = :updated_at WHERE id = :id";
  delete_sql = "DELETE FROM users WHERE id = :id";
  select_one_sql = "SELECT id, email, name, created_at, updated_at FROM users WHERE id = :id";
  select_sql = "SELECT id, email, name, created_at, updated_at FROM users";
  count_sql = "SELECT count(*) AS n FROM users";
  args = user_args;
  id = λ r. r.id;
  created_at = λ r. r.created_at;
  collide = λ r s. str_eq r.email s.email;
  assign = λ r old. record old { email = r.email; name = r.name; updated_at = r.updated_at };
  stored = λ r. record r { created_at = micros r.created_at; updated_at = micros r.updated_at };
}

abbrev pub sentinel_not_found : Error
sentinel_not_found = record { text = "user not found"; causes = err_not_found ∷ [] }

abbrev pub sentinel_already_exists : Error
sentinel_already_exists = record { text = "user already exists"; causes = err_already_exists ∷ [] }

-- orderByFields
order_by_fields : String → Option String
order_by_fields field =
    if str_eq field "created_at"
    then some "created_at"
    else if str_eq field "name"
    then some "name"
    else if str_eq field "email"
    then some "email"
    else none

-- orderByClause
unfoldable pub order_by_clause : By → Result Error String
unfolding order_by_fields
order_by_clause by = clause_of by.direction (order_by_fields by.field)

-- whereConditions
unfoldable pub where_conditions : QueryFilter → Params → List String × Params
where_conditions filter data' =
    substring "email" "email ILIKE :email" filter.email
      (substring "name" "name ILIKE :name" filter.name ([], data'))

-- A duplicate entry is the sentinel of the domain, in Create and in Update.
abbrev pub duplicate_mapped : String → Error → Error
duplicate_mapped op e =
    if is e db_duplicated_entry then wrap_both op sentinel_already_exists e else wrap op e

abbrev updated : Result Error ℕ → Result Error (Unit {0})
updated (err e) = err (duplicate_mapped "update" e)
updated (ok n) = affected sentinel_not_found "update" (ok n)

module _ (q : Querier DbUser) where
  abbrev create_done : Result Error (Unit {0}) × q.Db → Result Error (Unit {0}) × q.Db
  create_done (ok _, db) = (ok tt, db)
  create_done (err e, db) = (err (duplicate_mapped "create" e), db)

  unfoldable pub create : User → q.Db → Result Error (Unit {0}) × q.Db
  create u db = create_done (q.named_exec users.insert_sql (user_args (to_db_user u)) db)

  unfoldable pub update : User → q.Db → Result Error (Unit {0}) × q.Db
  update u db =
      let (n, db') = q.named_exec_rows_affected users.update_sql (user_args (to_db_user u)) db in
      (updated n, db')

  unfoldable pub delete : ℕ → q.Db → Result Error (Unit {0}) × q.Db
  delete i db =
      let (n, db') = q.named_exec_rows_affected users.delete_sql (("id", uuid i) ∷ []) db in
      (affected sentinel_not_found "delete" n, db')

  abbrev one : Result Error DbUser → Result Error User
  one (ok r) = ok (to_core_user r)
  one (err e) = err (wrap "querybyid" (if is e db_not_found then sentinel_not_found else e))

  unfoldable pub query_by_id : ℕ → q.Db → Result Error User
  query_by_id i db = one (q.named_query_one users.select_one_sql (("id", uuid i) ∷ []) db)

  unfoldable pub count : QueryFilter → q.Db → Result Error ℕ
  count filter db =
      let (wc, data') = where_conditions filter [] in
      wrap_err "count" (
        q.named_query_count (record { select = users.count_sql; conditions = wc; suffix = "" })
          data' db)

  unfoldable pub query : QueryFilter → By → Page → q.Db → Result Error (List User)
  query filter by pg db = do
    clause ← wrap_err "query" (order_by_clause by)
    let part =
        where_conditions filter
          (("offset", num pg.offset) ∷ ("rows_per_page", num pg.rows_per_page) ∷ [])
    rows ← wrap_err "query" (
        q.named_query_list
          (record {
            select = users.select_sql;
            conditions = part.0;
            suffix = clause <> offset_rows;
          })
          part.1 db)
    ok (to_core_users rows)

  module _ (f : Formats) (tokens : Tokens) where
    unfoldable pub query_by_cursor : QueryFilter → Cursor → q.Db → Result Error (List User × String)
    query_by_cursor filter cur db =
        Listing.query_by_cursor users q f tokens to_core_user (where_conditions filter) cur db

    -- The store that the Core is built over.
    abbrev pub store : Store
    store = record {
      Db = q.Db;
      create = create;
      update = update;
      delete = delete;
      query_by_id = query_by_id;
      query = query;
      query_by_cursor = query_by_cursor;
      count = count;
    }
