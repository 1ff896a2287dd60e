-- ===== src/Widget/Db.antt =====
-- core/widget/widgetdb: model.go, order.go and widgetdb.go, over any querier.
pub mod Queue
pub mod Outcomes
pub mod Contract
pub mod Filter
pub mod Listings
use skit_x.Common.{
  ℕ, zero, suc, String, ◌<>◌, ◌≡◌, Bool, true, false, ◌&&◌, Option, none, some, List, [], ◌∷◌, ◌++◌,
  map, Result, ok, err, ◌>>=◌, ◌==◌, str_eq, if◌then◌else◌,
}
use skit_x.Dbx.{
  Error, is, wrap, wrap_both, err_not_found, err_already_exists, err_no_tasks, db_duplicated_entry,
  db_not_found, failure, Arg, text, num, time, uuid, Params, Statement, By, Page, Cursor, Tokens,
  Querier,
}
use skit_x.Dbx.Table.{Table, micros, offset_rows}
use skit_x.Listing
use skit_x.Listing.{Formats, wrap_err}
use skit_x.Listing.Clauses.{clause_of, substring}
use skit_x.Dbx.Affected.{affected}
use skit_x.Widget.{Widget, QueryFilter, Created, Store}

pub record DbWidget : Type 0 where
  pub id : ℕ
  pub name : String
  pub description : String
  pub created_at : ℕ
  pub updated_at : ℕ

-- toDBWidget; times are instants, so UTC() changes nothing.
abbrev pub to_db_widget : Widget → DbWidget
to_db_widget w = record {
  id = w.id;
  name = w.name;
  description = w.description;
  created_at = w.created_at;
  updated_at = w.updated_at;
}

-- toCoreWidget
abbrev pub to_core_widget : DbWidget → Widget
to_core_widget r = record {
  id = r.id;
  name = r.name;
  description = r.description;
  created_at = r.created_at;
  updated_at = r.updated_at;
}

abbrev pub to_core_widgets : List DbWidget → List Widget
to_core_widgets = map to_core_widget

-- The `db` tags of dbWidget.
abbrev pub row_args : DbWidget → Params
row_args r =
    ("id", uuid r.id)
    ∷ ("name", text r.name)
    ∷ ("description", text r.description)
    ∷ ("created_at", time r.created_at)
    ∷ ("updated_at", time r.updated_at)
    ∷ []

-- The statements of the store, the unique index widgets_name_key, and the SET of the UPDATE.
abbrev pub widgets : Table DbWidget
widgets = record {
  insert_sql =
      "INSERT INTO widgets (id, name, description, created_at, updated_at) VALUES (:id, :name, :description, :created_at, :updated_at)";
  update_sql =
      "UPDATE widgets SET name = :name, description = :description, updated_at = :updated_at WHERE id = :id";
  delete_sql = "DELETE FROM widgets WHERE id = :id";
  select_one_sql =
      "SELECT id, name, description, created_at, updated_at FROM widgets WHERE id = :id";
  select_sql = "SELECT id, name, description, created_at, updated_at FROM widgets";
  count_sql = "SELECT count(*) AS n FROM widgets";
  args = row_args;
  id = λ r. r.id;
  created_at = λ r. r.created_at;
  collide = λ r s. str_eq r.name s.name;
  assign =
      λ r old. record old { name = r.name; description = r.description; updated_at = r.updated_at };
  stored = λ r. record r { created_at = micros r.created_at; updated_at = micros r.updated_at };
}

abbrev pub sentinel_not_found : Error
sentinel_not_found = record { text = "widget not found"; causes = err_not_found ∷ [] }

abbrev pub sentinel_already_exists : Error
sentinel_already_exists = record {
  text = "widget already exists";
  causes = err_already_exists ∷ [];
}

abbrev pub no_tasks_error : Error
no_tasks_error = record {
  text = "widgetdb: schedule: the store has no tasks (WithTasks)";
  causes = err_no_tasks ∷ [];
}

-- orderByFields
order_by_fields : String → Option String
order_by_fields field =
    if str_eq field "created_at"
    then some "created_at"
    else if str_eq field "name"
    then some "name"
    else none

-- orderByClause
unfoldable pub order_by_clause : By → Result Error String
unfolding order_by_fields
order_by_clause by = clause_of by.direction (order_by_fields by.field)

-- whereConditions
unfoldable pub where_conditions : QueryFilter → Params → List String × Params
where_conditions filter data' =
    substring "description" "description ILIKE :description" filter.description
      (substring "name" "name ILIKE :name" filter.name ([], data'))

abbrev create_mapped : Error → Error
create_mapped e =
    if is e db_duplicated_entry
    then wrap_both "create" sentinel_already_exists e
    else wrap "create" e

module _ (q : Querier DbWidget) where
  abbrev create_done : Result Error (Unit {0}) × q.Db → Result Error (Unit {0}) × q.Db
  create_done (ok _, db) = (ok tt, db)
  create_done (err e, db) = (err (create_mapped e), db)

  unfoldable pub create : Widget → q.Db → Result Error (Unit {0}) × q.Db
  create w db = create_done (q.named_exec widgets.insert_sql (row_args (to_db_widget w)) db)

  unfoldable pub update : Widget → q.Db → Result Error (Unit {0}) × q.Db
  update w db =
      let (n, db') = q.named_exec_rows_affected widgets.update_sql (row_args (to_db_widget w)) db in
      (affected sentinel_not_found "update" n, db')

  unfoldable pub delete : ℕ → q.Db → Result Error (Unit {0}) × q.Db
  delete i db =
      let (n, db') = q.named_exec_rows_affected widgets.delete_sql (("id", uuid i) ∷ []) db in
      (affected sentinel_not_found "delete" n, db')

  abbrev one : Result Error DbWidget → Result Error Widget
  one (ok r) = ok (to_core_widget r)
  one (err e) = err (wrap "querybyid" (if is e db_not_found then sentinel_not_found else e))

  unfoldable pub query_by_id : ℕ → q.Db → Result Error Widget
  query_by_id i db = one (q.named_query_one widgets.select_one_sql (("id", uuid i) ∷ []) db)

  unfoldable pub count : QueryFilter → q.Db → Result Error ℕ
  count filter db =
      let (wc, data') = where_conditions filter [] in
      wrap_err "count" (
        q.named_query_count (record { select = widgets.count_sql; conditions = wc; suffix = "" })
          data' db)

  unfoldable pub query : QueryFilter → By → Page → q.Db → Result Error (List Widget)
  query filter by pg db = do
    clause ← wrap_err "query" (order_by_clause by)
    let part =
        where_conditions filter
          (("offset", num pg.offset) ∷ ("rows_per_page", num pg.rows_per_page) ∷ [])
    rows ← wrap_err "query" (
        q.named_query_list
          (record {
            select = widgets.select_sql;
            conditions = part.0;
            suffix = clause <> offset_rows;
          })
          part.1 db)
    ok (to_core_widgets rows)

  -- `values = append(values, …)` for every widget.
  abbrev pub insert_values : List Widget → List Arg
  insert_values [] = []
  insert_values (w ∷ ws) =
      uuid w.id
      ∷ text w.name
      ∷ text w.description
      ∷ time w.created_at
      ∷ time w.updated_at
      ∷ insert_values ws

  abbrev pub bulk_done : Result Error (Unit {0}) × q.Db → Result Error (Unit {0}) × q.Db
  bulk_done (r, db) = (wrap_err "bulkinsert" r, db)

  unfoldable pub bulk_insert : List Widget → q.Db → Result Error (Unit {0}) × q.Db
  bulk_insert [] db = (ok tt, db)
  bulk_insert (w ∷ ws) db = bulk_done (
      q.bulk_insert "widgets" ("id" ∷ "name" ∷ "description" ∷ "created_at" ∷ "updated_at" ∷ [])
        (insert_values (w ∷ ws)) "ON CONFLICT (id) DO NOTHING" db)

  module _ (f : Formats) (tokens : Tokens) where
    unfoldable pub query_by_cursor :
        QueryFilter → Cursor → q.Db → Result Error (List Widget × String)
    query_by_cursor filter cur db =
        Listing.query_by_cursor widgets q f tokens to_core_widget (where_conditions filter) cur db

    -- WithTasks: the scheduler of a transaction, `none` for a store built without it.
    abbrev pub Tasks : Type 0
    Tasks = Option (Created → q.Db → Result Error (Unit {0}) × q.Db)

    -- Store.scheduler, and noTasks.Schedule
    abbrev pub schedule : Tasks → Created → q.Db → Result Error (Unit {0}) × q.Db
    schedule none c db = (err no_tasks_error, db)
    schedule (some s) c db = s c db

    -- The store that the Core is built over.
    abbrev pub store : Tasks → Store
    store tasks = record {
      Db = q.Db;
      create = create;
      update = update;
      delete = delete;
      query_by_id = query_by_id;
      query = query;
      query_by_cursor = query_by_cursor;
      count = count;
      schedule = schedule tasks;
      within_tran_tasks = q.within_tran;
    }
