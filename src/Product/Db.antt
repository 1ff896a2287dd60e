-- ===== src/Product/Db.antt =====
-- core/product/productdb: model.go, order.go and productdb.go, over any querier.
use skit_x.Common.{
  ℕ, ℤ, false, ◌++◌, String, ◌<>◌, Option, none, some, List, [], ◌∷◌, map, Result, ok, err, ◌>>=◌,
  str_eq, if◌then◌else◌,
}
use skit_x.Dbx.{
  Error, is, wrap, err_not_found, db_not_found, int, text, num, time, uuid, Params, By, Page,
  Cursor, Tokens, Querier,
}
use skit_x.Dbx.Affected.{affected}
use skit_x.Dbx.Table.{Table, micros, offset_rows}
use skit_x.Listing
use skit_x.Listing.{Formats, wrap_err}
use skit_x.Listing.Clauses.{clause_of, substring}
use skit_x.Product.{Product, QueryFilter, Store}

pub record DbProduct : Type 0 where
  pub id : ℕ
  pub name : String
  pub price : ℤ
  pub created_at : ℕ
  pub updated_at : ℕ

-- toDBProduct; times are instants, so UTC() changes nothing.
abbrev pub to_db_product : Product → DbProduct
to_db_product u = record {
  id = u.id;
  name = u.name;
  price = u.price;
  created_at = u.created_at;
  updated_at = u.updated_at;
}

-- toCoreProduct
abbrev pub to_core_product : DbProduct → Product
to_core_product r = record {
  id = r.id;
  name = r.name;
  price = r.price;
  created_at = r.created_at;
  updated_at = r.updated_at;
}

-- toCoreProducts
abbrev pub to_core_products : List DbProduct → List Product
to_core_products = map to_core_product

-- The `db` tags of dbProduct.
abbrev pub product_args : DbProduct → Params
product_args r =
    ("id", uuid r.id)
    ∷ ("name", text r.name)
    ∷ ("price", int r.price)
    ∷ ("created_at", time r.created_at)
    ∷ ("updated_at", time r.updated_at)
    ∷ []

-- The statements of the store, and the SET of the UPDATE; there is no
-- unique index but the primary key.
abbrev pub products : Table DbProduct
products = record {
  insert_sql =
      "INSERT INTO products (id, name, price, created_at, updated_at) VALUES (:id, :name, :price, :created_at, :updated_at)";
  update_sql =
      "UPDATE products SET name = :name, price = :price, updated_at = :updated_at WHERE id = :id";
  delete_sql = "DELETE FROM products WHERE id = :id";
  select_one_sql = "SELECT id, name, price, created_at, updated_at FROM products WHERE id = :id";
  select_sql = "SELECT id, name, price, created_at, updated_at FROM products";
  count_sql = "SELECT count(*) AS n FROM products";
  args = product_args;
  id = λ r. r.id;
  created_at = λ r. r.created_at;
  collide = λ r s. false;
  assign = λ r old. record old { name = r.name; price = r.price; updated_at = r.updated_at };
  stored = λ r. record r { created_at = micros r.created_at; updated_at = micros r.updated_at };
}

abbrev pub sentinel_not_found : Error
sentinel_not_found = record { text = "product not found"; causes = err_not_found ∷ [] }

-- orderByFields
order_by_fields : String → Option String
order_by_fields field =
    if str_eq field "created_at"
    then some "created_at"
    else if str_eq field "name"
    then some "name"
    else if str_eq field "price"
    then some "price"
    else none

-- orderByClause
unfoldable pub order_by_clause : By → Result Error String
unfolding order_by_fields
order_by_clause by = clause_of by.direction (order_by_fields by.field)

-- One bound of whereConditions on the price.
abbrev price_bound : String → String → Option ℤ → List String × Params → List String × Params
price_bound name condition none part = part
price_bound name condition (some n) (wc, data') = (wc ++ condition ∷ [], (name, int n) ∷ data')

-- whereConditions
unfoldable pub where_conditions : QueryFilter → Params → List String × Params
where_conditions filter data' = price_bound "max_price" "price <= :max_price" filter.max_price (
    price_bound "min_price" "price >= :min_price" filter.min_price
      (substring "name" "name ILIKE :name" filter.name ([], data')))

module _ (q : Querier DbProduct) where
  abbrev create_done : Result Error (Unit {0}) × q.Db → Result Error (Unit {0}) × q.Db
  create_done (ok _, db) = (ok tt, db)
  create_done (err e, db) = (err (wrap "create" e), db)

  unfoldable pub create : Product → q.Db → Result Error (Unit {0}) × q.Db
  create u db = create_done (q.named_exec products.insert_sql (product_args (to_db_product u)) db)

  unfoldable pub update : Product → q.Db → Result Error (Unit {0}) × q.Db
  update u db =
      let (n, db') =
        q.named_exec_rows_affected products.update_sql (product_args (to_db_product u)) db in
      (affected sentinel_not_found "update" n, db')

  unfoldable pub delete : ℕ → q.Db → Result Error (Unit {0}) × q.Db
  delete i db =
      let (n, db') = q.named_exec_rows_affected products.delete_sql (("id", uuid i) ∷ []) db in
      (affected sentinel_not_found "delete" n, db')

  abbrev one : Result Error DbProduct → Result Error Product
  one (ok r) = ok (to_core_product r)
  one (err e) = err (wrap "querybyid" (if is e db_not_found then sentinel_not_found else e))

  unfoldable pub query_by_id : ℕ → q.Db → Result Error Product
  query_by_id i db = one (q.named_query_one products.select_one_sql (("id", uuid i) ∷ []) db)

  unfoldable pub count : QueryFilter → q.Db → Result Error ℕ
  count filter db =
      let (wc, data') = where_conditions filter [] in
      wrap_err "count" (
        q.named_query_count (record { select = products.count_sql; conditions = wc; suffix = "" })
          data' db)

  unfoldable pub query : QueryFilter → By → Page → q.Db → Result Error (List Product)
  query filter by pg db = do
    clause ← wrap_err "query" (order_by_clause by)
    let part =
        where_conditions filter
          (("offset", num pg.offset) ∷ ("rows_per_page", num pg.rows_per_page) ∷ [])
    rows ← wrap_err "query" (
        q.named_query_list
          (record {
            select = products.select_sql;
            conditions = part.0;
            suffix = clause <> offset_rows;
          })
          part.1 db)
    ok (to_core_products rows)

  module _ (f : Formats) (tokens : Tokens) where
    unfoldable pub query_by_cursor :
        QueryFilter → Cursor → q.Db → Result Error (List Product × String)
    query_by_cursor filter cur db =
        Listing.query_by_cursor products q f tokens to_core_product (where_conditions filter) cur db

    -- The store that the Core is built over.
    abbrev pub store : Store
    store = record {
      Db = q.Db;
      create = create;
      update = update;
      delete = delete;
      query_by_id = query_by_id;
      query = query;
      query_by_cursor = query_by_cursor;
      count = count;
    }
