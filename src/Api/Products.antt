-- ===== src/Api/Products.antt =====
-- api/product/product.go and api/product/model.go, over the product Core.
use skit_x.Common.{
  ℕ, ℤ, String, Option, none, some, List, [], ◌∷◌, map, Result, ok, err, ◌>>=◌, str_eq,
  if◌then◌else◌,
}
use skit_x.Api.{Edge, ListQuery, Answer, Paged}
use skit_x.Api.Inputs.{
  given, invalidated, id_of, cursor_of, responded, answered, cursor_page, paged_list,
}
use skit_x.Dbx.{Error, text, By, Tokens}
use skit_x.Errs.{AppError, newf, invalid_argument}
use skit_x.Product.{Product, QueryFilter, Store}
use skit_x.Product.Core
use skit_x.Product.Core.{Ctx}

-- Response
pub record ProductResponse : Type 0 where
  pub id : String
  pub name : String
  pub price : ℤ
  pub created_at : ℕ
  pub updated_at : ℕ

-- The bodies, decoded and validated by rest.Decode.
pub record CreateProductReq : Type 0 where
  pub name : String
  pub price : ℤ

pub record UpdateProductReq : Type 0 where
  pub name : Option String
  pub price : Option ℤ

-- product.DefaultOrder and product.SortableFields
abbrev pub default_order : By
default_order = record { field = "created_at"; direction = "DESC" }

abbrev pub sortable_fields : List String
sortable_fields = "created_at" ∷ "name" ∷ "price" ∷ []

abbrev number_or_invalid : String → Result Error ℤ → Result AppError (Option ℤ)
number_or_invalid key (ok n) = ok (some n)
number_or_invalid key (err x) =
    err (newf invalid_argument "invalid %s: %v" (text key ∷ text x.text ∷ []))

module _ (e : Edge) where
  -- toResponse
  abbrev pub to_response : Product → ProductResponse
  to_response p = record {
    id = e.uuid_text p.id;
    name = p.name;
    price = p.price;
    created_at = p.created_at;
    updated_at = p.updated_at;
  }

  -- toResponseList
  abbrev pub to_response_list : List Product → List ProductResponse
  to_response_list = map to_response

  -- parseOptInt, of the value of the parameter `key`
  unfoldable pub parse_opt_int : String → String → Result AppError (Option ℤ)
  parse_opt_int key s = if str_eq s "" then ok none else number_or_invalid key (e.parse_int s)

  -- parseProductFilter
  unfoldable pub parse_product_filter : ListQuery → Result AppError QueryFilter
  parse_product_filter q = do
    min_price ← parse_opt_int "min_price" q.min_price
    max_price ← parse_opt_int "max_price" q.max_price
    ok (record { name = given (e.trim_space q.name); min_price = min_price; max_price = max_price })

  module _ (s : Store) where
    -- Handler.create, by the decoded body
    unfoldable pub create :
        Ctx
        → Result AppError CreateProductReq
        → s.Db
        → Result AppError (Answer ProductResponse) × s.Db
    create ctx (err x) db = (err x, db)
    create ctx (ok req) db =
        answered 201 to_response
          (Core.create s ctx (record { name = req.name; price = req.price }) db)

    -- Handler.query
    unfoldable pub query : ListQuery → s.Db → Result AppError (Paged ProductResponse)
    query q db = do
      pg ← invalidated (e.parse_page q.page q.rows)
      by ← invalidated (e.parse_order sortable_fields q.order_by default_order)
      filter ← parse_product_filter q
      paged_list to_response pg (Core.query s filter by pg db) (Core.count s filter db)

    -- Handler.queryCursor
    unfoldable pub query_cursor :
        Tokens → ListQuery → s.Db → Result AppError (List ProductResponse × String)
    query_cursor tokens q db = do
      _ ← invalidated (tokens.key q.cursor)
      filter ← parse_product_filter q
      cursor_page to_response (Core.query_by_cursor s filter (cursor_of e q) db)

    -- Handler.queryByID
    unfoldable pub query_by_id : String → s.Db → Result AppError ProductResponse
    query_by_id id db = do i ← id_of e id; responded to_response (Core.query_by_id s i db)

    abbrev update_decoded :
        Ctx
        → Result AppError ℕ
        → Result AppError UpdateProductReq
        → s.Db
        → Result AppError (Answer ProductResponse) × s.Db
    update_decoded ctx (err x) body db = (err x, db)
    update_decoded ctx (ok i) (err x) db = (err x, db)
    update_decoded ctx (ok i) (ok req) db =
        answered 200 to_response
          (Core.update s ctx i (record { name = req.name; price = req.price }) db)

    -- Handler.update, by the decoded body
    unfoldable pub update :
        Ctx
        → String
        → Result AppError UpdateProductReq
        → s.Db
        → Result AppError (Answer ProductResponse) × s.Db
    update ctx id body db = update_decoded ctx (id_of e id) body db

    abbrev delete_parsed : Result AppError ℕ → s.Db → Result AppError (Unit {0}) × s.Db
    delete_parsed (err x) db = (err x, db)
    delete_parsed (ok i) db = Core.delete s i db

    -- Handler.delete: no document is the status 204.
    unfoldable pub delete : String → s.Db → Result AppError (Unit {0}) × s.Db
    delete id db = delete_parsed (id_of e id) db
