-- ===== src/Api/ProductPages.antt =====
-- A client that follows GET /products/cursor, and the total of GET /products
-- (api/product/product.go).
use skit_x.Common.{
  ℕ, ◌<◌, String, ◌≡◌, refl, sym, ap, ◌∙◌, true, >>=-eq-ok, ok-injective, some, List, Result, ok,
  err, Bytes, length,
}
use skit_x.Api.{Edge, ListQuery, Paged}
use skit_x.Api.Inputs.{invalidated, cursor_page, paged_list-total}
use skit_x.Api.Products.{
  ProductResponse, to_response, to_response_list, parse_product_filter, query, query_cursor,
  sortable_fields, default_order,
}
use skit_x.Dbx.{Error, wrap, Tokens, Querier}
use skit_x.Dbx.Table.{Serves}
use skit_x.Errs.{AppError}
use skit_x.Keyset.Views.{answer, viewed, walk-viewed}
use skit_x.Keyset.Walk.{walk}
use skit_x.Listing
use skit_x.Listing.{Formats}
use skit_x.Listing.Codec.{IsFormats, IsListing}
use skit_x.Listing.Pages.{IsTokens, HoldsKeyset}
use skit_x.Product.{Product, QueryFilter, Store}
use skit_x.Product.Core
use skit_x.Product.Core.{internally}
use skit_x.Product.Db
use skit_x.Product.Db.{DbProduct, products, store}
use skit_x.Product.Filter.{HoldsFilter}
use skit_x.Product.Listings
use skit_x.Product.Listings.{matching, walk-products}

module _ {q : Querier DbProduct} (serves : Serves products q) (f : Formats) (tokens : Tokens)
    (formats : IsFormats f) (tokens_lawful : IsTokens tokens) (keyset : HoldsKeyset serves f)
    (h : HoldsFilter serves) (e : Edge) (asked : ListQuery) (db : q.Db) (filter_by : QueryFilter)
    (parsed : parse_product_filter e asked ≡ ok filter_by) where
  abbrev product_store : Store
  product_store = store q f tokens

  abbrev pub limit : ℕ
  limit = e.cursor_limit (e.atoi asked.limit)

  -- the request with the token of the page before
  abbrev pub request : String → Result AppError (List ProductResponse × String)
  request token = query_cursor e product_store tokens (record asked { cursor = token }) db

  abbrev page_of_store : String → Result Error (List Product × String)
  page_of_store = Listings.fetch serves f tokens formats tokens_lawful keyset h limit filter_by db

  abbrev all_products : List Product
  all_products = matching serves f tokens formats tokens_lawful keyset h limit filter_by db

  shown_result :
      (r : Result Error (List Product × String))
      → answer (cursor_page (to_response e) (internally r)) ≡ viewed (to_response e) (answer r)
  shown_result (ok (xs, next)) = refl
  shown_result (err x) = refl

  store_fails :
      (t : String) (x : Error)
      → tokens.key t ≡ err x
      → page_of_store t ≡ err (wrap "querybycursor" x)
  unfolding Db.query_by_cursor Listing.query_by_cursor
  store_fails t x bad = rw bad

  request-viewed :
      (t : String) → answer (request t) ≡ viewed (to_response e) (answer (page_of_store t))
  unfolding query_cursor Core.query_by_cursor parse_product_filter
  request-viewed t = by_key (tokens.key t) refl
    where
      by_key :
          (r : Result Error Bytes)
          → tokens.key t ≡ r
          → answer (request t) ≡ viewed (to_response e) (answer (page_of_store t))
      by_key (ok k) good = rw (good, parsed) (shown_result (page_of_store t))
      by_key (err x) bad = rw (bad, store_fails t x bad)

  -- The total of a page is what the store counts for its filter.
  total_of :
      (other : ListQuery) (page : Paged ProductResponse) (n : ℕ)
      → parse_product_filter e other ≡ ok filter_by
      → Db.count q filter_by db ≡ ok n
      → query e product_store other db ≡ ok page
      → page.total ≡ n
  unfolding query Core.count
  total_of other page n same count shown =
      let (pg, _, a) = >>=-eq-ok (invalidated (e.parse_page other.page other.rows)) _ shown in
      let (by, _, b) =
        >>=-eq-ok (invalidated (e.parse_order sortable_fields other.order_by default_order)) _ a in
      let (other_by, p, c) = >>=-eq-ok (parse_product_filter e other) _ b in
      let other_same = ok-injective {E = AppError} other_by filter_by (sym p ∙ same) in
      let total =
        paged_list-total (to_response e) pg (Core.query product_store other_by by pg db)
          (Core.count product_store other_by db) page c in
      cc (total, ap (λ x. internally (Db.count q x db)) other_same, ap internally count)

  -- On a database that answers, does not change and lists its rows newest first, all created before
  -- the year 10000, a client that follows GET /products/cursor from the empty token to the answer
  -- without one, with one positive limit and one filter that parses, has each product that matches
  -- the filter once, newest first, one page more than matches being enough; and any page that GET
  -- /products answers for that filter, whatever its number, size and order, gives as its total how
  -- many these are.
  pub product_pages_match_total :
      0 < limit
      → serves.up db ≡ true
      → IsListing products (serves.listing db)
      → (pages : ℕ) → length all_products < pages
      → (walk pages request "" ≡ some (to_response_list e all_products))
        × ((other : ListQuery) (page : Paged ProductResponse)
            → parse_product_filter e other ≡ ok filter_by
            → query e product_store other db ≡ ok page
            → page.total ≡ length all_products)
  product_pages_match_total positive up listed pages enough =
      let (walked, counted) =
        walk-products serves f tokens formats tokens_lawful keyset h limit filter_by db positive up
          listed pages enough in
      (
        walk-viewed (to_response e) page_of_store request request-viewed pages "" _ walked,
        λ other page same shown. total_of other page (length all_products) same counted shown,
      )
