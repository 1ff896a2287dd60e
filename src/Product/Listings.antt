-- ===== src/Product/Listings.antt =====
-- What the listings of the product store return.
use skit_x.Common.{
  ℕ, ◌<◌, String, ◌≡◌, sym, ap, ◌∙◌, true, some, List, map, Result, ok, arith, length, length-map,
  filter,
}
use skit_x.Dbx.{Error, Tokens, Querier}
use skit_x.Dbx.Table.{Serves}
use skit_x.Keyset.Walk.{walk}
use skit_x.Listing.{Formats}
use skit_x.Listing.Codec.{IsFormats, IsListing}
use skit_x.Listing.Pages.{IsTokens, HoldsKeyset, walk-query_by_cursor}
use skit_x.Product.{Product, QueryFilter}
use skit_x.Product.Db.{
  DbProduct, products, to_core_product, where_conditions, query_by_cursor, count,
}
use skit_x.Product.Filter.{HoldsFilter, matches, where_conditions-IsFilter, count_rows}

module _ {q : Querier DbProduct} (serves : Serves products q) (f : Formats) (tokens : Tokens)
    (formats : IsFormats f) (tokens_lawful : IsTokens tokens) (keyset : HoldsKeyset serves f)
    (h : HoldsFilter serves) (limit : ℕ) (filter_by : QueryFilter) (db : q.Db) where
  abbrev pub fetch : String → Result Error (List Product × String)
  fetch token = query_by_cursor q f tokens filter_by (record { token = token; limit = limit }) db

  -- the products that match the filter, newest first
  abbrev pub matching : List Product
  matching = map to_core_product (filter (matches serves h filter_by) (serves.listing db))

  -- On a database that answers, does not change and lists its rows newest first, all created before
  -- the year 10000, a client that follows the cursors from the first page to the answer without one
  -- has each product that matches the filter once, newest first, and as many as Count says; the
  -- limit is positive, and one page more than there are matches is enough.
  pub walk-products :
      0 < limit
      → serves.up db ≡ true
      → IsListing products (serves.listing db)
      → (pages : ℕ) → length matching < pages
      → (walk pages fetch "" ≡ some matching) × (count q filter_by db ≡ ok (length matching))
  unfolding query_by_cursor
  walk-products positive up listed pages enough = (
    walk-query_by_cursor products q f tokens to_core_product serves formats tokens_lawful keyset
        (where_conditions filter_by) (matches serves h filter_by)
        (where_conditions-IsFilter serves h filter_by) limit db up positive listed pages
        (omega (
          arith,
          length-map to_core_product (filter (matches serves h filter_by) (serves.listing db)),
        )),
    count_rows serves h filter_by db up
        ∙ ap ok (
            sym (
              length-map to_core_product
                (filter (matches serves h filter_by) (serves.listing db)))),
  )
