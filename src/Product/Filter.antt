-- ===== src/Product/Filter.antt =====
-- What the WHERE of the product listings lets through, and Count on it.
use mathlib.Core.Path.{fun_ext}
use skit_x.Common.{
  ℕ, ℤ, ltb_ℤ, not, String, ◌<>◌, ◌≡◌, refl, Bool, true, ◌&&◌, Option, none, some, [], ok, arith,
  length, filter, str_eq, Bytes, all,
}
use skit_x.Dbx.{text, int, num, Params, get, Querier}
use skit_x.Dbx.Table.{Serves}
use skit_x.Listing.Pages.{IsFilter, limit_params, bound_params}
use skit_x.Product.{QueryFilter}
use skit_x.Product.Db.{DbProduct, products, where_conditions, count}

module _ {q : Querier DbProduct} (serves : Serves products q) where
  -- ILIKE of Postgres, by the value and the pattern, and the two comparisons.
  pub record HoldsFilter : Type 0 where
    pub ilike : String → String → Bool
    pub name :
        (p : Params) (r : DbProduct) (s : String)
        → get "name" p ≡ some (text s)
        → serves.holds "name ILIKE :name" p r ≡ ilike r.name s
    pub at_least :
        (p : Params) (r : DbProduct) (n : ℤ)
        → get "min_price" p ≡ some (int n)
        → serves.holds "price >= :min_price" p r ≡ not (ltb_ℤ r.price n)
    pub at_most :
        (p : Params) (r : DbProduct) (n : ℤ)
        → get "max_price" p ≡ some (int n)
        → serves.holds "price <= :max_price" p r ≡ not (ltb_ℤ n r.price)

  module _ (h : HoldsFilter) where
    -- a filter that is nil is not applied
    abbrev pub contains : String → Option String → Bool
    contains value none = true
    contains value (some s) = h.ilike value ("%" <> s <> "%")

    abbrev pub reaches : ℤ → Option ℤ → Bool
    reaches price none = true
    reaches price (some n) = not (ltb_ℤ price n)

    abbrev pub stays_within : ℤ → Option ℤ → Bool
    stays_within price none = true
    stays_within price (some n) = not (ltb_ℤ n price)

    -- The three filters are applied; the bounds of the price are inclusive.
    abbrev pub matches : QueryFilter → DbProduct → Bool
    matches f r =
        contains r.name f.name && reaches r.price f.min_price && stays_within r.price f.max_price

    abbrev filter_of : Option String → Option ℤ → Option ℤ → QueryFilter
    filter_of n a b = record { name = n; min_price = a; max_price = b }

    -- the parameters of the filters that are given
    abbrev Binds : Option String → Option ℤ → Option ℤ → Params → Type 0
    Binds n a b p =
        elim n [ none ↦ Unit | some s ↦ get "name" p ≡ some (text ("%" <> s <> "%")) ]
        × elim a [ none ↦ Unit | some m ↦ get "min_price" p ≡ some (int m) ]
        × elim b [ none ↦ Unit | some m ↦ get "max_price" p ≡ some (int m) ]

    holds_all :
        (n : Option String) (a b : Option ℤ) (base p : Params) (r : DbProduct)
        → Binds n a b p
        → all (λ c. serves.holds c p r) (where_conditions (filter_of n a b) base).0
          ≡ matches (filter_of n a b) r
    unfolding where_conditions
    holds_all none none none base p r _ = refl
    holds_all (some s) none none base p r (x, _, _) = rw (h.name p r _ x) (ground arith)
    holds_all none (some a) none base p r (_, y, _) = rw (h.at_least p r a y) (ground arith)
    holds_all none none (some b) base p r (_, _, z) = rw (h.at_most p r b z) (ground arith)
    holds_all (some s) (some a) none base p r (x, y, _) =
        rw (h.name p r _ x, h.at_least p r a y) (ground arith)
    holds_all (some s) none (some b) base p r (x, _, z) =
        rw (h.name p r _ x, h.at_most p r b z) (ground arith)
    holds_all none (some a) (some b) base p r (_, y, z) =
        rw (h.at_least p r a y, h.at_most p r b z) (ground arith)
    holds_all (some s) (some a) (some b) base p r (x, y, z) =
        rw (h.name p r _ x, h.at_least p r a y, h.at_most p r b z) (ground arith)

    -- The filters bind their parameters, under other parameters too.
    binds :
        (n : Option String) (a b : Option ℤ) (base : Params) (ts : ℕ) (id : Bytes)
        → let p = (where_conditions (filter_of n a b) base).1 in
          Binds n a b p × Binds n a b (bound_params ts id p)
    unfolding where_conditions get str_eq
    binds none none none base ts id = ((tt, tt, tt), (tt, tt, tt))
    binds (some s) none none base ts id = ((refl, tt, tt), (refl, tt, tt))
    binds none (some a) none base ts id = ((tt, refl, tt), (tt, refl, tt))
    binds none none (some b) base ts id = ((tt, tt, refl), (tt, tt, refl))
    binds (some s) (some a) none base ts id = ((refl, refl, tt), (refl, refl, tt))
    binds (some s) none (some b) base ts id = ((refl, tt, refl), (refl, tt, refl))
    binds none (some a) (some b) base ts id = ((tt, refl, refl), (tt, refl, refl))
    binds (some s) (some a) (some b) base ts id = ((refl, refl, refl), (refl, refl, refl))

    limit_kept :
        (n : Option String) (a b : Option ℤ) (k : ℕ)
        → get "limit" (where_conditions (filter_of n a b) (limit_params k)).1 ≡ some (num k)
    unfolding where_conditions get str_eq
    limit_kept none none none k = refl
    limit_kept (some s) none none k = refl
    limit_kept none (some a) none k = refl
    limit_kept none none (some b) k = refl
    limit_kept (some s) (some a) none k = refl
    limit_kept (some s) none (some b) k = refl
    limit_kept none (some a) (some b) k = refl
    limit_kept (some s) (some a) (some b) k = refl

    -- The predicates of the WHERE hold of the rows that match the filter.
    pub where_conditions-IsFilter :
        (f : QueryFilter) → IsFilter serves (where_conditions f) (matches f)
    where_conditions-IsFilter f = record {
      limit_kept = limit_kept f.name f.min_price f.max_price;
      plain = λ k r.
          let (b, _) = binds f.name f.min_price f.max_price (limit_params k) 0 [] in
          holds_all f.name f.min_price f.max_price (limit_params k) _ r b;
      bounded = λ k ts id r.
          let (_, b) = binds f.name f.min_price f.max_price (limit_params k) ts id in
          holds_all f.name f.min_price f.max_price (limit_params k) _ r b;
    }

    -- Count is the number of rows that match the filter.
    pub count_rows :
        (f : QueryFilter) (db : q.Db)
        → serves.up db ≡ true
        → count q f db ≡ ok (length (filter (matches f) (serves.listing db)))
    unfolding count
    count_rows f db live =
        rw (serves.count_rows (where_conditions f []).0 (where_conditions f []).1 db live) (
          rw (
            fun_ext (λ r.
              let (b, _) = binds f.name f.min_price f.max_price [] 0 [] in
              holds_all f.name f.min_price f.max_price [] _ r b)))
