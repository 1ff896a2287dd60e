-- ===== src/User/Filter.antt =====
-- What the WHERE of the user listings lets through, and the listings of the store built on it.
use mathlib.Core.Path.{fun_ext}
use skit_x.Common.{
  ℕ, String, ◌<>◌, ◌≡◌, refl, Bool, true, ◌&&◌, Option, none, some, [], ok, arith, length, filter,
  str_eq, Bytes, all,
}
use skit_x.Dbx.{text, num, Params, get, Querier}
use skit_x.Dbx.Table.{Serves}
use skit_x.Listing.Pages.{IsFilter, limit_params, bound_params}
use skit_x.User.{QueryFilter}
use skit_x.User.Db.{DbUser, users, where_conditions, count}

module _ {q : Querier DbUser} (serves : Serves users q) where
  -- ILIKE of Postgres, by the value and the pattern.
  pub record HoldsFilter : Type 0 where
    pub ilike : String → String → Bool
    pub name :
        (p : Params) (r : DbUser) (s : String)
        → get "name" p ≡ some (text s)
        → serves.holds "name ILIKE :name" p r ≡ ilike r.name s
    pub email :
        (p : Params) (r : DbUser) (s : String)
        → get "email" p ≡ some (text s)
        → serves.holds "email ILIKE :email" p r ≡ ilike r.email s

  module _ (h : HoldsFilter) where
    -- a filter that is nil is not applied
    abbrev pub contains : String → Option String → Bool
    contains value none = true
    contains value (some s) = h.ilike value ("%" <> s <> "%")

    -- Both filters are applied, each to its own column.
    abbrev pub matches : QueryFilter → DbUser → Bool
    matches f r = contains r.name f.name && contains r.email f.email

    -- the parameter of a filter that is given
    abbrev Binds : String → Option String → Params → Type 0
    Binds column none p = Unit
    Binds column (some s) p = get column p ≡ some (text ("%" <> s <> "%"))

    holds_all :
        (n d : Option String) (base p : Params) (r : DbUser)
        → Binds "name" n p
        → Binds "email" d p
        → all (λ c. serves.holds c p r) (where_conditions (record { name = n; email = d }) base).0
          ≡ matches (record { name = n; email = d }) r
    unfolding where_conditions
    holds_all none none base p r _ _ = refl
    holds_all (some s) none base p r b _ = rw (h.name p r _ b)
    holds_all none (some t) base p r _ b = rw (h.email p r _ b) (ground arith)
    holds_all (some s) (some t) base p r b c = rw (h.name p r _ b, h.email p r _ c) (ground arith)

    -- Both filters bind their parameters, under other parameters too.
    binds :
        (n d : Option String) (base : Params) (ts : ℕ) (id : Bytes)
        → let p = (where_conditions (record { name = n; email = d }) base).1 in
          (Binds "name" n p × Binds "email" d p)
          × (Binds "name" n (bound_params ts id p) × Binds "email" d (bound_params ts id p))
    unfolding where_conditions get str_eq
    binds none none base ts id = ((tt, tt), (tt, tt))
    binds (some s) none base ts id = ((refl, tt), (refl, tt))
    binds none (some t) base ts id = ((tt, refl), (tt, refl))
    binds (some s) (some t) base ts id = ((refl, refl), (refl, refl))

    limit_kept :
        (n d : Option String) (k : ℕ)
        → get "limit" (where_conditions (record { name = n; email = d }) (limit_params k)).1
          ≡ some (num k)
    unfolding where_conditions get str_eq
    limit_kept none none k = refl
    limit_kept (some s) none k = refl
    limit_kept none (some t) k = refl
    limit_kept (some s) (some t) k = refl

    -- The predicates of the WHERE hold of the rows that match the filter.
    pub where_conditions-IsFilter :
        (f : QueryFilter) → IsFilter serves (where_conditions f) (matches f)
    where_conditions-IsFilter f = record {
      limit_kept = limit_kept f.name f.email;
      plain = λ k r.
          let ((a, b), _) = binds f.name f.email (limit_params k) 0 [] in
          holds_all f.name f.email (limit_params k) _ r a b;
      bounded = λ k ts id r.
          let (_, (a, b)) = binds f.name f.email (limit_params k) ts id in
          holds_all f.name f.email (limit_params k) _ r a b;
    }

    -- Count is the number of rows that match the filter.
    pub count_rows :
        (f : QueryFilter) (db : q.Db)
        → serves.up db ≡ true
        → count q f db ≡ ok (length (filter (matches f) (serves.listing db)))
    unfolding count
    count_rows f db up =
        rw (serves.count_rows (where_conditions f []).0 (where_conditions f []).1 db up) (
          rw (
            fun_ext (λ r.
              let ((a, b), _) = binds f.name f.email [] 0 [] in
              holds_all f.name f.email [] _ r a b)))
