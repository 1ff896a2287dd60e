-- ===== src/Listing/Pages.antt =====
-- QueryByCursor cuts pages from the newest-first listing of the rows that the filter lets through,
-- and following its tokens returns each of them once.
use mathlib.Core.Path.{fun_ext}
use skit_x.Common.{
  ℕ, suc, ◌<◌, String, ◌≡◌, ◌≢◌, refl, ◌∙◌, Bool, true, ◌&&◌, some, List, [], ◌∷◌, ◌++◌, map,
  Result, ok, ◌>>=◌, Bytes, arith, length, take, filter, all, all-append, str_eq,
}
use skit_x.Dbx.{Error, panicked, bytes, num, time, Params, get, Tokens, Querier}
use skit_x.Dbx.Table.{Table, Serves, key}
use skit_x.Keyset.{is_past}
use skit_x.Keyset.Order.{behind, filter-and, filter-IsNewestFirst, All-filter}
use skit_x.Keyset.Page.{trim, trim_last, trim_more}
use skit_x.Keyset.Walk.{walk, IsPage, walk-listing}
use skit_x.Listing.{Formats, keyset_condition, encode_cursor, bound, query_by_cursor, token_of}
use skit_x.Listing.Codec.{IsFormats, IsListing, year_10000, bound-encode}

-- What is assumed of the package page: an encoded key decodes, is not the empty token, and the
-- empty token has the empty key.
pub record IsTokens (t : Tokens) : Type 0 where
  pub key-empty : t.key "" ≡ ok []
  pub key-encode : (k : Bytes) → t.key (t.encode k) ≡ ok k
  pub encode-ne_empty : (k : Bytes) → t.encode k ≢ ""

abbrev pub limit_params : ℕ → Params
limit_params n = ("limit", num n) ∷ []

abbrev pub bound_params : ℕ → Bytes → Params → Params
bound_params ts id p = ("after_id", bytes id) ∷ ("after_ts", time ts) ∷ p

module _ {Row : Type 0} {t : Table Row} {q : Querier Row} (serves : Serves t q) where
  -- The predicates of a filter mean `matches`, with the keyset boundary among the parameters too,
  -- and leave the limit.
  pub record IsFilter (wf : Params → List String × Params) (matches : Row → Bool) : Type 0 where
    pub limit_kept : (n : ℕ) → get "limit" (wf (limit_params n)).1 ≡ some (num n)
    pub plain :
        (n : ℕ) (r : Row)
        → all (λ c. serves.holds c (wf (limit_params n)).1 r) (wf (limit_params n)).0 ≡ matches r
    pub bounded :
        (n ts : ℕ) (id : Bytes) (r : Row)
        → all
            (λ c. serves.holds c (bound_params ts id (wf (limit_params n)).1) r)
            (wf (limit_params n)).0
          ≡ matches r

  -- The row comparison of Postgres with the two parameters of the boundary.
  pub record HoldsKeyset (f : Formats) : Type 0 where
    pub keyset :
        (p : Params) (ts i : ℕ) (r : Row)
        → get "after_ts" p ≡ some (time ts)
        → get "after_id" p ≡ some (bytes (f.uuid_text i))
        → serves.holds keyset_condition p r ≡ is_past (key t r) (ts, i)

module _ {Row A : Type 0} (t : Table Row) (q : Querier Row) (f : Formats) (tokens : Tokens)
    (view : Row → A) (serves : Serves t q) (formats : IsFormats f) (tokens_lawful : IsTokens tokens)
    (keyset : HoldsKeyset serves f) (wf : Params → List String × Params) (matches : Row → Bool)
    (filters : IsFilter serves wf matches) (limit : ℕ) (db : q.Db) (up : serves.up db ≡ true) where
  abbrev pub matching : List Row
  matching = filter matches (serves.listing db)

  abbrev pub fetch : String → Result Error (List A × String)
  fetch token = query_by_cursor t q f tokens view wf (record { token = token; limit = limit }) db

  -- the page that is cut from the rows still to come
  abbrev pub cut_page : List Row → Result Error (List A × String)
  cut_page rs =
      trim (record { text = "index out of range"; causes = panicked ∷ [] }) limit
        (token_of t q f tokens view) (take (suc limit) rs)
      >>= λ page. ok (map view page.0, page.1)

  fetch-first : fetch "" ≡ cut_page matching
  unfolding query_by_cursor bound
  fetch-first =
      rw
        (
          tokens_lawful.key-empty,
          serves.list_newest _ _ (suc limit) db up (filters.limit_kept (suc limit)),
        )
        (rw (fun_ext (filters.plain (suc limit))))

  bounded_matches :
      (r x : Row)
      → all
          (λ c.
            serves.holds c
              (bound_params
                (t.created_at r)
                (f.uuid_text (t.id r))
                (wf (limit_params (suc limit))).1)
              x)
          ((wf (limit_params (suc limit))).0 ++ keyset_condition ∷ [])
        ≡ (matches x && is_past (key t x) (key t r))
  unfolding get str_eq
  bounded_matches r x =
      rw
        (
          all-append,
          filters.bounded (suc limit) (t.created_at r) (f.uuid_text (t.id r)) x,
          keyset.keyset
              (bound_params (t.created_at r) (f.uuid_text (t.id r))
                (wf (limit_params (suc limit))).1)
              (t.created_at r) (t.id r) x refl refl,
        )
        (ground arith)

  limit_bounded :
      (ts : ℕ) (id : Bytes)
      → get "limit" (bound_params ts id (wf (limit_params (suc limit))).1) ≡ some (num (suc limit))
  unfolding get str_eq
  limit_bounded ts id = filters.limit_kept (suc limit)

  pub fetch-next :
      (r : Row)
      → t.created_at r < year_10000
      → fetch (token_of t q f tokens view r) ≡ cut_page (behind (key t) r matching)
  unfolding query_by_cursor
  fetch-next r dated =
      rw
        (
          tokens_lawful.key-encode (encode_cursor f (t.created_at r) (t.id r)),
          bound-encode f formats (wf (limit_params (suc limit))) (t.created_at r) (t.id r) dated,
        )
        (rw
          (serves.list_newest _ _ (suc limit) db up
            (limit_bounded (t.created_at r) (f.uuid_text (t.id r))))
          (rw (
            fun_ext (bounded_matches r),
            filter-and matches (λ x. is_past (key t x) (key t r)) (serves.listing db),
          )))

  abbrev pub token : Row → String
  token = token_of t q f tokens view

  cut_page-IsPage :
      (at : String) (rs : List Row) → fetch at ≡ cut_page rs → IsPage view token limit fetch at rs
  cut_page-IsPage at rs h = record {
    last = λ fits. h ∙ rw (trim_last _ limit token rs fits);
    more = λ r over e. h ∙ rw (trim_more _ limit token rs r over e);
  }

  -- The first page, or the page of the token of a row created before the year 10000: with no more
  -- rows to come than the limit it is all of them and there is no token, otherwise it is the first
  -- `limit` of them with the token of the last.
  pub query_by_cursor-IsPage :
      (IsPage view token limit fetch "" matching)
      × ((r : Row)
          → t.created_at r < year_10000
          → IsPage view token limit fetch (token r) (behind (key t) r matching))
  query_by_cursor-IsPage =
      (cut_page-IsPage "" matching fetch-first, λ r dated. cut_page-IsPage _ _ (fetch-next r dated))

  module _ (positive : 0 < limit) (listed : IsListing t (serves.listing db)) where
    -- Following the tokens from the first page until there is none returns each matching row once,
    -- newest first, if the database stays as it is.
    pub walk-query_by_cursor :
        (fuel : ℕ) → length matching < fuel → walk fuel fetch "" ≡ some (map view matching)
    walk-query_by_cursor fuel enough =
        walk-listing (key t) view token limit fetch matching
          (filter-IsNewestFirst (key t) matches (serves.listing db) listed.0) positive
          (λ r. tokens_lawful.encode-ne_empty _) (λ r. t.created_at r < year_10000)
          (All-filter _ matches (serves.listing db) listed.1) query_by_cursor-IsPage.1 fuel ""
          query_by_cursor-IsPage.0 enough
