-- ===== src/Listing/Moving.antt =====
-- A client that follows the tokens of QueryByCursor while rows are inserted
-- (core/widget/widgetdb/widgetdb.go and its twins of the user and product stores).
use mathlib.Core.Path.{subst}
use skit_x.Common.{
  ℕ, ◌<◌, String, ◌≡◌, ◌⊎◌, refl, sym, ap, ◌∙◌, Bool, true, some, List, ◌++◌, map, Result, ok, All,
  length, filter, inl, inr, Bool-cases, ltb, arith,
}
use skit_x.Dbx.{Error, Params, Tokens, Querier}
use skit_x.Dbx.Table.{Table, Serves, key}
use skit_x.Keyset.{IsNewestFirst}
use skit_x.Keyset.Moving.{All-zip, follow, follow-eq-walk, filter-append, behind-grown}
use skit_x.Keyset.Order.{behind, filter-IsNewestFirst, All-filter, All-last_take}
use skit_x.Keyset.Page.{get_last?-take}
use skit_x.Keyset.Walk.{IsPage}
use skit_x.Listing
use skit_x.Listing.{Formats}
use skit_x.Listing.Codec.{IsFormats, IsListing, year_10000}
use skit_x.Listing.Pages
use skit_x.Listing.Pages.{
  IsTokens, IsFilter, HoldsKeyset, query_by_cursor-IsPage, walk-query_by_cursor,
}

-- `db page` is the database when the client asks for that page, counted from 0.
module _ {Row A : Type 0} (t : Table Row) (q : Querier Row) (f : Formats) (tokens : Tokens)
    (view : Row → A) (serves : Serves t q) (formats : IsFormats f) (tokens_lawful : IsTokens tokens)
    (keyset : HoldsKeyset serves f) (wf : Params → List String × Params) (matches : Row → Bool)
    (filters : IsFilter serves wf matches) (limit : ℕ) (db : ℕ → q.Db)
    (up : (page : ℕ) → serves.up (db page) ≡ true)
    (listed : (page : ℕ) → IsListing t (serves.listing (db page))) (news : ℕ → List Row)
    (grown : (page : ℕ) → serves.listing (db page) ≡ news page ++ serves.listing (db 0)) where
  abbrev pub fetch : ℕ → String → Result Error (List A × String)
  fetch page token =
      Listing.query_by_cursor t q f tokens view wf (record { token = token; limit = limit })
        (db page)

  -- the rows that match at the first page
  abbrev pub matching : List Row
  matching = filter matches (serves.listing (db 0))

  abbrev now : ℕ → List Row
  now page = filter matches (serves.listing (db page))

  abbrev token : Row → String
  token = Listing.token_of t q f tokens view

  -- A row created before the year 10000 whose followers are those of the first page, at every page.
  abbrev Settled : Row → Type 0
  Settled r =
      (t.created_at r < year_10000)
      × ((page : ℕ) → behind (key t) r (now page) ≡ behind (key t) r matching)

  settled_at :
      (page : ℕ) → All (λ r. behind (key t) r (now page) ≡ behind (key t) r matching) matching
  settled_at page =
      let same =
        ap (filter matches) (grown page)
        ∙ filter-append matches (news page) (serves.listing (db 0)) in
      subst (λ rs. All (λ r. behind (key t) r rs ≡ behind (key t) r matching) matching) (sym same)
        (behind-grown (key t) (filter matches (news page)) matching (
          subst (IsNewestFirst (key t)) same
            (filter-IsNewestFirst (key t) matches _ (listed page).0)))

  All-each :
      (P : ℕ → Row → Type 0) (rs : List Row)
      → ((page : ℕ) → All (P page) rs)
      → All (λ r. (page : ℕ) → P page r) rs
  All-each P List.[] h = tt
  All-each P (List.◌∷◌ r rs) h = (λ page. (h page).0, All-each P rs (λ page. (h page).1))

  All-Settled : All Settled matching
  All-Settled =
      All-zip (λ r. t.created_at r < year_10000)
        (λ r. (page : ℕ) → behind (key t) r (now page) ≡ behind (key t) r matching) Settled
        (λ r dated same. (dated, same)) matching
        (All-filter _ matches (serves.listing (db 0)) (listed 0).1)
        (All-each (λ page r. behind (key t) r (now page) ≡ behind (key t) r matching) matching
          settled_at)

  -- the token of a settled row
  abbrev IsSettled : String → Type 0
  IsSettled s = (r : Row) × Settled r × (s ≡ token r)

  agree : (page : ℕ) (s : String) → IsSettled s → fetch page s ≡ fetch 0 s
  agree page s (r, settled, e) =
      subst (λ u. fetch page u ≡ fetch 0 u) (sym e)
        (Pages.fetch-next t q f tokens view serves formats tokens_lawful keyset wf matches filters
            limit (db page) (up page) r settled.0
          ∙ ap
              (Pages.cut_page t q f tokens view serves formats tokens_lawful keyset wf matches
                filters limit (db page) (up page))
              (settled.1 page)
          ∙ sym (
              Pages.fetch-next t q f tokens view serves formats tokens_lawful keyset wf matches
                filters limit (db 0) (up 0) r settled.0))

  module _ (positive : 0 < limit) where
    -- the page of the rows `rs` leads to the empty token or to that of a settled row
    closed_page :
        (s next : String) (items : List A) (rs : List Row)
        → All Settled rs
        → IsPage view token limit (fetch 0) s rs
        → fetch 0 s ≡ ok (items, next)
        → (next ≡ "") ⊎ IsSettled next
    closed_page s next items rs settled page h = elim (Bool-cases (ltb limit (length rs))) [
      | inl over ↦
          let (r, e) = get_last?-take limit rs positive (ground arith) in
          inr (r, All-last_take Settled limit rs r settled e, cc (h, page.more r (ground arith) e))
      | inr fits ↦ inl (cc (h, page.last (ground arith)))
    ]

    closed :
        (s next : String) (items : List A)
        → fetch 0 s ≡ ok (items, next)
        → (s ≡ "") ⊎ IsSettled s
        → (next ≡ "") ⊎ IsSettled next
    closed s next items h at =
        let (first, later) =
          query_by_cursor-IsPage t q f tokens view serves formats tokens_lawful keyset wf matches
            filters limit (db 0) (up 0) in
        elim at [
          | inl e ↦
              closed_page s next items matching All-Settled
                (subst (λ u. IsPage view token limit (fetch 0) u matching) (sym e) first) h
          | inr (r, settled, e) ↦
              closed_page s next items (behind (key t) r matching)
                (All-filter Settled _ matching All-Settled)
                (subst (λ u. IsPage view token limit (fetch 0) u (behind (key t) r matching))
                  (sym e) (later r settled.0))
                h
        ]

    -- While rows are inserted that are newer than all that were there, on a database that answers
    -- and lists its rows newest first, all created before the year 10000, a client that follows the
    -- tokens of QueryByCursor with one positive limit and one filter comes to the last page, at the
    -- latest with one page more than rows matched at its first request, and has each of these
    -- once, newest first, and no other row.
    pub follow-query_by_cursor :
        (pages : ℕ) → length matching < pages → follow pages 0 fetch "" ≡ some (map view matching)
    follow-query_by_cursor pages enough =
        follow-eq-walk fetch (fetch 0) IsSettled agree closed pages refl
        ∙ walk-query_by_cursor t q f tokens view serves formats tokens_lawful keyset wf matches
            filters limit (db 0) (up 0) positive (listed 0) pages enough
