-- ===== src/Widget/Db/Listings.antt =====
-- What the listings of the widget store return, and what their query text is made of.
use mathlib.Core.Option.{some-injective}
use skit_x.Common.{
  ℕ, ◌<◌, String, ◌<>◌, ◌≡◌, ◌⊎◌, inl, inr, refl, sym, ap, ◌∙◌, Bool-cases, str_eq_iff, true,
  Option, none, some, List, map, Result, ok, arith, length, length-map, filter, str_eq,
}
use skit_x.Dbx.{Error, Params, By, Tokens, Querier}
use skit_x.Dbx.Table.{Serves}
use skit_x.Keyset.Walk.{walk}
use skit_x.Listing.{Formats}
use skit_x.Listing.Clauses.{clause_of-inv, SameShape}
use skit_x.Listing.Codec.{IsFormats, IsListing}
use skit_x.Listing.Pages.{IsTokens, HoldsKeyset, walk-query_by_cursor}
use skit_x.Widget.{Widget, QueryFilter}
use skit_x.Widget.Db.{
  DbWidget, widgets, to_core_widget, where_conditions, order_by_clause, order_by_fields,
  query_by_cursor, count,
}
use skit_x.Widget.Db.Filter.{HoldsFilter, matches, where_conditions-IsFilter, count_rows}

-- A value of the filter never stands in the text of the query: the predicates depend only on which
-- filters are given.
pub conditions_of_shape :
    (f g : QueryFilter) (p p' : Params)
    → SameShape f.name g.name
    → SameShape f.description g.description
    → (where_conditions f p).0 ≡ (where_conditions g p').0
unfolding where_conditions
conditions_of_shape f g p p' h k = by_shape f.name g.name f.description g.description h k
  where
    by_shape :
        (n n' d d' : Option String)
        → SameShape n n'
        → SameShape d d'
        → (where_conditions (record { name = n; description = d }) p).0
          ≡ (where_conditions (record { name = n'; description = d' }) p').0
    by_shape none none none none h k = refl
    by_shape (some _) (some _) none none h k = refl
    by_shape none none (some _) (some _) h k = refl
    by_shape (some _) (some _) (some _) (some _) h k = refl
    by_shape none (some _) d d' h k = absurd h
    by_shape (some _) none d d' h k = absurd h
    by_shape none none none (some _) h k = absurd k
    by_shape none none (some _) none h k = absurd k
    by_shape (some _) (some _) none (some _) h k = absurd k
    by_shape (some _) (some _) (some _) none h k = absurd k

order_by_fields-columns :
    (field col : String)
    → order_by_fields field ≡ some col
    → ((col ≡ "created_at") ⊎ (col ≡ "name")) × (field ≡ col)
unfolding order_by_clause
order_by_fields-columns field col h = elim (Bool-cases (str_eq field "created_at")) [
  | inl e ↦
      let c = some-injective "created_at" col (rw e at h) in
      (inl (sym c), (str_eq_iff field "created_at").0 e ∙ c)
  | inr n ↦ elim (Bool-cases (str_eq field "name")) [
    | inl e ↦
        let c = some-injective "name" col (rw (n, e) at h) in
        (inr (sym c), (str_eq_iff field "name").0 e ∙ c)
    | inr m ↦ cc (rw (n, m) at h)
  ]
]

-- An accepted order names one of the two columns, whatever the field of the request, with the id as
-- the tiebreaker in the same direction.
pub order_by_clause-columns :
    (by : By) (clause : String)
    → order_by_clause by ≡ ok clause
    → (col : String) × ((col ≡ "created_at") ⊎ (col ≡ "name"))
      × (by.field ≡ col)
      × (clause ≡ " ORDER BY " <> col <> " " <> by.direction <> ", id " <> by.direction)
unfolding order_by_clause
order_by_clause-columns by clause h =
    let (col, found, written) = clause_of-inv by.direction (order_by_fields by.field) clause h in
    let (column, same) = order_by_fields-columns by.field col found in (col, column, same, written)

module _ {q : Querier DbWidget} (serves : Serves widgets q) (f : Formats) (tokens : Tokens)
    (formats : IsFormats f) (tokens_lawful : IsTokens tokens) (keyset : HoldsKeyset serves f)
    (h : HoldsFilter serves) (limit : ℕ) (filter_by : QueryFilter) (db : q.Db) where
  abbrev pub fetch : String → Result Error (List Widget × String)
  fetch token = query_by_cursor q f tokens filter_by (record { token = token; limit = limit }) db

  -- the widgets that match the filter, newest first
  abbrev pub matching : List Widget
  matching = map to_core_widget (filter (matches serves h filter_by) (serves.listing db))

  -- On a database that answers, does not change and lists its rows newest first, all created before
  -- the year 10000, a client that follows the cursors from the first page to the answer without one
  -- has each widget that matches the filter once, newest first, and as many as Count says; the
  -- limit is positive, and one page more than there are matches is enough.
  pub walk_matches_count :
      0 < limit
      → serves.up db ≡ true
      → IsListing widgets (serves.listing db)
      → (pages : ℕ) → length matching < pages
      → (walk pages fetch "" ≡ some matching) × (count q filter_by db ≡ ok (length matching))
  unfolding query_by_cursor
  walk_matches_count positive up listed pages enough = (
    walk-query_by_cursor widgets q f tokens to_core_widget serves formats tokens_lawful keyset
        (where_conditions filter_by) (matches serves h filter_by)
        (where_conditions-IsFilter serves h filter_by) limit db up positive listed pages
        (omega (
          arith,
          length-map to_core_widget (filter (matches serves h filter_by) (serves.listing db)),
        )),
    count_rows serves h filter_by db up
        ∙ ap ok (
            sym (
              length-map to_core_widget (filter (matches serves h filter_by) (serves.listing db)))),
  )
