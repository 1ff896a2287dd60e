-- ===== src/Api/WidgetPages.antt =====
-- A client that follows GET /widgets/cursor, and the total of GET /widgets (api/widget/widget.go).
use skit_x.Common.{
  ℕ, ◌<◌, String, ◌≡◌, refl, ap, true, Option, >>=-eq-ok, some, List, Result, ok, err, Bytes,
  length,
}
use skit_x.Api.{Edge, ListQuery, Paged}
use skit_x.Api.Inputs.{invalidated, cursor_page, paged_list-total}
use skit_x.Api.Widgets.{
  WidgetResponse, to_response, to_response_list, parse_widget_filter, query, query_cursor,
  sortable_fields, default_order,
}
use skit_x.Dbx.{Error, wrap, Tokens, Querier}
use skit_x.Dbx.Table.{Serves}
use skit_x.Errs.{AppError}
use skit_x.Keyset.Views.{answer, viewed, walk-viewed}
use skit_x.Keyset.Walk.{walk}
use skit_x.Listing
use skit_x.Listing.{Formats}
use skit_x.Listing.Codec.{IsFormats, IsListing}
use skit_x.Listing.Pages.{IsTokens, HoldsKeyset}
use skit_x.Widget.{Widget, Store}
use skit_x.Widget.Core
use skit_x.Widget.Core.{State}
use skit_x.Widget.World.{Options, internally}
use skit_x.Widget.{Created}
use skit_x.Widget.Db
use skit_x.Widget.Db.{DbWidget, widgets, store}
use skit_x.Widget.Db.Filter.{HoldsFilter}
use skit_x.Widget.Db.Listings as Listings
use skit_x.Widget.Db.Listings.{matching, walk_matches_count}

module _ {q : Querier DbWidget} (serves : Serves widgets q) (f : Formats) (tokens : Tokens)
    (formats : IsFormats f) (tokens_lawful : IsTokens tokens) (keyset : HoldsKeyset serves f)
    (h : HoldsFilter serves) (e : Edge) (asked : ListQuery) (o : Options)
    (tasks : Option (Created → q.Db → Result Error (Unit {0}) × q.Db))
    (world : State (store q f tokens tasks) o) where
  abbrev widget_store : Store
  widget_store = store q f tokens tasks

  abbrev pub limit : ℕ
  limit = e.cursor_limit (e.atoi asked.limit)

  -- the request with the token of the page before
  abbrev pub request : String → Result AppError (List WidgetResponse × String)
  request token = query_cursor e widget_store o tokens (record asked { cursor = token }) world

  abbrev page_of_store : String → Result Error (List Widget × String)
  page_of_store =
      Listings.fetch serves f tokens formats tokens_lawful keyset h limit
        (parse_widget_filter e asked) world.db

  abbrev all_widgets : List Widget
  all_widgets =
      matching serves f tokens formats tokens_lawful keyset h limit (parse_widget_filter e asked)
        world.db

  shown_result :
      (r : Result Error (List Widget × String))
      → answer (cursor_page (to_response e) (internally r)) ≡ viewed (to_response e) (answer r)
  shown_result (ok (xs, next)) = refl
  shown_result (err x) = refl

  store_fails :
      (t : String) (x : Error)
      → tokens.key t ≡ err x
      → page_of_store t ≡ err (wrap "querybycursor" x)
  unfolding Db.query_by_cursor Listing.query_by_cursor
  store_fails t x bad = rw bad

  request-viewed :
      (t : String) → answer (request t) ≡ viewed (to_response e) (answer (page_of_store t))
  unfolding query_cursor Core.query_by_cursor parse_widget_filter
  request-viewed t = by_key (tokens.key t) refl
    where
      by_key :
          (r : Result Error Bytes)
          → tokens.key t ≡ r
          → answer (request t) ≡ viewed (to_response e) (answer (page_of_store t))
      by_key (ok k) good = rw good (shown_result (page_of_store t))
      by_key (err x) bad = rw (bad, store_fails t x bad)

  -- The total of a page is what the store counts for its filter.
  total_of :
      (other : ListQuery) (page : Paged WidgetResponse) (n : ℕ)
      → parse_widget_filter e other ≡ parse_widget_filter e asked
      → Db.count q (parse_widget_filter e asked) world.db ≡ ok n
      → query e widget_store o other world ≡ ok page
      → page.total ≡ n
  unfolding query Core.count
  total_of other page n same count shown =
      let (pg, _, a) = >>=-eq-ok (invalidated (e.parse_page other.page other.rows)) _ shown in
      let (by, _, b) =
        >>=-eq-ok (invalidated (e.parse_order sortable_fields other.order_by default_order)) _ a in
      let total =
        paged_list-total (to_response e) pg
          (Core.query widget_store o (parse_widget_filter e other) by pg world)
          (Core.count widget_store o (parse_widget_filter e other) world) page b in
      cc (total, ap (λ x. internally (Db.count q x world.db)) same, ap internally count)

  -- On a database that answers, does not change and lists its rows newest first, all created before
  -- the year 10000, a client that follows GET /widgets/cursor from the empty token to the answer
  -- without one, with one positive limit and one filter, has each widget that matches the filter
  -- once, newest first, one page more than matches being enough; and any page that GET /widgets
  -- answers for that filter, whatever its number, size and order, gives as its total how many these
  -- are.
  pub widget_pages_match_total :
      0 < limit
      → serves.up world.db ≡ true
      → IsListing widgets (serves.listing world.db)
      → (pages : ℕ) → length all_widgets < pages
      → (walk pages request "" ≡ some (to_response_list e all_widgets))
        × ((other : ListQuery) (page : Paged WidgetResponse)
            → parse_widget_filter e other ≡ parse_widget_filter e asked
            → query e widget_store o other world ≡ ok page
            → page.total ≡ length all_widgets)
  widget_pages_match_total positive up listed pages enough =
      let (walked, counted) =
        walk_matches_count serves f tokens formats tokens_lawful keyset h limit
          (parse_widget_filter e asked) world.db positive up listed pages enough in
      (
        walk-viewed (to_response e) page_of_store request request-viewed pages "" _ walked,
        λ other page same shown. total_of other page (length all_widgets) same counted shown,
      )
