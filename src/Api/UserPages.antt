-- ===== src/Api/UserPages.antt =====
-- A client that follows GET /users/cursor (api/user/user.go).
use skit_x.Common.{ℕ, ◌<◌, String, ◌≡◌, refl, true, some, List, Result, ok, err, Bytes, length}
use skit_x.Api.{Edge, ListQuery}
use skit_x.Api.Inputs.{cursor_page}
use skit_x.Api.Users.{UserResponse, to_response, to_response_list, parse_user_filter, query_cursor}
use skit_x.Dbx.{Error, wrap, Tokens, Querier}
use skit_x.Dbx.Table.{Serves}
use skit_x.Errs.{AppError}
use skit_x.Keyset.Views.{answer, viewed, walk-viewed}
use skit_x.Keyset.Walk.{walk}
use skit_x.Listing
use skit_x.Listing.{Formats, wrap_err}
use skit_x.Listing.Codec.{IsFormats, IsListing}
use skit_x.Listing.Pages.{IsTokens, HoldsKeyset}
use skit_x.User.{User, Store}
use skit_x.User.Core
use skit_x.User.Core.{internally}
use skit_x.User.Db
use skit_x.User.Db.{DbUser, users, store, where_conditions}
use skit_x.User.Filter.{HoldsFilter}
use skit_x.User.Listings
use skit_x.User.Listings.{matching, walk-users}

module _ {q : Querier DbUser} (serves : Serves users q) (f : Formats) (tokens : Tokens)
    (formats : IsFormats f) (tokens_lawful : IsTokens tokens) (keyset : HoldsKeyset serves f)
    (h : HoldsFilter serves) (e : Edge) (query : ListQuery) (db : q.Db) where
  abbrev user_store : Store
  user_store = store q f tokens

  abbrev pub limit : ℕ
  limit = e.cursor_limit (e.atoi query.limit)

  -- the request with the token of the page before
  abbrev pub request : String → Result AppError (List UserResponse × String)
  request token = query_cursor e user_store tokens (record query { cursor = token }) db

  abbrev page_of_store : String → Result Error (List User × String)
  page_of_store =
      Listings.fetch serves f tokens formats tokens_lawful keyset h limit
        (parse_user_filter e query) db

  shown_result :
      (r : Result Error (List User × String))
      → answer (cursor_page (to_response e) (internally r)) ≡ viewed (to_response e) (answer r)
  shown_result (ok (us, next)) = refl
  shown_result (err x) = refl

  store_fails :
      (t : String) (x : Error)
      → tokens.key t ≡ err x
      → page_of_store t ≡ err (wrap "querybycursor" x)
  unfolding Db.query_by_cursor Listing.query_by_cursor
  store_fails t x bad = rw bad

  request-viewed :
      (t : String) → answer (request t) ≡ viewed (to_response e) (answer (page_of_store t))
  unfolding query_cursor Core.query_by_cursor parse_user_filter
  request-viewed t = by_key (tokens.key t) refl
    where
      by_key :
          (r : Result Error Bytes)
          → tokens.key t ≡ r
          → answer (request t) ≡ viewed (to_response e) (answer (page_of_store t))
      by_key (ok k) good = rw good (shown_result (page_of_store t))
      by_key (err x) bad = rw (bad, store_fails t x bad)

  -- On a database that answers, does not change and lists its rows newest first, all created before
  -- the year 10000, a client that follows GET /users/cursor from the empty token to the answer
  -- without one, with one positive limit and one filter, has each user that matches the filter
  -- once, newest first; one page more than there are matches is enough.
  pub walk-query_cursor :
      0 < limit
      → serves.up db ≡ true
      → IsListing users (serves.listing db)
      → (pages : ℕ)
      → let all =
          matching serves f tokens formats tokens_lawful keyset h limit
            (parse_user_filter e query)
            db in
        length all < pages → walk pages request "" ≡ some (to_response_list e all)
  walk-query_cursor positive up listed pages enough =
      walk-viewed (to_response e) page_of_store request request-viewed pages "" _
        (walk-users serves f tokens formats tokens_lawful keyset h limit (parse_user_filter e query)
          db positive up listed pages enough).0
