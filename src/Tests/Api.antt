-- ===== src/Tests/Api.antt =====
-- The REST handlers over the tables in memory.
use skit_x.Common.{pos, ◌≡◌, refl, none, some, List, [], ◌∷◌, ok, arith, str_eq, filter}
use skit_x.Errs.{newf, invalid_argument}
use skit_x.Keyset.{is_past}
use skit_x.Keyset.Walk.{walk}
use skit_x.Api.{Edge, ListQuery, Paged}
use skit_x.Api.Users.{query_cursor, parse_user_filter, to_response}
use skit_x.Api.UserPages.{walk-query_cursor}
use skit_x.Api.Widgets as WidgetApi
use skit_x.Api.WidgetPages.{widget_pages_match_total}
use skit_x.Api.Products as ProductApi
use skit_x.Api.ProductPages.{product_pages_match_total}
use skit_x.Product.{QueryFilter}
use skit_x.Product.Db as ProductDb
use skit_x.Product.Db.{DbProduct, to_core_product}
use skit_x.Tests.Formats.{formats, formats_lawful, tokens, tokens_lawful}
use skit_x.Tests.Memory.{
  Db, memory, serves, tasks, user_sample, user_filters, user_keyset, widget_sample, widget_filters,
  widget_keyset, product_sample, product_filters, product_keyset,
}
use skit_x.Tests.Products.{shelf, ink}
use skit_x.Tests.Widgets.{at_rest, options, row, shop}
use skit_x.User.Db.{DbUser, store, to_core_user}
use skit_x.Widget.Db.{to_core_widget}

abbrev pub edge : Edge
edge = record {
  parse_uuid = λ s. none;
  uuid_text = λ i. "id";
  parse_page = λ page rows. ok (record { offset = 0; rows_per_page = 10 });
  parse_order = λ fields order default. ok default;
  atoi = λ s. pos 0;
  parse_int = λ s. ok (pos 6);
  cursor_limit = λ n. 1;
  trim_space = λ s. s;
  from_error = λ x. newf invalid_argument "%w" [];
}

abbrev eve : DbUser
eve = record { id = 2; email = "eve@x"; name = "eve"; created_at = 2; updated_at = 2 }

abbrev dan : DbUser
dan = record { id = 1; email = "dan@x"; name = "dan"; created_at = 1; updated_at = 1 }

abbrev people : Db DbUser
people = record { rows = eve ∷ dan ∷ []; outbox = [] }

abbrev bare : ListQuery
bare = record {
  page = "";
  rows = "";
  order_by = "";
  cursor = "";
  limit = "";
  name = "";
  email = "";
  description = "";
  min_price = "";
  max_price = "";
}

walk-query_cursor_example :
    walk 3
      (λ token.
        query_cursor edge
          (store (memory user_sample) formats tokens)
          tokens
          (record bare { cursor = token })
          people)
      ""
    ≡ some (to_response edge (to_core_user eve) ∷ to_response edge (to_core_user dan) ∷ [])
unfolding serves user_filters is_past filter parse_user_filter str_eq
walk-query_cursor_example =
    walk-query_cursor (serves user_sample) formats tokens formats_lawful tokens_lawful user_keyset
      user_filters edge bare people (omega arith) refl
      (((refl, tt), (tt, tt)), (omega arith, (omega arith, tt))) 3 (omega arith)

abbrev every_widget : List WidgetApi.WidgetResponse
every_widget =
    WidgetApi.to_response_list edge
      (to_core_widget (row 3 "c") ∷ to_core_widget (row 2 "b") ∷ to_core_widget (row 1 "a") ∷ [])

widget_pages_match_total_example :
    (walk 4
        (λ token.
          WidgetApi.query_cursor edge shop options tokens (record bare { cursor = token }) at_rest)
        ""
      ≡ some every_widget)
    × ((other : ListQuery) (page : Paged WidgetApi.WidgetResponse)
        → WidgetApi.parse_widget_filter edge other ≡ WidgetApi.parse_widget_filter edge bare
        → WidgetApi.query edge shop options other at_rest ≡ ok page
        → page.total ≡ 3)
unfolding serves widget_filters is_past filter WidgetApi.parse_widget_filter str_eq
widget_pages_match_total_example =
    widget_pages_match_total (serves widget_sample) formats tokens formats_lawful tokens_lawful
      widget_keyset widget_filters edge bare options (some (tasks widget_sample)) at_rest
      (omega arith) refl
      (
        ((refl, (refl, tt)), ((refl, tt), (tt, tt))),
        (omega arith, (omega arith, (omega arith, tt))),
      )
      4 (omega arith)

abbrev dear : ListQuery
dear = record bare { min_price = "6" }

abbrev at_least_six : QueryFilter
at_least_six = record { name = none; min_price = some (pos 6); max_price = none }

dear_parsed : ProductApi.parse_product_filter edge dear ≡ ok at_least_six
unfolding ProductApi.parse_product_filter ProductApi.parse_opt_int str_eq
dear_parsed = refl

product_pages_match_total_example :
    (walk 2
        (λ token.
          ProductApi.query_cursor edge
            (ProductDb.store (memory product_sample) formats tokens)
            tokens
            (record dear { cursor = token })
            shelf)
        ""
      ≡ some (ProductApi.to_response edge (to_core_product ink) ∷ []))
    × ((other : ListQuery) (page : Paged ProductApi.ProductResponse)
        → ProductApi.parse_product_filter edge other ≡ ok at_least_six
        → ProductApi.query edge (ProductDb.store (memory product_sample) formats tokens) other shelf
          ≡ ok page
        → page.total ≡ 1)
unfolding serves product_filters is_past filter
product_pages_match_total_example =
    product_pages_match_total (serves product_sample) formats tokens formats_lawful tokens_lawful
      product_keyset product_filters edge dear shelf at_least_six dear_parsed (omega arith) refl
      (((refl, tt), (tt, tt)), (omega arith, (omega arith, tt))) 2 (omega arith)
