-- ===== src/Tests/Moving.antt =====
-- A walk over the widgets while one is inserted.
use skit_x.Common.{ℕ, zero, suc, ◌≡◌, refl, none, some, List, [], ◌∷◌, ◌++◌, arith, filter}
use skit_x.Keyset.{is_past}
use skit_x.Keyset.Moving.{follow}
use skit_x.Listing.Codec.{IsListing}
use skit_x.Listing
use skit_x.Listing.Moving.{follow-query_by_cursor}
use skit_x.Tests.Formats.{formats, formats_lawful, tokens, tokens_lawful}
use skit_x.Tests.Memory.{Db, memory, serves, widget_sample, widget_filters, widget_keyset}
use skit_x.Tests.Widgets.{row}
use skit_x.Widget.{QueryFilter}
use skit_x.Widget.Db.{DbWidget, widgets, to_core_widget, where_conditions}
use skit_x.Widget.Db.Filter.{matches, where_conditions-IsFilter}

abbrev every_widget : QueryFilter
every_widget = record { name = none; description = none }

-- the third widget is inserted behind the first page
abbrev news : ℕ → List DbWidget
news zero = []
news (suc page) = row 3 "c" ∷ []

abbrev moving : ℕ → Db DbWidget
moving page = record { rows = news page ++ row 2 "b" ∷ row 1 "a" ∷ []; outbox = [] }

listed : (page : ℕ) → IsListing widgets (moving page).rows
unfolding is_past
listed zero = (((refl, tt), (tt, tt)), (omega arith, (omega arith, tt)))
listed (suc page) =
    (((refl, (refl, tt)), ((refl, tt), (tt, tt))), (omega arith, (omega arith, (omega arith, tt))))

follow-query_by_cursor_example :
    follow 3 0
      (λ page token.
        Listing.query_by_cursor widgets
          (memory widget_sample)
          formats
          tokens
          to_core_widget
          (where_conditions every_widget)
          (record { token = token; limit = 1 })
          (moving page))
      ""
    ≡ some (to_core_widget (row 2 "b") ∷ to_core_widget (row 1 "a") ∷ [])
unfolding serves widget_filters filter
follow-query_by_cursor_example =
    follow-query_by_cursor widgets (memory widget_sample) formats tokens to_core_widget
      (serves widget_sample) formats_lawful tokens_lawful widget_keyset
      (where_conditions every_widget) (matches (serves widget_sample) widget_filters every_widget)
      (where_conditions-IsFilter (serves widget_sample) widget_filters every_widget) 1 moving
      (λ page. refl) listed news (λ page. refl) (omega arith) 3 (omega arith)
