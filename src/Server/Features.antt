-- ===== src/Server/Features.antt =====
-- The Routes methods of api/widget/widget.go, api/user/user.go and api/product/product.go.
use skit_x.Common.{Option, List, [], ◌∷◌}
use skit_x.Server.Routes.{Mid, cache_control, etag, Route, route, present}

-- `g` is what auth.Guard gave: nil when auth is disabled.
abbrev pub widget_routes : Option Mid → List Route
widget_routes g =
    route "GET" "/widgets" []
    ∷ route "GET" "/widgets/count" []
    ∷ route "GET" "/widgets/cursor" []
    ∷ route "GET" "/widgets/jsonapi" []
    ∷ route "GET" "/widgets/jsonapi/{id}" []
    ∷ route "GET" "/widgets/{id}" []
    ∷ route "POST" "/widgets" (present g)
    ∷ route "POST" "/widgets/import" (present g)
    ∷ route "PUT" "/widgets/{id}" (present g)
    ∷ route "DELETE" "/widgets/{id}" (present g)
    ∷ route "POST" "/widgets/{id}/translations" (present g)
    ∷ route "GET" "/admin/widget-settings" (present g)
    ∷ route "PUT" "/admin/widget-settings" (present g)
    ∷ []

abbrev pub user_routes : Option Mid → List Route
user_routes g =
    route "GET" "/users" []
    ∷ route "GET" "/users/cursor" []
    ∷ route "GET" "/users/{id}" (cache_control ∷ etag ∷ [])
    ∷ route "POST" "/users" (present g)
    ∷ route "PUT" "/users/{id}" (present g)
    ∷ route "DELETE" "/users/{id}" (present g)
    ∷ []

abbrev pub product_routes : List Route
product_routes =
    route "GET" "/products" []
    ∷ route "GET" "/products/cursor" []
    ∷ route "GET" "/products/{id}" []
    ∷ route "POST" "/products" []
    ∷ route "PUT" "/products/{id}" []
    ∷ route "DELETE" "/products/{id}" []
    ∷ []
