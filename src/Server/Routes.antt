-- ===== src/Server/Routes.antt =====
-- internal/app/server/routes.go and options.go: what a route is, and how middleware is put around
-- it.
use skit_x.Common.{String, Bool, true, false, Option, none, some, List, [], ◌∷◌, ◌++◌, not, str_eq}

-- The middleware that the routes name, outermost first in a list. `chain` is mid.Chain as a whole.
pub data Mid : Type 0 where
  panics trace access_log metrics timeout size_limit : Mid
  request_context chain translation : Mid
  guard idempotency cache_control etag : Mid

abbrev pub is_guard : Mid → Bool
is_guard guard = true
is_guard _ = false

-- A pattern of the mux, with the middleware that a request to it goes through.
pub record Route : Type 0 where
  pub method : String
  pub path : String
  pub mids : List Mid

abbrev pub is_write : Route → Bool
is_write r = not (str_eq r.method "GET")

-- The Handle seam skips a nil middleware.
abbrev pub present : Option Mid → List Mid
present none = []
present (some m) = m ∷ []

-- A route as a feature registers it.
abbrev pub route : String → String → List Mid → Route
route method path mids = record { method = method; path = path; mids = mids }

-- Router.With and WithApp: the group's middleware stands around that of the route.
abbrev pub within : List Mid → Route → Route
within outer r = record r { mids = outer ++ r.mids }
