-- ===== src/Server/Install.antt =====
-- The route sets of internal/app/server: Install (routes.go) and the technical ones (options.go).
use skit_x.Common.{
  Bool, true, false, any, ◌||◌, Option, none, some, List, [], ◌∷◌, ◌++◌, map, if◌then◌else◌,
}
use skit_x.Server.Config.{ServerOpts, auth_enabled}
use skit_x.Server.Features.{widget_routes, user_routes, product_routes}
use skit_x.Server.Routes.{
  Mid, panics, trace, access_log, metrics, timeout, size_limit, request_context, chain, translation,
  guard, idempotency, Route, route, present, within,
}

-- The sets that a command names.
pub data RouteSet : Type 0 where
  install debug health metrics_set pprof info : RouteSet

-- Two sets that have a pattern in common; the debug set has those of the other technical ones.
abbrev pub overlap : RouteSet → RouteSet → Bool
overlap install install = true
overlap install _ = false
overlap _ install = false
overlap debug _ = true
overlap _ debug = true
overlap health health = true
overlap metrics_set metrics_set = true
overlap pprof pprof = true
overlap info info = true
overlap _ _ = false

-- A set has a pattern that an earlier one has.
abbrev pub clashing : List RouteSet → Bool
clashing [] = false
clashing (set ∷ sets) = any (overlap set) sets || clashing sets

-- auth.Guard of Deps.AuthVerifier: nil when auth is off
abbrev pub guard_of : ServerOpts → Option Mid
guard_of o = if auth_enabled o then some guard else none

abbrev pub transport_mids : List Mid
transport_mids = trace ∷ access_log ∷ metrics ∷ timeout ∷ size_limit ∷ []

-- appMids: built by the first call, and kept in the field `mids` of App.
unfoldable pub app_mids : Option (List Mid) → List Mid × Option (List Mid)
app_mids (some mids) = (mids, some mids)
app_mids none =
    let mids : List Mid = request_context ∷ chain ∷ translation ∷ [] in (mids, some mids)

-- The routes of Install inside its group, `g` being its guard; `audit_routes` are those of
-- auditrest.
abbrev pub business_routes : Option Mid → List Route → List Route
business_routes g audit_routes =
    widget_routes g
    ++ user_routes g
    ++ map (within (present g ++ idempotency ∷ [])) product_routes
    ++ audit_routes
    ++ route "POST" "/auditlog/compact" (present g) ∷ []

abbrev pub health_routes : List Route
health_routes = route "GET" "/healthz" [] ∷ route "GET" "/readyz" [] ∷ []

abbrev pub metrics_routes : List Route
metrics_routes = route "GET" "/metrics" [] ∷ []

-- A pattern without a method serves them all.
abbrev pub pprof_routes : List Route
pprof_routes = route "" "/debug/pprof/" [] ∷ []

abbrev pub info_routes : List Route
info_routes = route "GET" "/version" [] ∷ route "GET" "/debug/components" [] ∷ []

abbrev pub debug_routes : List Route
debug_routes = health_routes ++ metrics_routes ++ pprof_routes ++ info_routes

module _ (o : ServerOpts) (audit_routes : List Route) where
  abbrev installed : List Mid × Option (List Mid) → List Route × Option (List Mid)
  installed (mids, kept) =
      (map (within (transport_mids ++ mids)) (business_routes (guard_of o) audit_routes), kept)

  -- A route set: its routes, with the field `mids` that it leaves.
  unfoldable pub mount : RouteSet → Option (List Mid) → List Route × Option (List Mid)
  unfolding app_mids
  mount install mids = installed (app_mids mids)
  mount debug mids = (debug_routes, mids)
  mount health mids = (health_routes, mids)
  mount metrics_set mids = (metrics_routes, mids)
  mount pprof mids = (pprof_routes, mids)
  mount info mids = (info_routes, mids)

  abbrev pub mount_all : List RouteSet → Option (List Mid) → List Route × Option (List Mid)
  mount_all [] mids = ([], mids)
  mount_all (set ∷ sets) mids =
      let (routes, mids') = mount set mids in
      let (rest, mids'') = mount_all sets mids' in (routes ++ rest, mids'')

  -- the sets on one router, behind one panic recoverer
  unfoldable pub routed : List RouteSet → Option (List Mid) → List Route × Option (List Mid)
  unfolding mount
  routed sets mids =
      let (routes, mids') = mount_all sets mids in (map (within (panics ∷ [])) routes, mids')

  -- App.handler: none where the mux panics on a pattern that it has.
  unfoldable pub handler :
      List RouteSet → Option (List Mid) → Option (List Route × Option (List Mid))
  unfolding routed
  handler sets mids = if clashing sets then none else some (routed sets mids)
