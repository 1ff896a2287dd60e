-- ===== src/Server/Guards.antt =====
-- Which routes of Install go through the guard (internal/app/server/routes.go and the Routes
-- methods of the features).
use skit_x.Common.{
  String, ◌≡◌, refl, Bool, true, false, ◌&&◌, ◌||◌, Option, none, some, List, [], ◌∷◌, ◌++◌, map,
  any, All, all, &&-eq-true, not, if◌then◌else◌, str_eq, arith,
}
use skit_x.Server.Config.{ServerOpts, auth_enabled}
use skit_x.Server.Features.{widget_routes, user_routes, product_routes}
use skit_x.Server.Install.{install, mount, app_mids, business_routes, guard_of, transport_mids}
use skit_x.Server.Routes.{
  Mid, is_guard, request_context, chain, translation, guard, idempotency, Route, route, is_write,
  present, within,
}

-- The reads that are not public: all of the products, and the widget settings.
abbrev pub private_reads : List String
private_reads = "/products" ∷ "/products/cursor" ∷ "/products/{id}" ∷ "/admin/widget-settings" ∷ []

abbrev pub is_private : Route → Bool
is_private r = is_write r || any (str_eq r.path) private_reads

abbrev pub is_guarded : Route → Bool
is_guarded r = any is_guard r.mids

module _ (on : Bool) where
  -- With auth on the guard stands exactly before the private routes, with auth off nowhere.
  abbrev pub IsRight : Route → Type 0
  IsRight r = is_guarded r ≡ (on && is_private r)

All-map :
    {A B : Type 0} (P : B → Type 0) (f : A → B) (xs : List A)
    → All (λ x. P (f x)) xs
    → All P (map f xs)
All-map P f [] h = tt
All-map P f (x ∷ xs) (h, hs) = (h, All-map P f xs hs)

All-append : {A : Type 0} (P : A → Type 0) (xs ys : List A) → All P xs → All P ys → All P (xs ++ ys)
All-append P [] ys h k = k
All-append P (x ∷ xs) ys (h, hs) k = (h, All-append P xs ys hs k)

abbrev same : Bool → Bool → Bool
same true b = b
same false b = not b

same-eq : (a b : Bool) → same a b ≡ true → a ≡ b
same-eq true b h = ground arith
same-eq false b h = ground arith

abbrev grouped : Route → Route
grouped = within (transport_mids ++ request_context ∷ chain ∷ translation ∷ [])

-- What the routes of the audit log, which are the SDK's, are assumed to be: public reads.
abbrev pub ArePublic : List Route → Type 0
ArePublic = All (λ r. (is_guarded r ≡ false) × (is_private r ≡ false))

module _ (on : Bool) where
  abbrev AllRight : List Route → Type 0
  AllRight = All (λ r. IsRight on (grouped r))

  agrees : Route → Bool
  agrees r = same (is_guarded (grouped r)) (on && is_private (grouped r))

  right_by_evaluation : (rs : List Route) → all agrees rs ≡ true → AllRight rs
  unfolding agrees
  right_by_evaluation [] h = tt
  right_by_evaluation (r ∷ rs) h =
      let (first, rest) = &&-eq-true (agrees r) (all agrees rs) h in
      (same-eq _ _ first, right_by_evaluation rs rest)

  audit_right : (rs : List Route) → ArePublic rs → AllRight rs
  audit_right [] h = tt
  audit_right (r ∷ rs) ((open', public), hs) = (ground arith, audit_right rs hs)

  right-append : (rs qs : List Route) → AllRight rs → AllRight qs → AllRight (rs ++ qs)
  right-append rs qs = All-append (λ r. IsRight on (grouped r)) rs qs

  all_right :
      (g : Option Mid) (audit : List Route)
      → AllRight (widget_routes g)
      → AllRight (user_routes g)
      → AllRight (map (within (present g ++ idempotency ∷ [])) product_routes)
      → ArePublic audit
      → AllRight (route "POST" "/auditlog/compact" (present g) ∷ [])
      → AllRight (business_routes g audit)
  all_right g audit ws us ps public c =
      let compact : List Route = route "POST" "/auditlog/compact" (present g) ∷ [] in
      let products = map (within (present g ++ idempotency ∷ [])) product_routes in
      right-append (widget_routes g) (user_routes g ++ products ++ audit ++ compact) ws (
        right-append (user_routes g) (products ++ audit ++ compact) us (
          right-append products (audit ++ compact) ps
            (right-append audit compact (audit_right audit public) c)))

guarded_right :
    (audit : List Route) → ArePublic audit → AllRight true (business_routes (some guard) audit)
unfolding agrees str_eq
guarded_right audit public =
    let by_evaluation = right_by_evaluation true in
    all_right true (some guard) audit (by_evaluation (widget_routes (some guard)) refl)
      (by_evaluation (user_routes (some guard)) refl)
      (by_evaluation (map (within (guard ∷ idempotency ∷ [])) product_routes) refl) public
      (by_evaluation (route "POST" "/auditlog/compact" (guard ∷ []) ∷ []) refl)

open_right : (audit : List Route) → ArePublic audit → AllRight false (business_routes none audit)
unfolding agrees str_eq
open_right audit public =
    let by_evaluation = right_by_evaluation false in
    all_right false none audit (by_evaluation (widget_routes none) refl)
      (by_evaluation (user_routes none) refl)
      (by_evaluation (map (within (idempotency ∷ [])) product_routes) refl) public
      (by_evaluation (route "POST" "/auditlog/compact" [] ∷ []) refl)

right_either :
    (on : Bool) (audit : List Route)
    → ArePublic audit
    → AllRight on (business_routes (if on then some guard else none) audit)
right_either true = guarded_right
right_either false = open_right

-- Install of a fresh App puts the guard before a route exactly if auth is on and the route is one
-- that writes, reads products or reads the widget settings; the routes of the audit log are
-- assumed to be public reads. So with auth on no write is open, and with auth off every route is.
pub install_guards :
    (o : ServerOpts) (audit : List Route)
    → ArePublic audit
    → All (IsRight (auth_enabled o)) (mount o audit install none).0
unfolding mount app_mids
install_guards o audit public =
    All-map (IsRight (auth_enabled o)) grouped (business_routes (guard_of o) audit)
      (right_either (auth_enabled o) audit public)
