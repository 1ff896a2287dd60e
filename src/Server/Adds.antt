-- ===== src/Server/Adds.antt =====
-- What each option of internal/app/server/options.go adds to an App, by its parts.
use mathlib.Core.List.{map-append, append-nil}
use skit_x.Common.{
  String, ◌≡◌, refl, sym, ap, ◌∙◌, Bool, true, false, Option, none, some, List, [], ◌∷◌, ◌++◌,
  Result, ok, err, ◌>>=◌, if◌then◌else◌,
}
use skit_x.Server.App.{
  App, Sdk, Failure, returned, Listener, addr, init_consumers, domain_workers, event_workers,
  add_consumer, add_workers, add_server, gateway, grpc_server, served, counting, http_server,
}
use skit_x.Server.Config.{ServerOpts, broker_enabled}
use skit_x.Server.Install.{RouteSet, clashing, handler, routed}
use skit_x.Server.Routes.{Mid, Route}
use skit_x.Server.Parts.{
  Parts, nothing, both, parts_of, listening_on, working, domain_part, event_part, consumer_part,
  viewed, added, both-nothing, both_assoc,
}

module _ {R : Type 0} (o : ServerOpts) (sdk : Sdk R) where
  pub unserved :
      (a : App R)
      → ◌≡◌ {A = Result Failure (Parts R)} (ok (parts_of a)) (ok (both (parts_of a) nothing))
  unserved a = ap ok (sym (both-nothing (parts_of a)))

  listening_part :
      (at : String) (l : Listener) (mids : Option (List Mid)) (a : App R)
      → addr l ≡ at
      → parts_of (add_server o sdk l (record a { mids = mids }))
        ≡ both (parts_of a) (listening_on at)
  listening_part at l mids a e = rw (← e) (simp (append-nil, map-append))

  pub working_part :
      (rs : List R) (a : App R) → parts_of (add_workers o sdk rs a) ≡ both (parts_of a) (working rs)
  working_part rs a = simp append-nil

  pub grpc-part :
      (empty : Bool) (at : String) (a : App R)
      → viewed (if empty then ok a else ok (add_server o sdk (grpc_server at) a))
        ≡ added a (ok (if empty then nothing else listening_on at))
  grpc-part true at a = unserved a
  grpc-part false at a = ap ok (listening_part at (grpc_server at) a.mids a refl)

  pub server-part :
      (empty : Bool) (at : String) (h : Option (List Route × Option (List Mid)))
      (x : List Route × Option (List Mid)) (a : App R)
      → h ≡ some x
      → viewed (if empty then ok a else served o sdk at h a)
        ≡ added a (ok (if empty then nothing else listening_on at))
  server-part true at h x a e = unserved a
  server-part false at none x a e = cc
  server-part false at (some (routes, mids)) x a e =
      ap ok (listening_part at (http_server at routes) mids a refl)

  pub handler-some :
      (sets : List RouteSet) (mids : Option (List Mid))
      → clashing sets ≡ false
      → handler o sdk.audit_routes sets mids ≡ some (routed o sdk.audit_routes sets mids)
  unfolding handler
  handler-some sets mids free = rw free

  pub gateway-part :
      (off : Bool) (at target : String) (built : Result Failure (Unit {0})) (a : App R)
      → viewed (if off then ok a else built >>= λ _. ok (add_server o sdk (gateway at target) a))
        ≡ added a (if off then ok nothing else built >>= λ _. ok (listening_on at))
  gateway-part true at target built a = unserved a
  gateway-part false at target (ok _) a =
      ap ok (listening_part at (gateway at target) a.mids a refl)
  gateway-part false at target (err x) a = refl

  pub domain-part :
      (a : App R)
      → (o.worker_disabled ≡ false → a.counted ≡ false)
      → viewed (domain_workers o sdk a) ≡ added a (domain_part o sdk)
  domain-part a first = by_switch o.worker_disabled (returned sdk.import_workers) first
    where
      by_switch :
          (off : Bool) (imports : Result Failure (List R))
          → (off ≡ false → a.counted ≡ false)
          → viewed (
              if off
              then ok a
              else imports >>= λ ws.
                  counting o sdk
                    (add_workers o sdk (sdk.count_poller ∷ []) (add_workers o sdk ws a)))
            ≡ added a (
                if off
                then ok nothing
                else imports >>= λ ws. ok (working (ws ++ sdk.count_poller ∷ [])))
      by_switch true imports h = unserved a
      by_switch false (err x) h = refl
      by_switch false (ok ws) h = rw (h refl) (
          ap ok (
            working_part (sdk.count_poller ∷ []) (add_workers o sdk ws a)
            ∙ ap (λ p. both p (working (sdk.count_poller ∷ []))) (working_part ws a)
            ∙ both_assoc (parts_of a) (working ws) (working (sdk.count_poller ∷ []))))

  pub event-part : (a : App R) → viewed (event_workers o sdk a) ≡ added a (event_part o sdk)
  event-part a =
      by_switch (broker_enabled o) (returned sdk.check_events) (returned sdk.event_workers)
        (returned sdk.partitions)
    where
      by_switch :
          (on : Bool) (checked : Result Failure (Unit {0})) (events : Result Failure (List R))
          (keeper : Result Failure R)
          → viewed (
              if on
              then (checked >>= λ _. events >>= λ ws.
                  keeper >>= λ k. ok (add_workers o sdk (k ∷ []) (add_workers o sdk ws a)))
              else ok a)
            ≡ added a (
                if on
                then (checked >>= λ _. events >>= λ ws. keeper >>= λ k. ok (working (ws ++ k ∷ [])))
                else ok nothing)
      by_switch false checked events keeper = unserved a
      by_switch true (err x) events keeper = refl
      by_switch true (ok _) (err x) keeper = refl
      by_switch true (ok _) (ok ws) (err x) = refl
      by_switch true (ok _) (ok ws) (ok k) = ap ok (
          working_part (k ∷ []) (add_workers o sdk ws a)
          ∙ ap (λ p. both p (working (k ∷ []))) (working_part ws a)
          ∙ both_assoc (parts_of a) (working ws) (working (k ∷ [])))

  pub consumer-part : (a : App R) → viewed (init_consumers o sdk a) ≡ added a (consumer_part o sdk)
  unfolding init_consumers
  consumer-part a = by_switch (broker_enabled o) (returned sdk.consumer)
    where
      by_switch :
          (on : Bool) (c : Result Failure R)
          → viewed (if on then c >>= add_consumer o sdk a else ok a)
            ≡ added a (
                if on
                then (c >>= λ r. ok (record { listens = []; works = []; consumes = r ∷ [] }))
                else ok nothing)
      by_switch false c = unserved a
      by_switch true (err x) = refl
      by_switch true (ok r) = ap ok (simp append-nil)
