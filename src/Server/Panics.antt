-- ===== src/Server/Panics.antt =====
-- The lists of options on which New (internal/app/server/server.go) panics: a pattern twice on one
-- mux, or the gauge of the count twice in the registry.
use skit_x.Common.{
  ◌≡◌, ◌≢◌, refl, ◌∙◌, any, inl, inr, Bool, Bool-cases, true, false, not, ◌&&◌, Option, none, some,
  List, [], ◌∷◌, Result, ok, err, ◌>>=◌, str_eq, if◌then◌else◌,
}
use skit_x.Server.App.{
  App, Sdk, Failure, panicked, returned, AppOption, with_server, with_grpc, with_gateway,
  with_workers, with_settings, with_consumers, init_workers, event_workers, add_workers, served,
  counting, apply, apply_all, new, new_app, released,
}
use skit_x.Server.Config.{ServerOpts, broker_enabled}
use skit_x.Server.Install.{clashing, handler}
use skit_x.Server.Routes.{Mid, Route}
use skit_x.Server.Duplicates.{
  serves_twice, is_workers, workers_twice, has_duplicates, Of, any_app, Of-map, then_fails,
  never_then, apply_counted,
}

module _ {R : Type 0} (o : ServerOpts) (sdk : Sdk R) where
  server_panics :
      (p : AppOption) (a : App R) → serves_twice p ≡ true → apply o sdk p a ≡ err panicked
  unfolding apply handler
  server_panics (with_server at sets) a h = by_test (str_eq at "") (clashing sets) _ h
    where
      by_test :
          (empty twice : Bool) (x : List Route × Option (List Mid))
          → (twice && not empty) ≡ true
          → (if empty then ok a else served o sdk at (if twice then none else some x) a)
            ≡ err panicked
      by_test false true x e = refl
      by_test true true x e = cc
      by_test empty false x e = cc
  server_panics (with_grpc at) a h = cc
  server_panics (with_gateway at grpc_at) a h = cc
  server_panics with_workers a h = cc
  server_panics with_settings a h = cc
  server_panics with_consumers a h = cc

  -- a list with such a server
  servers_fail :
      (ps : List AppOption) (a z : App R) → any serves_twice ps ≡ true → apply_all o sdk ps a ≢ ok z
  unfolding apply_all
  servers_fail [] a z h e = cc
  servers_fail (p ∷ ps) a z h e = elim (Bool-cases (serves_twice p)) [
    | inl own ↦ cc (rw (server_panics p a own) at e)
    | inr none_own ↦
        let rest = rw none_own at h in
        then_fails (λ b. Unit) (apply o sdk p a) (apply_all o sdk ps) z (any_app (apply o sdk p a))
          (λ b u. servers_fail ps b z rest) e
  ]

  event_counted : (a : App R) → Of (λ b. b.counted ≡ a.counted) (event_workers o sdk a)
  event_counted a =
      by_switch (broker_enabled o) (returned sdk.check_events) (returned sdk.event_workers)
        (returned sdk.partitions)
    where
      by_switch :
          (on : Bool) (checked : Result Failure (Unit {0})) (events : Result Failure (List R))
          (keeper : Result Failure R)
          → Of
              (λ b. b.counted ≡ a.counted)
              (if on
                then (checked >>= λ _. events >>= λ ws.
                    keeper >>= λ k. ok (add_workers o sdk (k ∷ []) (add_workers o sdk ws a)))
                else ok a)
      by_switch false checked events keeper = refl
      by_switch true (err x) events keeper = tt
      by_switch true (ok _) (err x) keeper = tt
      by_switch true (ok _) (ok ws) (err x) = tt
      by_switch true (ok _) (ok ws) (ok k) = refl

  -- Workers that are on leave the gauge in the registry.
  workers_counted :
      (p : AppOption) (a : App R)
      → is_workers p ≡ true
      → o.worker_disabled ≡ false
      → Of (λ b. b.counted ≡ true) (apply o sdk p a)
  unfolding apply init_workers
  workers_counted with_workers a own on = rw on (by_imports (returned sdk.import_workers) a.counted)
    where
      by_imports :
          (imports : Result Failure (List R)) (c : Bool)
          → Of
              (λ b. b.counted ≡ true)
              ((imports >>= λ ws.
                  if c
                  then err panicked
                  else ok
                      (record (add_workers o sdk (sdk.count_poller ∷ []) (add_workers o sdk ws a)) {
                        counted = true;
                      }))
                >>= event_workers o sdk)
      by_imports (err x) c = tt
      by_imports (ok ws) true = tt
      by_imports (ok ws) false =
          Of-map _ (λ b. b.counted ≡ true) _ (λ b e. e)
            (event_counted
              (record (add_workers o sdk (sdk.count_poller ∷ []) (add_workers o sdk ws a)) {
                counted = true;
              }))
  workers_counted (with_server at sets) a own on = cc
  workers_counted (with_grpc at) a own on = cc
  workers_counted (with_gateway at grpc_at) a own on = cc
  workers_counted with_settings a own on = cc
  workers_counted with_consumers a own on = cc

  workers_again :
      (p : AppOption) (a z : App R)
      → is_workers p ≡ true
      → o.worker_disabled ≡ false
      → a.counted ≡ true
      → apply o sdk p a ≢ ok z
  unfolding apply init_workers
  workers_again with_workers a z own on there h =
      by_imports (returned sdk.import_workers) (rw on at h)
    where
      by_imports :
          (imports : Result Failure (List R))
          → (imports >>= λ ws.
                counting o sdk (add_workers o sdk (sdk.count_poller ∷ []) (add_workers o sdk ws a)))
              >>= event_workers o sdk
            ≢ ok z
      by_imports (err x) e = cc
      by_imports (ok ws) e = cc (rw there at e)
  workers_again (with_server at sets) a z own on there h = cc
  workers_again (with_grpc at) a z own on there h = cc
  workers_again (with_gateway at grpc_at) a z own on there h = cc
  workers_again with_settings a z own on there h = cc
  workers_again with_consumers a z own on there h = cc

  -- a list with workers, once the gauge is in the registry
  counted_fail :
      (ps : List AppOption) (a z : App R)
      → o.worker_disabled ≡ false
      → any is_workers ps ≡ true
      → a.counted ≡ true
      → apply_all o sdk ps a ≢ ok z
  unfolding apply_all
  counted_fail [] a z on h there e = cc
  counted_fail (p ∷ ps) a z on h there e = elim (Bool-cases (is_workers p)) [
    | inl own ↦
        never_then (apply o sdk p a) (apply_all o sdk ps) z (λ b. workers_again p a b own on there)
          e
    | inr other ↦
        let rest = rw other at h in
        then_fails (λ b. b.counted ≡ a.counted) (apply o sdk p a) (apply_all o sdk ps) z
          (apply_counted o sdk p a other) (λ b same. counted_fail ps b z on rest (same ∙ there)) e
  ]

  workers_fail :
      (ps : List AppOption) (a z : App R)
      → o.worker_disabled ≡ false
      → workers_twice ps ≡ true
      → apply_all o sdk ps a ≢ ok z
  unfolding apply_all
  workers_fail [] a z on h e = cc
  workers_fail (p ∷ ps) a z on h e = elim (Bool-cases (is_workers p)) [
    | inl own ↦
        then_fails (λ b. b.counted ≡ true) (apply o sdk p a) (apply_all o sdk ps) z
          (workers_counted p a own on) (λ b there. counted_fail ps b z on (rw own at h) there) e
    | inr other ↦
        then_fails (λ b. Unit) (apply o sdk p a) (apply_all o sdk ps) z (any_app (apply o sdk p a))
          (λ b u. workers_fail ps b z on (rw other at h)) e
  ]

  duplicates_fail :
      (ps : List AppOption) (a z : App R) → has_duplicates o ps ≡ true → apply_all o sdk ps a ≢ ok z
  duplicates_fail ps a z h = elim (Bool-cases (any serves_twice ps)) [
    | inl twice ↦ servers_fail ps a z twice
    | inr once ↦
        let again = both_true (workers_twice ps) o.worker_disabled (rw once at h) in
        workers_fail ps a z again.1 again.0
  ]
    where
      both_true : (w d : Bool) → (w && not d) ≡ true → (w ≡ true) × (d ≡ false)
      both_true true false e = (refl, refl)
      both_true true true e = cc
      both_true false d e = cc

  -- New on such a list
  pub new-duplicates :
      (ps : List AppOption) (z : App R) → has_duplicates o ps ≡ true → new o sdk ps ≢ ok z
  unfolding new
  new-duplicates ps z h = by_init (returned sdk.init_deps)
    where
      was_built : (r : Result Failure (App R)) → released o sdk r ≡ ok z → r ≡ ok z
      was_built (ok a) e = e
      was_built (err x) e = cc

      by_init :
          (r : Result Failure (Unit {0}))
          → (r >>= λ _. released o sdk (apply_all o sdk ps (new_app o sdk))) ≢ ok z
      by_init (err x) e = cc
      by_init (ok _) e = duplicates_fail ps (new_app o sdk) z h (was_built _ e)
