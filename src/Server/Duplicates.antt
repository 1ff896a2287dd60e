-- ===== src/Server/Duplicates.antt =====
-- Which options of internal/app/server/options.go may not stand twice in a list, and what the others
-- leave of the registry of metrics.
use skit_x.Common.{
  ◌≡◌, ◌≢◌, refl, any, Bool, true, false, not, ◌&&◌, ◌||◌, Option, none, some, List, [], ◌∷◌,
  Result, ok, err, ◌>>=◌, str_eq, if◌then◌else◌,
}
use skit_x.Server.App.{
  App, Sdk, Failure, returned, AppOption, with_server, with_grpc, with_gateway, with_workers,
  with_settings, with_consumers, dial_target, init_consumers, add_consumer, add_server, gateway,
  grpc_server, served, apply,
}
use skit_x.Server.Config.{ServerOpts, broker_enabled}
use skit_x.Server.Install.{clashing, handler}
use skit_x.Server.Routes.{Mid, Route}

-- A server that is on and lists a pattern twice.
abbrev pub serves_twice : AppOption → Bool
serves_twice (with_server at sets) = clashing sets && not (str_eq at "")
serves_twice (with_grpc at) = false
serves_twice (with_gateway at grpc_at) = false
serves_twice with_workers = false
serves_twice with_settings = false
serves_twice with_consumers = false

abbrev pub is_workers : AppOption → Bool
is_workers (with_server at sets) = false
is_workers (with_grpc at) = false
is_workers (with_gateway at grpc_at) = false
is_workers with_workers = true
is_workers with_settings = false
is_workers with_consumers = false

abbrev pub workers_twice : List AppOption → Bool
workers_twice [] = false
workers_twice (p ∷ ps) = if is_workers p then any is_workers ps else workers_twice ps

-- A server that is on lists a pattern twice, or the workers are on and listed twice.
abbrev pub has_duplicates : ServerOpts → List AppOption → Bool
has_duplicates o ps = any serves_twice ps || (workers_twice ps && not o.worker_disabled)

pub or_false : (x y : Bool) → (x || y) ≡ false → (x ≡ false) × (y ≡ false)
or_false false y h = (refl, h)
or_false true y h = cc

module _ {R : Type 0} where
  -- the App of an outcome has a property
  abbrev pub Of : (App R → Type 0) → Result Failure (App R) → Type 0
  Of P (ok a) = P a
  Of P (err x) = Unit

  pub any_app : (r : Result Failure (App R)) → Of (λ b. Unit) r
  any_app (ok b) = tt
  any_app (err x) = tt

  pub Of-map :
      (P Q : App R → Type 0) (r : Result Failure (App R))
      → ((b : App R) → P b → Q b)
      → Of P r
      → Of Q r
  Of-map P Q (ok b) f h = f b h
  Of-map P Q (err x) f h = tt

  -- one step and then another that does not succeed
  pub then_fails :
      (P : App R → Type 0) (r : Result Failure (App R)) (f : App R → Result Failure (App R))
      (z : App R)
      → Of P r
      → ((b : App R) → P b → f b ≢ ok z)
      → (r >>= f) ≢ ok z
  then_fails P (ok b) f z h g e = g b h e
  then_fails P (err x) f z h g e = cc

  pub never_then :
      (r : Result Failure (App R)) (f : App R → Result Failure (App R)) (z : App R)
      → ((b : App R) → r ≢ ok b)
      → (r >>= f) ≢ ok z
  never_then (ok b) f z h e = h b refl
  never_then (err x) f z h e = cc

module _ {R : Type 0} (o : ServerOpts) (sdk : Sdk R) where
  -- An option other than the workers registers no gauge.
  pub apply_counted :
      (p : AppOption) (a : App R)
      → is_workers p ≡ false
      → Of (λ b. b.counted ≡ a.counted) (apply o sdk p a)
  unfolding apply init_consumers
  apply_counted (with_server at sets) a other =
      by_address (str_eq at "") (handler o sdk.audit_routes sets a.mids)
    where
      by_address :
          (empty : Bool) (h : Option (List Route × Option (List Mid)))
          → Of (λ b. b.counted ≡ a.counted) (if empty then ok a else served o sdk at h a)
      by_address true h = refl
      by_address false none = tt
      by_address false (some x) = refl
  apply_counted (with_grpc at) a other = by_address (str_eq at "")
    where
      by_address :
          (empty : Bool)
          → Of
              (λ b. b.counted ≡ a.counted)
              (if empty then ok a else ok (add_server o sdk (grpc_server at) a))
      by_address true = refl
      by_address false = refl
  apply_counted (with_gateway at grpc_at) a other =
      by_address (str_eq at "" || str_eq grpc_at "")
        (returned (sdk.build_gateway at (dial_target grpc_at)))
    where
      by_address :
          (off : Bool) (built : Result Failure (Unit {0}))
          → Of
              (λ b. b.counted ≡ a.counted)
              (if off
                then ok a
                else built >>= λ _. ok (add_server o sdk (gateway at (dial_target grpc_at)) a))
      by_address true built = refl
      by_address false (ok _) = refl
      by_address false (err x) = tt
  apply_counted with_workers a other = cc
  apply_counted with_settings a other = refl
  apply_counted with_consumers a other = by_switch (broker_enabled o) (returned sdk.consumer)
    where
      by_switch :
          (on : Bool) (c : Result Failure R)
          → Of (λ b. b.counted ≡ a.counted) (if on then c >>= add_consumer o sdk a else ok a)
      by_switch false c = refl
      by_switch true (ok r) = refl
      by_switch true (err x) = tt
