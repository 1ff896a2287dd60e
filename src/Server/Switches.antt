-- ===== src/Server/Switches.antt =====
-- New (internal/app/server/server.go) makes of a list of options what each of them adds.
use skit_x.Common.{
  arith, not, ◌&&◌, ◌≢◌, String, ◌≡◌, refl, ap, ◌∙◌, any, inl, inr, Bool-cases, Bool, true, false,
  List, [], ◌∷◌, Result, ok, err, ok-injective, ◌>>=◌, str_eq, ◌||◌, if◌then◌else◌,
}
use skit_x.Server.App.{
  App, Sdk, Failure, returned, AppOption, with_server, with_grpc, with_gateway, with_workers,
  with_settings, with_consumers, dial_target, init_workers, domain_workers, event_workers, apply,
  apply_all, new, new_app, released, closed_failure, served,
}
use skit_x.Server.Config.{ServerOpts}
use skit_x.Server.Install.{RouteSet, clashing, handler}
use skit_x.Server.Duplicates.{
  serves_twice, is_workers, workers_twice, has_duplicates, or_false, Of, any_app, apply_counted,
}
use skit_x.Server.Panics.{new-duplicates}
use skit_x.Server.Parts.{
  Parts, nothing, both, parts_of, listening_on, domain_part, event_part, part, parts, viewed, added,
  both_assoc,
}
use skit_x.Server.Adds.{
  unserved, working_part, gateway-part, domain-part, event-part, consumer-part, grpc-part,
  server-part, handler-some,
}

module _ {R : Type 0} (o : ServerOpts) (sdk : Sdk R) where
  -- one step and then another, viewed
  viewed->>= :
      (P : App R → Type 0) (r : Result Failure (App R)) (f : App R → Result Failure (App R))
      (x y : Result Failure (Parts R)) (a : App R)
      → viewed r ≡ added a x
      → Of P r
      → ((b : App R) → P b → viewed (f b) ≡ added b y)
      → viewed (r >>= f) ≡ added a (x >>= λ p. y >>= λ q. ok (both p q))
  viewed->>= P (err z) f (err w) y a h has g = cc
  viewed->>= P (err z) f (ok p) y a h has g = cc
  viewed->>= P (ok b) f (err w) y a h has g = cc
  viewed->>= P (ok b) f (ok p) y a h has g =
      g b has ∙ by_rest y (ok-injective {E = Failure} (parts_of b) (both (parts_of a) p) h)
    where
      by_rest :
          (y : Result Failure (Parts R))
          → parts_of b ≡ both (parts_of a) p
          → added b y ≡ added a (y >>= λ q. ok (both p q))
      by_rest (err x) e = refl
      by_rest (ok q) e = ap ok (ap (λ v. both v q) e ∙ both_assoc (parts_of a) p q)

  served-part :
      (empty : Bool) (at : String) (sets : List RouteSet) (a : App R)
      → (clashing sets && not empty) ≡ false
      → viewed (if empty then ok a else served o sdk at (handler o sdk.audit_routes sets a.mids) a)
        ≡ added a (ok (if empty then nothing else listening_on at))
  served-part true at sets a h = unserved o sdk a
  served-part false at sets a h =
      server-part o sdk false at _ _ a (handler-some o sdk sets a.mids (ground (arith, h)))

  -- An option that does not panic: its server has no pattern twice, and the gauge of workers that
  -- are on is not registered yet.
  apply-part :
      (p : AppOption) (a : App R)
      → serves_twice p ≡ false
      → (is_workers p ≡ true → o.worker_disabled ≡ false → a.counted ≡ false)
      → viewed (apply o sdk p a) ≡ added a (part o sdk p)
  unfolding apply init_workers
  apply-part (with_server at sets) a free first = served-part (str_eq at "") at sets a free
  apply-part (with_grpc at) a free first = grpc-part o sdk (str_eq at "") at a
  apply-part (with_gateway at grpc_at) a free first =
      gateway-part o sdk (str_eq at "" || str_eq grpc_at "") at (dial_target grpc_at)
        (returned (sdk.build_gateway at (dial_target grpc_at))) a
  apply-part with_workers a free first =
      viewed->>= (λ b. Unit) (domain_workers o sdk a) (event_workers o sdk) (domain_part o sdk)
        (event_part o sdk) a (domain-part o sdk a (first refl)) (any_app (domain_workers o sdk a))
        (λ b u. event-part o sdk b)
  apply-part with_settings a free first = ap ok (working_part o sdk (sdk.settings_reread ∷ []) a)
  apply-part with_consumers a free first = consumer-part o sdk a

  -- a list without workers that are on, on any App
  apply_all-rest :
      (ps : List AppOption) (a : App R)
      → any serves_twice ps ≡ false
      → (o.worker_disabled ≡ false → any is_workers ps ≡ false)
      → viewed (apply_all o sdk ps a) ≡ added a (parts o sdk ps)
  unfolding apply_all
  apply_all-rest [] a free others = unserved o sdk a
  apply_all-rest (p ∷ ps) a free others =
      let (own, rest) = or_false (serves_twice p) (any serves_twice ps) free in
      let split = λ (on : o.worker_disabled ≡ false).
        or_false (is_workers p) (any is_workers ps) (others on) in
      viewed->>= (λ b. Unit) (apply o sdk p a) (apply_all o sdk ps) (part o sdk p) (parts o sdk ps)
        a (apply-part p a own (λ e on. cc (e, (split on).0))) (any_app (apply o sdk p a))
        (λ b u. apply_all-rest ps b rest (λ on. (split on).1))

  apply_all-parts :
      (ps : List AppOption) (a : App R)
      → any serves_twice ps ≡ false
      → (o.worker_disabled ≡ false → workers_twice ps ≡ false)
      → a.counted ≡ false
      → viewed (apply_all o sdk ps a) ≡ added a (parts o sdk ps)
  unfolding apply_all
  apply_all-parts [] a free once first = unserved o sdk a
  apply_all-parts (p ∷ ps) a free once first =
      let (own, rest) = or_false (serves_twice p) (any serves_twice ps) free in
      elim (Bool-cases (is_workers p)) [
        | inl e ↦
            viewed->>= (λ b. Unit) (apply o sdk p a) (apply_all o sdk ps) (part o sdk p)
              (parts o sdk ps) a (apply-part p a own (λ _ _. first)) (any_app (apply o sdk p a))
              (λ b u. apply_all-rest ps b rest (λ on. (let twice = once on in rw e at twice)))
        | inr e ↦
            viewed->>= (λ b. b.counted ≡ a.counted) (apply o sdk p a) (apply_all o sdk ps)
              (part o sdk p) (parts o sdk ps) a (apply-part p a own (λ _ _. first))
              (apply_counted o sdk p a e)
              (λ b same.
                apply_all-parts ps b rest (λ on. (let twice = once on in rw e at twice))
                  (same ∙ first))
      ]

  -- New gives up with what it has built released.
  abbrev pub closing : Result Failure (Parts R) → Result Failure (Parts R)
  closing (ok p) = ok p
  closing (err x) = err (closed_failure o sdk x)

  released_view :
      (r : Result Failure (App R)) (x : Result Failure (Parts R))
      → viewed r ≡ x
      → viewed (released o sdk r) ≡ closing x
  released_view (ok a) x h = ap closing h
  released_view (err z) x h = ap closing h

  added_to_none : (x : Result Failure (Parts R)) → added (new_app o sdk) x ≡ x
  added_to_none (ok p) = refl
  added_to_none (err e) = refl

  -- a list without duplicates
  pub new_unique :
      (options : List AppOption)
      → has_duplicates o options ≡ false
      → viewed (new o sdk options) ≡ (returned sdk.init_deps >>= λ _. closing (parts o sdk options))
  unfolding new
  new_unique options unique =
      let (free, once) = or_false (any serves_twice options) _ unique in
      by_init (returned sdk.init_deps) free
        (λ on. unless_off (workers_twice options) o.worker_disabled once on)
    where
      unless_off : (w d : Bool) → (w && not d) ≡ false → d ≡ false → w ≡ false
      unless_off false d h on = refl
      unless_off true false h on = cc
      unless_off true true h on = cc

      by_init :
          (r : Result Failure (Unit {0}))
          → any serves_twice options ≡ false
          → (o.worker_disabled ≡ false → workers_twice options ≡ false)
          → viewed (r >>= λ _. released o sdk (apply_all o sdk options (new_app o sdk)))
            ≡ (r >>= λ _. closing (parts o sdk options))
      by_init (err x) free once = refl
      by_init (ok _) free once =
          released_view (apply_all o sdk options (new_app o sdk)) (parts o sdk options) (
            apply_all-parts options (new_app o sdk) free once refl
            ∙ added_to_none (parts o sdk options))

  -- What New makes of a list, by whether it has duplicates.
  abbrev pub Built : List AppOption → Bool → Type 0
  Built options false =
      viewed (new o sdk options) ≡ (returned sdk.init_deps >>= λ _. closing (parts o sdk options))
  Built options true = (a : App R) → new o sdk options ≢ ok a

  -- For a list of options with no pattern twice on a server with an address, and with the workers
  -- once at most where they are on, the App that New builds listens where the options say, in their
  -- order, and has the workers and the consumers that they add, by the switches alone and whatever
  -- else is in the list; it fails with the first of them that fails, after a release of the
  -- resources, or before them all with the initializers. On any other list New builds no App.
  pub new-parts : (options : List AppOption) → Built options (has_duplicates o options)
  new-parts options = by_list (has_duplicates o options) refl
    where
      by_list : (b : Bool) → has_duplicates o options ≡ b → Built options b
      by_list false unique = new_unique options unique
      by_list true twice = λ a. new-duplicates o sdk options a twice
