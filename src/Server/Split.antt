-- ===== src/Server/Split.antt =====
-- serve against http, worker and consumer (internal/cmd).
use mathlib.Core.List.{append-nil, append_assoc}
use skit_x.Common.{
  String, ◌≡◌, refl, ap, ◌∙◌, Bool, true, false, List, [], ◌∷◌, ◌++◌, Result, ok, err, ◌>>=◌,
  str_eq, if◌then◌else◌, ◌||◌, All,
}
use skit_x.Server.App.{
  Sdk, Failure, returned, AppOption, new, with_workers, with_consumers, dial_target,
}
use skit_x.Server.Commands.{http_options, worker_options, consumer_options, serve_options, run}
use skit_x.Server.Config.{ServerOpts, validate, broker_enabled}
use skit_x.Server.Parts.{
  Parts, nothing, both, listening_on, working, parts, part, viewed, domain_part, event_part,
}
use skit_x.Server.Switches.{closing, new_unique}
use skit_x.Server.Duplicates.{has_duplicates}

module _ {R : Type 0} (o : ServerOpts) (sdk : Sdk R) where
  run-parts :
      (ps : List AppOption)
      → has_duplicates o ps ≡ false
      → viewed (run o sdk ps) ≡ (
          returned (validate o) >>= λ _.
          returned sdk.init_deps >>= λ _. closing o sdk (parts o sdk ps))
  unfolding run
  run-parts ps unique = by_options (returned (validate o))
    where
      by_options :
          (r : Result Failure (Unit {0}))
          → viewed (r >>= λ _. new o sdk ps)
            ≡ (r >>= λ _. returned sdk.init_deps >>= λ _. closing o sdk (parts o sdk ps))
      by_options (err x) = refl
      by_options (ok _) = new_unique o sdk ps unique

  -- The parts of one process that does what an http, a worker and a consumer process do.
  abbrev pub joined : Parts R → Parts R → Parts R → Parts R
  joined h w c = record { listens = h.listens; works = h.works ++ w.works; consumes = c.consumes }

  -- `p` has no part of the other kinds.
  abbrev OnlyWorks : Parts R → Type 0
  OnlyWorks p = (p.listens ≡ []) × (p.consumes ≡ [])

  abbrev OnlyConsumes : Parts R → Type 0
  OnlyConsumes p = (p.listens ≡ []) × (p.works ≡ [])

  abbrev Of : (Parts R → Type 0) → Result Failure (Parts R) → Type 0
  Of P (ok p) = P p
  Of P (err e) = Unit

  abbrev started :
      Result Failure (Unit {0})
      → Result Failure (Unit {0})
      → Result Failure (Parts R)
      → Result Failure (Parts R)
  started v i r = v >>= λ _. i >>= λ _. closing o sdk r

  abbrev then_parts : Result Failure (Parts R) → Result Failure (Parts R) → Result Failure (Parts R)
  then_parts x y = x >>= λ p. y >>= λ rest. ok (both p rest)

  split_results :
      (v i : Result Failure (Unit {0})) (h w c : Result Failure (Parts R)) (at : Parts R)
      → at.works ≡ []
      → at.consumes ≡ []
      → Of (λ p. p.consumes ≡ []) h
      → Of OnlyWorks w
      → Of OnlyConsumes c
      → started v i (then_parts h (then_parts w (then_parts c (ok nothing)))) ≡ (
          started v i h >>= λ p.
          started v i (then_parts (ok at) (then_parts w (ok nothing))) >>= λ q.
          started v i (then_parts (ok at) (then_parts c (ok nothing))) >>= λ r. ok (joined p q r))
  split_results (err x) i h w c at aw ac hc wl cl = refl
  split_results (ok _) (err x) h w c at aw ac hc wl cl = refl
  split_results (ok _) (ok _) (err x) w c at aw ac hc wl cl = refl
  split_results (ok _) (ok _) (ok h) (err x) c at aw ac hc wl cl = refl
  split_results (ok _) (ok _) (ok h) (ok w) (err x) at aw ac hc wl cl = refl
  split_results (ok _) (ok _) (ok h) (ok w) (ok c) at aw ac hc (wl, wc) (cl, cw) =
      rw (aw, ac, hc, wl, wc, cl, cw) (simp (append-nil))

  parts-append :
      (ps qs : List AppOption)
      → parts o sdk (ps ++ qs) ≡ then_parts (parts o sdk ps) (parts o sdk qs)
  parts-append [] qs = by_rest (parts o sdk qs)
    where
      by_rest : (r : Result Failure (Parts R)) → r ≡ then_parts (ok nothing) r
      by_rest (ok p) = refl
      by_rest (err e) = refl
  parts-append (p ∷ ps) qs =
      ap (then_parts (part o sdk p)) (parts-append ps qs)
      ∙ assoc (part o sdk p) (parts o sdk ps) (parts o sdk qs)
    where
      assoc :
          (x y z : Result Failure (Parts R))
          → then_parts x (then_parts y z) ≡ then_parts (then_parts x y) z
      assoc (err e) y z = refl
      assoc (ok a) (err e) z = refl
      assoc (ok a) (ok b) (err e) = refl
      assoc (ok a) (ok b) (ok c) = ap ok (simp append_assoc)

  abbrev Consumeless : Parts R → Type 0
  Consumeless p = p.consumes ≡ []

  then_parts-Consumeless :
      (x y : Result Failure (Parts R))
      → Of Consumeless x
      → Of Consumeless y
      → Of Consumeless (then_parts x y)
  then_parts-Consumeless (err e) y h k = tt
  then_parts-Consumeless (ok a) (err e) h k = tt
  then_parts-Consumeless (ok a) (ok b) h k = rw (h, k)

  served-Consumeless :
      (empty : Bool) (at : String)
      → Of Consumeless (ok (if empty then nothing else listening_on at))
  served-Consumeless true at = refl
  served-Consumeless false at = refl

  gateway-Consumeless :
      (off : Bool) (at : String) (built : Result Failure (Unit {0}))
      → Of Consumeless (if off then ok nothing else built >>= λ _. ok (listening_on at))
  gateway-Consumeless true at built = refl
  gateway-Consumeless false at (ok _) = refl
  gateway-Consumeless false at (err e) = tt

  parts-Consumeless :
      (ps : List AppOption)
      → All (λ p. Of Consumeless (part o sdk p)) ps
      → Of Consumeless (parts o sdk ps)
  parts-Consumeless [] h = refl
  parts-Consumeless (p ∷ ps) (h, hs) =
      then_parts-Consumeless (part o sdk p) (parts o sdk ps) h (parts-Consumeless ps hs)

  http-Consumeless : Of Consumeless (parts o sdk (http_options o))
  http-Consumeless =
      let first = served-Consumeless (str_eq o.http_addr "") o.http_addr in
      let second = served-Consumeless (str_eq o.grpc_addr "") o.grpc_addr in
      let third =
        gateway-Consumeless (str_eq o.gateway_addr "" || str_eq o.grpc_addr "") o.gateway_addr
          (returned (sdk.build_gateway o.gateway_addr (dial_target o.grpc_addr))) in
      let last = served-Consumeless (str_eq o.debug_addr "") o.debug_addr in
      parts-Consumeless (http_options o) (first, (second, (third, (refl, (last, tt)))))

  domain-OnlyWorks :
      (off : Bool) (imports : Result Failure (List R))
      → Of OnlyWorks
          (if off then ok nothing else imports >>= λ ws. ok (working (ws ++ sdk.count_poller ∷ [])))
  domain-OnlyWorks true imports = (refl, refl)
  domain-OnlyWorks false (ok ws) = (refl, refl)
  domain-OnlyWorks false (err e) = tt

  event-OnlyWorks :
      (on : Bool) (checked : Result Failure (Unit {0})) (events : Result Failure (List R))
      (keeper : Result Failure R)
      → Of OnlyWorks (
          if on
          then (checked >>= λ _. events >>= λ ws. keeper >>= λ k. ok (working (ws ++ k ∷ [])))
          else ok nothing)
  event-OnlyWorks false checked events keeper = (refl, refl)
  event-OnlyWorks true (err x) events keeper = tt
  event-OnlyWorks true (ok _) (err x) keeper = tt
  event-OnlyWorks true (ok _) (ok ws) (err x) = tt
  event-OnlyWorks true (ok _) (ok ws) (ok k) = (refl, refl)

  then_parts-OnlyWorks :
      (x y : Result Failure (Parts R))
      → Of OnlyWorks x
      → Of OnlyWorks y
      → Of OnlyWorks (then_parts x y)
  then_parts-OnlyWorks (err e) y h k = tt
  then_parts-OnlyWorks (ok a) (err e) h k = tt
  then_parts-OnlyWorks (ok a) (ok b) (h, h') (k, k') = (rw (h, k), rw (h', k'))

  workers-OnlyWorks : Of OnlyWorks (part o sdk with_workers)
  workers-OnlyWorks =
      then_parts-OnlyWorks (domain_part o sdk) (event_part o sdk)
        (domain-OnlyWorks o.worker_disabled (returned sdk.import_workers))
        (event-OnlyWorks (broker_enabled o) (returned sdk.check_events) (returned sdk.event_workers)
          (returned sdk.partitions))

  consumers-OnlyConsumes : Of OnlyConsumes (part o sdk with_consumers)
  consumers-OnlyConsumes = by_switch (broker_enabled o) (returned sdk.consumer)
    where
      by_switch :
          (on : Bool) (c : Result Failure R)
          → Of OnlyConsumes (
              if on
              then (c >>= λ r. ok (record { listens = []; works = []; consumes = r ∷ [] }))
              else ok nothing)
      by_switch false c = (refl, refl)
      by_switch true (ok r) = (refl, refl)
      by_switch true (err e) = tt

  abbrev technical : Parts R
  technical = if str_eq o.debug_addr "" then nothing else listening_on o.debug_addr

  technical_works :
      (empty : Bool) (at : String)
      → let p : Parts R = if empty then nothing else listening_on at in
        (p.works ≡ []) × (p.consumes ≡ [])
  technical_works true at = (refl, refl)
  technical_works false at = (refl, refl)

  -- One process of `serve` is the processes of `http`, `worker` and `consumer` in one, under the
  -- same configuration and with the same answers of the libraries: it starts exactly when the three
  -- start, listens where the http one does, has the workers of the http one and then those of the
  -- worker one, and the consumers of the consumer one; and where one of the three fails it fails
  -- with the error of the first that does.
  pub serve_is_split : viewed (run o sdk (serve_options o)) ≡ (
      viewed (run o sdk (http_options o)) >>= λ h. viewed (run o sdk (worker_options o)) >>= λ w.
      viewed (run o sdk (consumer_options o)) >>= λ c. ok (joined h w c))
  serve_is_split =
      let (aw, ac) = technical_works (str_eq o.debug_addr "") o.debug_addr in
      rw
        (
          run-parts (serve_options o) refl,
          run-parts (http_options o) refl,
          run-parts (worker_options o) refl,
          run-parts (consumer_options o) refl,
        )
        (ap (started (returned (validate o)) (returned sdk.init_deps))
            (parts-append (http_options o) (with_workers ∷ with_consumers ∷ []))
          ∙ split_results (returned (validate o)) (returned sdk.init_deps)
              (parts o sdk (http_options o)) (part o sdk with_workers) (part o sdk with_consumers)
              technical aw ac http-Consumeless workers-OnlyWorks consumers-OnlyConsumes)
