-- ===== src/Deps/Started.antt =====
-- The container after its initializers (internal/app/deps/deps.go): what resolves, and how the
-- start can fail.
use mathlib.Core.List.{append_assoc}
use skit_x.Common.{
  ◌≡◌, refl, ap, ◌∙◌, sym, Bool, true, false, ◌||◌, List, [], ◌∷◌, ◌++◌, Result, ok, err, ◌>>=◌,
  str_eq, if◌then◌else◌, Option, none, some,
}
use skit_x.Dbx.{Error, wrap}
use skit_x.Deps.{
  db, widget_settings, widget_grpc, verifier, verifier_of, Call, call, auth_verifier, Switches,
  switches, Deps, fresh, set, Fault, failed, each, called, resolve, depth, Outside, Cleanup,
  shutdown_telemetry, close_store, close_broker, close_translator, close_dedup, Initialized,
  Initializer, initializers, storage,
}
use skit_x.Deps.Uses.{
  install_calls, set_calls, sets_calls, worker_calls, consumer_calls, option_calls, count_calls,
}
use skit_x.Server.App.{
  AppOption, with_server, with_grpc, with_gateway, with_workers, with_settings, with_consumers,
}
use skit_x.Server.Config.{ServerOpts}
use skit_x.Server.Install.{RouteSet, install, debug, health, metrics_set, pprof, info}

-- The outcome of an initialization: the container with the cleanups in the order of registration.
abbrev pub Outcome : Type 0
Outcome = Result Fault (Deps × List Cleanup)

abbrev added : Option Cleanup → List Cleanup → List Cleanup
added none ks = ks
added (some k) ks = k ∷ ks

abbrev pub then_rest : (Deps → Outcome) → Initialized → Outcome
then_rest rest i = do (c, k) ← i; (end, ks) ← rest c; ok (end, added k ks)

-- What is assumed of app.InitDeps: it runs each initializer in order and registers its cleanup.
pub record RunsEach (init_deps : List Initializer → Deps → Outcome) : Type 0 where
  pub none_left : (c : Deps) → init_deps [] c ≡ ok (c, [])
  pub one_more :
      (i : Initializer) (is : List Initializer) (c : Deps)
      → init_deps (i ∷ is) c ≡ then_rest (init_deps is) (i c)

-- every call resolves, whatever builders run for it
abbrev pub Resolves : Deps → List Call → Type 0
Resolves c calls = each (resolve depth c) (called c calls) ≡ ok tt

abbrev pub cleanups : Switches → List Cleanup
cleanups s =
    shutdown_telemetry ∷ close_store ∷ (if s.broker then close_broker ∷ [] else [])
    ++ close_translator ∷ close_dedup ∷ []

-- The start ends with an error that came from outside, or with a container in which every option
-- of a command resolves all that it calls, and the cleanups of what was opened.
abbrev pub Started : ServerOpts → Outcome → Type 0
Started o (ok (c, ks)) =
    ((p : AppOption) → Resolves c (option_calls o p)) × (ks ≡ cleanups (switches o))
Started o (err f) = (e : Error) × (f ≡ failed e)

-- What the options need of the container, for given switches.
record Suffices (s : Switches) (c : Deps) : Type 0 where
  installs : Resolves c install_calls
  database : Resolves c (call db ∷ [])
  grpc : Resolves c (call widget_grpc ∷ [])
  settings : Resolves c (call widget_settings ∷ [])
  works : Resolves c (worker_calls false s.broker)
  works_less : Resolves c (worker_calls true s.broker)
  consumes : Resolves c (consumer_calls s.broker)

all_Suffice :
    {s : Switches} {c : Deps}
    → Resolves c install_calls
    → Resolves c (call db ∷ [])
    → Resolves c (call widget_grpc ∷ [])
    → Resolves c (call widget_settings ∷ [])
    → Resolves c (worker_calls false s.broker)
    → Resolves c (worker_calls true s.broker)
    → Resolves c (consumer_calls s.broker)
    → Suffices s c
all_Suffice i d g w on off k = record {
  installs = i;
  database = d;
  grpc = g;
  settings = w;
  works = on;
  works_less = off;
  consumes = k;
}

abbrev Filled : Switches → Outcome → Type 0
Filled s (ok (c, ks)) = Suffices s c × (ks ≡ cleanups s)
Filled s (err f) = (e : Error) × (f ≡ failed e)

-- The initializers one after another.
run_all : List Initializer → Deps → Outcome
run_all [] c = ok (c, [])
run_all (i ∷ is) c = then_rest (run_all is) (i c)

init_deps-run_all :
    (init_deps : List Initializer → Deps → Outcome)
    → RunsEach init_deps
    → (is : List Initializer) (c : Deps) → init_deps is c ≡ run_all is c
unfolding run_all
init_deps-run_all f h [] c = h.none_left c
init_deps-run_all f h (i ∷ is) c =
    h.one_more i is c ∙ continued (λ d. init_deps-run_all f h is d) (i c)
  where
    continued :
        ((d : Deps) → f is d ≡ run_all is d)
        → (r : Initialized) → then_rest (f is) r ≡ then_rest (run_all is) r
    continued rest (ok (c', k)) = rw (rest c')
    continued rest (err e) = refl

-- With the answers of the calls outside, and the switches, given one by one.
run_all-Filled :
    (exporter telemetry dialed published verified deduped : Result Error (Unit {0}))
    (on auth_on listening : Bool)
    → let s : Switches = record { broker = on; auth = auth_on; webhook_on = listening } in
      let out : Outside = record {
        new_exporter = exporter;
        new_telemetry = telemetry;
        dial = dialed;
        new_publisher = published;
        new_jwt_verifier = verified;
        new_dedup = deduped;
      } in
      Filled s (run_all (initializers out) (fresh s))
unfolding run_all resolve
run_all-Filled (err e) t d p v k on a w = (e, refl)
run_all-Filled (ok _) (err e) d p v k on a w = (e, refl)
run_all-Filled (ok _) (ok _) (err e) p v k true a w = (e, refl)
run_all-Filled (ok _) (ok _) (ok _) (err e) v k true a w = (e, refl)
run_all-Filled (ok _) (ok _) (ok _) (ok _) (err e) k true true w = (wrap "init auth" e, refl)
run_all-Filled (ok _) (ok _) (ok _) (ok _) (ok _) (err e) true true w = (wrap "init dedup" e, refl)
run_all-Filled (ok _) (ok _) (ok _) (ok _) (ok _) (ok _) true true w =
    (all_Suffice refl refl refl refl refl refl refl, refl)
run_all-Filled (ok _) (ok _) (ok _) (ok _) v (err e) true false w = (wrap "init dedup" e, refl)
run_all-Filled (ok _) (ok _) (ok _) (ok _) v (ok _) true false w =
    (all_Suffice refl refl refl refl refl refl refl, refl)
run_all-Filled (ok _) (ok _) d p (err e) k false true w = (wrap "init auth" e, refl)
run_all-Filled (ok _) (ok _) d p (ok _) (err e) false true w = (wrap "init dedup" e, refl)
run_all-Filled (ok _) (ok _) d p (ok _) (ok _) false true w =
    (all_Suffice refl refl refl refl refl refl refl, refl)
run_all-Filled (ok _) (ok _) d p v (err e) false false w = (wrap "init dedup" e, refl)
run_all-Filled (ok _) (ok _) d p v (ok _) false false w =
    (all_Suffice refl refl refl refl refl refl refl, refl)

called-append : (c : Deps) (xs ys : List Call) → called c (xs ++ ys) ≡ called c xs ++ called c ys
called-append c [] ys = refl
called-append c (call x ∷ xs) ys = ap (λ zs. x ∷ zs) (called-append c xs ys)
called-append c (auth_verifier ∷ xs) ys =
    rw (called-append c xs ys) (sym (append_assoc (verifier_of (c.provider verifier)) _ _))

each-append :
    {A : Type 0} (f : A → Result Fault (Unit {0})) (xs ys : List A)
    → each f (xs ++ ys) ≡ (each f xs >>= λ _. each f ys)
each-append f [] ys = refl
each-append f (x ∷ xs) ys = after (each-append f xs ys) (f x)
  where
    after :
        each f (xs ++ ys) ≡ (each f xs >>= λ _. each f ys)
        → (r : Result Fault (Unit {0}))
        → (r >>= λ _. each f (xs ++ ys)) ≡ ((r >>= λ _. each f xs) >>= λ _. each f ys)
    after rest (ok _) = rest
    after rest (err e) = refl

Resolves-append :
    (c : Deps) (xs ys : List Call) → Resolves c xs → Resolves c ys → Resolves c (xs ++ ys)
Resolves-append c xs ys h k =
    rw (called-append c xs ys)
      (rw (each-append (resolve depth c) (called c xs) (called c ys)) (rw h k))

module _ (o : ServerOpts) (c : Deps) (h : Suffices (switches o) c) where
  set-Resolves : (set : RouteSet) → Resolves c (set_calls set)
  set-Resolves install = h.installs
  set-Resolves debug = h.database
  set-Resolves health = h.database
  set-Resolves metrics_set = refl
  set-Resolves pprof = refl
  set-Resolves info = refl

  sets_resolve : (sets : List RouteSet) → Resolves c (sets_calls sets)
  sets_resolve [] = refl
  sets_resolve (set ∷ sets) =
      Resolves-append c (set_calls set) (sets_calls sets) (set-Resolves set) (sets_resolve sets)

  unless : (b : Bool) (calls : List Call) → Resolves c calls → Resolves c (if b then [] else calls)
  unless true calls k = refl
  unless false calls k = k

  workers_resolve : (off : Bool) → Resolves c (worker_calls off (switches o).broker)
  workers_resolve true = h.works_less
  workers_resolve false = h.works

  option-Resolves : (p : AppOption) → Resolves c (option_calls o p)
  option-Resolves (with_server at sets) =
      unless (str_eq at "") (sets_calls sets) (sets_resolve sets)
  option-Resolves (with_grpc at) = unless (str_eq at "") (call widget_grpc ∷ []) h.grpc
  option-Resolves (with_gateway at grpc_at) =
      unless (str_eq at "" || str_eq grpc_at "") (call widget_grpc ∷ []) h.grpc
  option-Resolves with_workers = workers_resolve o.worker_disabled
  option-Resolves with_settings = h.settings
  option-Resolves with_consumers = h.consumes

Filled-Started : (o : ServerOpts) (r : Outcome) → Filled (switches o) r → Started o r
Filled-Started o (ok (c, ks)) (h, k) = (option-Resolves o c h, k)
Filled-Started o (err f) h = h

-- For any configuration, and whatever the calls outside answer: the initializers in their order end
-- with an error that came from outside, or fill the container so that every part a command can list
-- resolves all the providers it calls: no builder and no option meets a nil provider, and five
-- builders are open at most. The cleanups registered are those of what was opened. The initializers
-- of Storage alone cannot fail, and resolve what the command count calls. InitDeps is assumed to
-- run each initializer in order, and a builder that resolves what it calls to succeed.
pub init_deps-Started :
    (init_deps : List Initializer → Deps → Outcome)
    → RunsEach init_deps
    → (o : ServerOpts) (out : Outside)
    → Started o (init_deps (initializers out) (fresh (switches o)))
      × ((c : Deps) × (init_deps (storage out) (fresh (switches o)) ≡ ok (c, close_store ∷ []))
          × Resolves c count_calls)
unfolding run_all resolve
init_deps-Started f h o out = (
  rw (init_deps-run_all f h (initializers out) (fresh (switches o))) (
      Filled-Started o _ (
        run_all-Filled out.new_exporter out.new_telemetry out.dial out.new_publisher
          out.new_jwt_verifier out.new_dedup _ _ _)),
  (set db [] (fresh (switches o)), init_deps-run_all f h (storage out) (fresh (switches o)), refl),
)
