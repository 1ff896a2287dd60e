-- ===== src/Deps.antt =====
-- internal/app/deps: the container, its lazy providers and the initializers that fill it. What is
-- behind the calls of the SDK in them is in `Outside`.
pub mod Uses
pub mod Started
use skit_x.Common.{
  ℕ, zero, suc, String, Bool, Option, none, some, List, [], ◌∷◌, ◌++◌, Result, ok, err, ◌>>=◌, ◌==◌,
  if◌then◌else◌,
}
use skit_x.Dbx.{Error, wrap}
use skit_x.Server.Config.{ServerOpts, broker_enabled, auth_enabled, webhook_enabled}

-- The provider fields of Deps.
pub data Dep : Type 0 where
  db queue registry broker_conn publisher events translator translation verifier bus : Dep
  audit_log dedup widget_settings widget_core widget_import widget_count widget_handler : Dep
  widget_grpc user_core user_handler product_core product_handler : Dep

abbrev index : Dep → ℕ
index db = 0
index queue = 1
index registry = 2
index broker_conn = 3
index publisher = 4
index events = 5
index translator = 6
index translation = 7
index verifier = 8
index bus = 9
index audit_log = 10
index dedup = 11
index widget_settings = 12
index widget_core = 13
index widget_import = 14
index widget_count = 15
index widget_handler = 16
index widget_grpc = 17
index user_core = 18
index user_handler = 19
index product_core = 20
index product_handler = 21

-- What a builder calls of the container: a provider, or AuthVerifier.
pub data Call : Type 0 where
  call : Dep → Call
  auth_verifier : Call

-- Who listens on the bus: the notifier of the webhook and the recorder of the audit log.
pub data Listens : Type 0 where
  webhook audit : Listens

-- The switches of Opts that the initializers read.
pub record Switches : Type 0 where
  pub broker : Bool
  pub auth : Bool
  pub webhook_on : Bool

abbrev pub switches : ServerOpts → Switches
switches o = record {
  broker = broker_enabled o;
  auth = auth_enabled o;
  webhook_on = webhook_enabled o;
}

-- Deps: a provider that is nil is `none`, another one is what its builder calls, in order.
pub record Deps : Type 0 where
  pub opts : Switches
  pub provider : Dep → Option (List Call)
  pub listens : List Listens

abbrev pub fresh : Switches → Deps
fresh s = record { opts = s; provider = λ x. none; listens = [] }

-- an assignment to a field
abbrev pub set : Dep → List Call → Deps → Deps
set x calls c = record c { provider = λ y. if index y == index x then some calls else c.provider y }

-- What ends an initializer: the call of a nil provider, which panics, a resolution deeper than the
-- bound, or an error.
pub data Fault : Type 0 where
  nil_provider : Dep → Fault
  too_deep : Fault
  failed : Error → Fault

-- Deps.AuthVerifier: the provider, unless it is nil
abbrev pub verifier_of : Option (List Call) → List Dep
verifier_of none = []
verifier_of (some calls) = verifier ∷ []

abbrev pub called : Deps → List Call → List Dep
called c [] = []
called c (call x ∷ calls) = x ∷ called c calls
called c (auth_verifier ∷ calls) = verifier_of (c.provider verifier) ++ called c calls

abbrev pub each {ℓ} :
    {A : Type ℓ} → (A → Result Fault (Unit {0})) → List A → Result Fault (Unit {0})
each f [] = ok tt
each f (x ∷ xs) = f x >>= λ _. each f xs

abbrev built :
    Dep → (List Dep → Result Fault (Unit {0})) → Deps → Option (List Call) → Result Fault (Unit {0})
built x next c none = err (nil_provider x)
built x next c (some calls) = next (called c calls)

-- A call of a provider at its first use: its builder runs, and resolves what it calls. The fuel
-- counts the builders that are open.
unfoldable pub resolve : ℕ → Deps → Dep → Result Fault (Unit {0})
resolve zero c x = err too_deep
resolve (suc n) c x = built x (each (resolve n c)) c (c.provider x)

-- Five builders are open at most: a handler, the poller of the count, the widget Core, the queue
-- and the database.
abbrev pub depth : ℕ
depth = 5

-- What the calls outside the container answer while it is filled: otlp.NewExporter, setup.New,
-- rabbitmq.Dial and NewPublisher, auth.NewJWTVerifier, dedup.New.
pub record Outside : Type 0 where
  pub new_exporter : Result Error (Unit {0})
  pub new_telemetry : Result Error (Unit {0})
  pub dial : Result Error (Unit {0})
  pub new_publisher : Result Error (Unit {0})
  pub new_jwt_verifier : Result Error (Unit {0})
  pub new_dedup : Result Error (Unit {0})

abbrev outside : Result Error (Unit {0}) → Result Fault (Unit {0})
outside (ok _) = ok tt
outside (err e) = err (failed e)

abbrev wrapped_as : String → Result Error (Unit {0}) → Result Fault (Unit {0})
wrapped_as prefix (ok _) = ok tt
wrapped_as prefix (err e) = err (failed (wrap prefix e))

-- The cleanups that initializers return.
pub data Cleanup : Type 0 where
  shutdown_telemetry close_store close_broker close_translator close_dedup : Cleanup

abbrev pub Initialized : Type 0
Initialized = Result Fault (Deps × Option Cleanup)

abbrev pub Initializer : Type 0
Initializer = Deps → Initialized

abbrev provides : Dep → List Call → Initializer
provides x calls c = ok (set x calls c, none)

module _ (out : Outside) where
  abbrev pub init_telemetry : Initializer
  init_telemetry c = do
    _ ← outside out.new_exporter
    _ ← outside out.new_telemetry
    ok (c, some shutdown_telemetry)

  abbrev pub init_store : Initializer
  init_store c = ok (set db [] c, some close_store)

  abbrev pub init_queue : Initializer
  init_queue c = ok (set registry [] (set queue (call db ∷ []) c), none)

  abbrev dial_broker : Initializer
  dial_broker c = do
    _ ← outside out.dial
    _ ← outside out.new_publisher
    ok (set events [] (set publisher [] (set broker_conn [] c)), some close_broker)

  -- With the broker off its providers stay nil.
  abbrev pub init_broker : Initializer
  init_broker c = if c.opts.broker then dial_broker c else ok (c, none)

  abbrev pub init_translator : Initializer
  init_translator c = ok (set translator [] c, some close_translator)

  abbrev pub init_translation : Initializer
  init_translation = provides translation (call db ∷ [])

  abbrev new_verifier : Initializer
  new_verifier c = do _ ← wrapped_as "init auth" out.new_jwt_verifier; ok (set verifier [] c, none)

  abbrev pub init_auth : Initializer
  init_auth c = if c.opts.auth then new_verifier c else ok (c, none)

  abbrev pub init_bus : Initializer
  init_bus c =
      let listening = if c.opts.webhook_on then webhook ∷ c.listens else c.listens in
      ok (set bus [] (record c { listens = listening }), none)

  -- The bus and the audit log are resolved at once.
  abbrev pub init_audit_log : Initializer
  init_audit_log c = do
    let c' = set audit_log (call db ∷ []) c
    _ ← each (resolve depth c') (bus ∷ audit_log ∷ [])
    ok (record c' { listens = audit ∷ c'.listens }, none)

  abbrev pub init_dedup : Initializer
  init_dedup c = do _ ← wrapped_as "init dedup" out.new_dedup; ok (set dedup [] c, some close_dedup)

  abbrev pub init_widget_settings : Initializer
  init_widget_settings = provides widget_settings (call db ∷ [])

  -- Deps.Tasks
  abbrev pub tasks : List Call
  tasks = call queue ∷ call registry ∷ []

  abbrev pub init_widget_core : Initializer
  init_widget_core = provides widget_core (call db ∷ tasks ++ call bus ∷ call widget_settings ∷ [])

  abbrev pub init_widget_import : Initializer
  init_widget_import = provides widget_import (call db ∷ call widget_settings ∷ call queue ∷ [])

  abbrev pub init_widget_count : Initializer
  init_widget_count = provides widget_count (call widget_core ∷ [])

  abbrev pub init_widget_handler : Initializer
  init_widget_handler = provides widget_handler (
      call widget_core
      ∷ call widget_import
      ∷ call widget_count
      ∷ call widget_settings
      ∷ call translation
      ∷ auth_verifier
      ∷ [])

  abbrev pub init_widget_grpc : Initializer
  init_widget_grpc = provides widget_grpc (call widget_core ∷ [])

  abbrev pub init_user_core : Initializer
  init_user_core = provides user_core (call db ∷ [])

  abbrev pub init_user_handler : Initializer
  init_user_handler = provides user_handler (call user_core ∷ auth_verifier ∷ [])

  abbrev pub init_product_core : Initializer
  init_product_core = provides product_core (call db ∷ [])

  abbrev pub init_product_handler : Initializer
  init_product_handler = provides product_handler (call product_core ∷ [])

  -- Initializers
  abbrev pub initializers : List Initializer
  initializers =
      init_telemetry ∷ init_store ∷ init_queue ∷ init_broker ∷ init_translator ∷ init_translation
      ∷ init_auth ∷ init_bus ∷ init_audit_log ∷ init_dedup ∷ init_widget_settings ∷ init_widget_core
      ∷ init_widget_import ∷ init_widget_count ∷ init_user_core ∷ init_product_core
      ∷ init_widget_handler ∷ init_widget_grpc ∷ init_user_handler ∷ init_product_handler ∷ []

  -- Storage
  abbrev pub storage : List Initializer
  storage = init_store ∷ []
