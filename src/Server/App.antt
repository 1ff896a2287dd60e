-- ===== src/Server/App.antt =====
-- internal/app/server/server.go and options.go: the App, the options that a command lists, New,
-- Runnables and Components.
use Prim.Native.Char.{code}
use Prim.Native.String.{String}
use skit_x.Common.{
  ℕ, ◌<>◌, Bool, true, false, Option, none, some, List, [], ◌∷◌, ◌++◌, map, Result, ok, err, ◌>>=◌,
  length, ◌==◌, str_eq, ◌||◌, if◌then◌else◌,
}
use skit_x.Dbx.{Error}
use skit_x.Server.Config.{ServerOpts, broker_enabled}
use skit_x.Server.Install.{RouteSet, handler}
use skit_x.Server.Routes.{Mid, Route}

-- listener: an HTTP server with its routes, the gRPC server, or the gateway with the address that
-- it dials.
pub data Listener : Type 0 where
  http_server : String → List Route → Listener
  grpc_server : String → Listener
  gateway : String → String → Listener

-- listener.Addr
abbrev pub addr : Listener → String
addr (http_server a routes) = a
addr (grpc_server a) = a
addr (gateway a target) = a

-- A call returns an error, or it panics.
pub data Failure : Type 0 where
  failed : Error → Failure
  panicked : Failure

abbrev pub returned : {A : Type 0} → Result Error A → Result Failure A
returned (ok a) = ok a
returned (err e) = err (failed e)

-- The field `opts` does not change and is an argument of the functions below;
-- `counted` says that the registry of metrics has the gauge of CountGauge.
pub record App (R : Type 0) : Type 0 where
  pub mids : Option (List Mid)
  pub servers : List Listener
  pub workers : List R
  pub consumers : List R
  pub counted : Bool

-- What the options call of the SDK and of the container, as it answers in this process: the workers
-- of the imports, the poller of the count, the rereads of the settings, the check of the event
-- routes, the workers of the events, the keeper of the partitions, the consumer, the dial of the
-- gateway, the initializers of Deps, and the error of closer.CloseSync joined to another.
pub record Sdk (R : Type 0) : Type 0 where
  pub import_workers : Result Error (List R)
  pub count_poller : R
  pub settings_reread : R
  pub check_events : Result Error (Unit {0})
  pub event_workers : Result Error (List R)
  pub partitions : Result Error R
  pub consumer : Result Error R
  pub build_gateway : String → String → Result Error (Unit {0})
  pub init_deps : Result Error (Unit {0})
  pub closed : Error → Error
  pub audit_routes : List Route

-- Option
pub data AppOption : Type 0 where
  with_server : String → List RouteSet → AppOption
  with_grpc : String → AppOption
  with_gateway : String → String → AppOption
  with_workers with_settings with_consumers : AppOption

-- dialTarget
unfoldable pub dial_target : String → String
dial_target String.[] = String.[]
dial_target (String.◌∷◌ c s) =
    if code c == b':' then "localhost" <> String.◌∷◌ c s else String.◌∷◌ c s

module _ {R : Type 0} (o : ServerOpts) (sdk : Sdk R) where
  abbrev pub add_server : Listener → App R → App R
  add_server l a = record a { servers = a.servers ++ l ∷ [] }

  abbrev pub add_workers : List R → App R → App R
  add_workers rs a = record a { workers = a.workers ++ rs }

  -- widget.CountGauge: the registry panics on a second gauge of the name.
  abbrev pub counting : App R → Result Failure (App R)
  counting a = if a.counted then err panicked else ok (record a { counted = true })

  -- the import and count workers
  abbrev pub domain_workers : App R → Result Failure (App R)
  domain_workers a =
      if o.worker_disabled
      then ok a
      else returned sdk.import_workers >>= λ imports.
          counting (add_workers (sdk.count_poller ∷ []) (add_workers imports a))

  abbrev pub published : App R → Result Failure (App R)
  published a = do
    _ ← returned sdk.check_events
    events ← returned sdk.event_workers
    keeper ← returned sdk.partitions
    ok (add_workers (keeper ∷ []) (add_workers events a))

  -- the event workers and the keeper of the partitions
  abbrev pub event_workers : App R → Result Failure (App R)
  event_workers a = if broker_enabled o then published a else ok a

  -- App.initWorkers
  unfoldable pub init_workers : App R → Result Failure (App R)
  init_workers a = domain_workers a >>= event_workers

  abbrev pub add_consumer : App R → R → Result Failure (App R)
  add_consumer a consumer = ok (record a { consumers = a.consumers ++ consumer ∷ [] })

  -- App.initConsumers
  unfoldable pub init_consumers : App R → Result Failure (App R)
  init_consumers a = if broker_enabled o then returned sdk.consumer >>= add_consumer a else ok a

  abbrev pub served :
      String → Option (List Route × Option (List Mid)) → App R → Result Failure (App R)
  served at none a = err panicked
  served at (some (routes, mids)) a =
      ok (add_server (http_server at routes) (record a { mids = mids }))

  -- WithServer, WithGRPC, WithGateway, WithWorkers, WithSettings, WithConsumers
  unfoldable pub apply : AppOption → App R → Result Failure (App R)
  unfolding init_workers init_consumers handler dial_target
  apply (with_server at sets) a =
      if str_eq at "" then ok a else served at (handler o sdk.audit_routes sets a.mids) a
  apply (with_grpc at) a = if str_eq at "" then ok a else ok (add_server (grpc_server at) a)
  apply (with_gateway at grpc_at) a =
      if str_eq at "" || str_eq grpc_at ""
      then ok a
      else returned (sdk.build_gateway at (dial_target grpc_at)) >>= λ _.
          ok (add_server (gateway at (dial_target grpc_at)) a)
  apply with_workers a = init_workers a
  apply with_settings a = ok (add_workers (sdk.settings_reread ∷ []) a)
  apply with_consumers a = init_consumers a

  -- the loop of New
  unfoldable pub apply_all : List AppOption → App R → Result Failure (App R)
  unfolding apply
  apply_all [] a = ok a
  apply_all (p ∷ ps) a = apply p a >>= apply_all ps

  -- newApp
  abbrev pub new_app : App R
  new_app = record { mids = none; servers = []; workers = []; consumers = []; counted = false }

  -- An error releases what the options have built; a panic goes through.
  abbrev pub closed_failure : Failure → Failure
  closed_failure (failed e) = failed (sdk.closed e)
  closed_failure panicked = panicked

  abbrev pub released : Result Failure (App R) → Result Failure (App R)
  released (ok a) = ok a
  released (err x) = err (closed_failure x)

  -- New
  unfoldable pub new : List AppOption → Result Failure (App R)
  new options = returned sdk.init_deps >>= λ _. released (apply_all options new_app)

-- What Runnables hands to app.Run.
pub data Runnable (R : Type 0) : Type 0 where
  listening : Listener → Runnable R
  working : R → Runnable R

-- App.Runnables
abbrev pub runnables : {R : Type 0} → App R → List (Runnable R)
runnables a = map listening a.servers ++ map working a.workers ++ map working a.consumers

pub record Components : Type 0 where
  pub servers : List String
  pub workers : ℕ
  pub consumers : ℕ

-- App.Components
abbrev pub components : {R : Type 0} → App R → Components
components a = record {
  servers = map addr a.servers;
  workers = length a.workers;
  consumers = length a.consumers;
}
