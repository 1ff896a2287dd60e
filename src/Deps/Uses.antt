-- ===== src/Deps/Uses.antt =====
-- The providers of the container that the options of internal/app/server resolve (options.go,
-- routes.go, server.go), and those that `count` resolves (internal/cmd/count.go).
use skit_x.Common.{Bool, List, [], ◌∷◌, ◌++◌, str_eq, ◌||◌, if◌then◌else◌}
use skit_x.Deps.{
  db, queue, registry, broker_conn, events, translator, translation, audit_log, dedup,
  widget_settings, widget_import, widget_count, widget_handler, widget_grpc, user_handler,
  product_handler, Call, call, auth_verifier,
}
use skit_x.Server.App.{
  AppOption, with_server, with_grpc, with_gateway, with_workers, with_settings, with_consumers,
}
use skit_x.Server.Config.{ServerOpts, broker_enabled}
use skit_x.Server.Install.{RouteSet, install, debug, health, metrics_set, pprof, info}

-- App.appMids at its first call, then the rest of Install
abbrev pub install_calls : List Call
install_calls =
    call translator
    ∷ call translation
    ∷ auth_verifier
    ∷ call widget_handler
    ∷ call user_handler
    ∷ call product_handler
    ∷ call dedup
    ∷ call audit_log
    ∷ call audit_log
    ∷ []

-- The check of /readyz resolves the database with the first request.
abbrev pub set_calls : RouteSet → List Call
set_calls install = install_calls
set_calls debug = call db ∷ []
set_calls health = call db ∷ []
set_calls metrics_set = []
set_calls pprof = []
set_calls info = []

abbrev pub sets_calls : List RouteSet → List Call
sets_calls [] = []
sets_calls (set ∷ sets) = set_calls set ++ sets_calls sets

-- App.initWorkers
abbrev pub worker_calls : Bool → Bool → List Call
worker_calls disabled broker_on =
    (if disabled then [] else call widget_import ∷ call widget_count ∷ [])
    ++ (if broker_on then call events ∷ call registry ∷ call queue ∷ call db ∷ [] else [])

-- App.initConsumers
abbrev pub consumer_calls : Bool → List Call
consumer_calls broker_on = if broker_on then call db ∷ call dedup ∷ call broker_conn ∷ [] else []

abbrev pub option_calls : ServerOpts → AppOption → List Call
option_calls o (with_server at sets) = if str_eq at "" then [] else sets_calls sets
option_calls o (with_grpc at) = if str_eq at "" then [] else call widget_grpc ∷ []
option_calls o (with_gateway at grpc_at) =
    if str_eq at "" || str_eq grpc_at "" then [] else call widget_grpc ∷ []
option_calls o with_workers = worker_calls o.worker_disabled (broker_enabled o)
option_calls o with_settings = call widget_settings ∷ []
option_calls o with_consumers = consumer_calls (broker_enabled o)

-- the query of CountCommand
abbrev pub count_calls : List Call
count_calls = call db ∷ []
