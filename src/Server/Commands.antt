-- ===== src/Server/Commands.antt =====
-- The long-running commands: internal/cmd/run.go, serve.go, http.go, worker.go and consumer.go.
use skit_x.Common.{List, [], ◌∷◌, Result, ◌>>=◌}
use skit_x.Server.App.{
  App, Sdk, Failure, returned, AppOption, with_server, with_grpc, with_gateway, with_workers,
  with_settings, with_consumers, new,
}
use skit_x.Server.Config.{ServerOpts, validate}
use skit_x.Server.Install.{install, debug}

-- The options that a command lists.
abbrev pub http_options : ServerOpts → List AppOption
http_options o =
    with_server o.http_addr (install ∷ [])
    ∷ with_grpc o.grpc_addr
    ∷ with_gateway o.gateway_addr o.grpc_addr
    ∷ with_settings
    ∷ with_server o.debug_addr (debug ∷ [])
    ∷ []

abbrev pub worker_options : ServerOpts → List AppOption
worker_options o = with_server o.debug_addr (debug ∷ []) ∷ with_workers ∷ []

abbrev pub consumer_options : ServerOpts → List AppOption
consumer_options o = with_server o.debug_addr (debug ∷ []) ∷ with_consumers ∷ []

abbrev pub serve_options : ServerOpts → List AppOption
serve_options o =
    with_server o.http_addr (install ∷ [])
    ∷ with_grpc o.grpc_addr
    ∷ with_gateway o.gateway_addr o.grpc_addr
    ∷ with_settings
    ∷ with_server o.debug_addr (debug ∷ [])
    ∷ with_workers
    ∷ with_consumers
    ∷ []

-- run, up to app.Run of the Runnables
unfoldable pub run : {R : Type 0} → ServerOpts → Sdk R → List AppOption → Result Failure (App R)
run o sdk options = returned (validate o) >>= λ _. new o sdk options
