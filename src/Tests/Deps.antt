-- ===== src/Tests/Deps.antt =====
-- The container of one configuration, filled by a plain loop over the initializers.
use skit_x.Common.{◌≡◌, refl, false, List, [], ◌∷◌, ok}
use skit_x.Deps.{switches, Deps, fresh, Outside, Initializer, initializers, storage, close_store}
use skit_x.Deps.Started.{Outcome, then_rest, Started, Resolves, init_deps-Started}
use skit_x.Deps.Uses.{count_calls}
use skit_x.Server.Config.{ServerOpts}

abbrev run_each : List Initializer → Deps → Outcome
run_each [] c = ok (c, [])
run_each (i ∷ is) c = then_rest (run_each is) (i c)

-- the broker and auth on, the webhook off
abbrev opts : ServerOpts
opts = record {
  env = "development";
  log_level = "info";
  http_addr = ":8080";
  grpc_addr = ":9090";
  gateway_addr = ":8081";
  debug_addr = ":6060";
  db_tls = false;
  worker_disabled = false;
  broker_host = "rabbit";
  auth_jwt_secret = "secret";
  webhook_url = "";
}

abbrev out : Outside
out = record {
  new_exporter = ok tt;
  new_telemetry = ok tt;
  dial = ok tt;
  new_publisher = ok tt;
  new_jwt_verifier = ok tt;
  new_dedup = ok tt;
}

init_deps-Started_example :
    Started opts (run_each (initializers out) (fresh (switches opts)))
    × ((c : Deps) × (run_each (storage out) (fresh (switches opts)) ≡ ok (c, close_store ∷ []))
        × Resolves c count_calls)
init_deps-Started_example =
    init_deps-Started run_each (record { none_left = λ c. refl; one_more = λ i is c. refl }) opts
      out
