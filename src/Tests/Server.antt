-- ===== src/Tests/Server.antt =====
-- The commands under a concrete configuration.
use skit_x.Common.{ℕ, ◌≡◌, refl, false, none, List, [], ◌∷◌, ok, ◌>>=◌, str_eq, All}
use skit_x.Server.App.{Sdk, new}
use skit_x.Server.Commands.{http_options, worker_options, consumer_options, serve_options, run}
use skit_x.Server.Config.{ServerOpts, auth_enabled}
use skit_x.Server.Guards.{IsRight, install_guards}
use skit_x.Server.Install.{install, mount}
use skit_x.Server.Routes.{Route, route}
use skit_x.Server.Split.{joined, serve_is_split}
use skit_x.Server.Parts.{viewed}
use skit_x.Server.Switches.{new-parts}

-- everything on but the gRPC server, so no gateway either
abbrev opts : ServerOpts
opts = record {
  env = "development";
  log_level = "info";
  http_addr = ":8080";
  grpc_addr = "";
  gateway_addr = ":8081";
  debug_addr = ":6060";
  db_tls = false;
  worker_disabled = false;
  broker_host = "rabbit";
  auth_jwt_secret = "secret";
  webhook_url = "";
}

abbrev audit : List Route
audit = route "GET" "/auditlog" [] ∷ []

-- a worker is its number
abbrev sdk : Sdk ℕ
sdk = record {
  import_workers = ok (1 ∷ 2 ∷ []);
  count_poller = 3;
  settings_reread = 4;
  check_events = ok tt;
  event_workers = ok (5 ∷ []);
  partitions = ok 6;
  consumer = ok 7;
  build_gateway = λ at target. ok tt;
  init_deps = ok tt;
  closed = λ x. x;
  audit_routes = audit;
}

install_guards_example : All (IsRight (auth_enabled opts)) (mount opts audit install none).0
unfolding str_eq
install_guards_example = install_guards opts audit ((refl, refl), tt)

new-parts_example :
    viewed (new opts sdk (serve_options opts))
    ≡ ok (record {
      listens = ":8080" ∷ ":6060" ∷ [];
      works = 4 ∷ 1 ∷ 2 ∷ 3 ∷ 5 ∷ 6 ∷ [];
      consumes = 7 ∷ [];
    })
unfolding str_eq
new-parts_example = new-parts opts sdk (serve_options opts)

serve_is_split_example : viewed (run opts sdk (serve_options opts)) ≡ (
    viewed (run opts sdk (http_options opts)) >>= λ h.
    viewed (run opts sdk (worker_options opts)) >>= λ w.
    viewed (run opts sdk (consumer_options opts)) >>= λ c. ok (joined opts sdk h w c))
serve_is_split_example = serve_is_split opts sdk
