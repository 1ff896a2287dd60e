-- ===== src/Server/Config.antt =====
-- internal/app/config/opts.go: the options that decide what runs, Validate and the switches; and
-- the level of the logger (internal/cmd/root.go).
use skit_x.Common.{String, ◌<>◌, Bool, not, ◌&&◌, [], ◌∷◌, Result, ok, err, str_eq, if◌then◌else◌}
use skit_x.Dbx.{Error, failure}

-- ServerOpts: the fields that the code of this repository reads. The others are handed to the SDK.
pub record ServerOpts : Type 0 where
  pub env : String
  pub log_level : String
  pub http_addr : String
  pub grpc_addr : String
  pub gateway_addr : String
  pub debug_addr : String
  pub db_tls : Bool
  pub worker_disabled : Bool
  pub broker_host : String
  pub auth_jwt_secret : String
  pub webhook_url : String

abbrev pub env_production : String
env_production = "production"

abbrev pub refused : Error
refused = record {
  text = "refusing to run in " <> env_production <> " with database TLS disabled: set DB_TLS=true";
  causes = failure 9 ∷ [];
}

-- ServerOpts.Validate
unfoldable pub validate : ServerOpts → Result Error (Unit {0})
validate o = if str_eq o.env env_production && not o.db_tls then err refused else ok tt

-- Broker.Enabled, Auth.Enabled, Webhook.Enabled
abbrev pub broker_enabled : ServerOpts → Bool
broker_enabled o = not (str_eq o.broker_host "")

abbrev pub auth_enabled : ServerOpts → Bool
auth_enabled o = not (str_eq o.auth_jwt_secret "")

abbrev pub webhook_enabled : ServerOpts → Bool
webhook_enabled o = not (str_eq o.webhook_url "")

-- slog.Level
pub data Level : Type 0 where
  debug info warn error : Level

-- parseLevel; `to_lower` is strings.ToLower.
unfoldable pub parse_level : (String → String) → String → Level
parse_level to_lower s =
    let l = to_lower s in
    if str_eq l "debug"
    then debug
    else if str_eq l "warn"
    then warn
    else if str_eq l "warning"
    then warn
    else if str_eq l "error"
    then error
    else info
