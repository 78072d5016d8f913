-- ===== src/Local/Examples.antt =====
-- apps/local-node/src/main.rs: a configuration and headers for the runs of the local service.
mod Requests
mod Leases
mod Background
mod Matching
mod Push
use ozon_rust_suite.Common.{ℕ, true, false, none, some, text, [], ◌∷◌}
use ozon_rust_suite.Common.Unicode.{CaseTables}
use ozon_rust_suite.Local.{LocalConfig}
use ozon_rust_suite.Local.Access.{Headers}

abbrev pub config : LocalConfig
config = record {
  skill_bind = text "127.0.0.1:17870";
  operator_token = text "op";
  openclaw_token = text "claw";
  use_real_ozon = true;
  default_ecommerce_interval_secs = 900;
  default_ecommerce_limit = 20;
  lease_public_key_pem = some (text "pem");
  lease_issuer = text "ozon66-cloud";
  lease_audience = text "ozon-rust-local-node";
  allow_unsigned_lease = false;
  openclaw_bind_url = text "http://127.0.0.1:18789/openclaw/import";
}

abbrev pub nobody : Headers
nobody = record { x_local_token = none; x_openclaw_token = none; origin = none }

abbrev pub operator : Headers
operator = record nobody { x_local_token = some (text "op") }

abbrev pub bridge : Headers
bridge = record nobody { x_openclaw_token = some (text "claw") }

abbrev pub window : Headers
window = record nobody { origin = some (text "http://localhost:18789") }

abbrev pub tables : CaseTables
tables = record { lower_other = λ _ c _. c ∷ []; upper_other = λ c. c ∷ [] }
