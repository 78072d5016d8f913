-- ===== src/Local.antt =====
-- apps/local-node/src/main.rs: the configuration of the local service, and its error answers.
pub mod Access
pub mod Tasks
pub mod Leases
pub mod Pairing
pub mod Video
pub mod Models
pub mod Matching
pub mod Push
pub mod Schedule
mod Examples
use ozon_rust_suite.Common.{ℕ, Bool, Option, Text}
use ozon_rust_suite.Common.Secure.{Bytes}

-- `ApiError`, an HTTP status with a message.
pub record ApiError : Type 0 where
  pub status : ℕ
  pub message : Text

abbrev pub unauthorized : Text → ApiError
unauthorized message = record { status = 401; message = message }

abbrev pub not_found : Text → ApiError
not_found message = record { status = 404; message = message }

abbrev pub forbidden : Text → ApiError
forbidden message = record { status = 403; message = message }

abbrev pub bad_request : Text → ApiError
bad_request message = record { status = 400; message = message }

abbrev pub bad_gateway : Text → ApiError
bad_gateway message = record { status = 502; message = message }

abbrev pub internal : Text → ApiError
internal message = record { status = 500; message = message }

-- The fields that the handlers below read. Tokens are the bytes of their strings.
pub record LocalConfig : Type 0 where
  pub skill_bind : Text
  pub operator_token : Bytes
  pub openclaw_token : Bytes
  pub use_real_ozon : Bool
  pub default_ecommerce_interval_secs : ℕ
  pub default_ecommerce_limit : ℕ
  pub lease_public_key_pem : Option Text
  pub lease_issuer : Text
  pub lease_audience : Text
  pub allow_unsigned_lease : Bool
  pub openclaw_bind_url : Text
