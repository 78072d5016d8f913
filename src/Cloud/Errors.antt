-- ===== src/Cloud/Errors.antt =====
-- apps/cloud-api/src/main.rs: `ApiError`, an HTTP status with a message.
use ozon_rust_suite.Common.{ℕ, Text}

pub record ApiError : Type 0 where
  pub status : ℕ
  pub message : Text

abbrev pub bad_request : Text → ApiError
bad_request message = record { status = 400; message = message }

abbrev pub unauthorized : Text → ApiError
unauthorized message = record { status = 401; message = message }

abbrev pub forbidden : Text → ApiError
forbidden message = record { status = 403; message = message }

abbrev pub not_found : Text → ApiError
not_found message = record { status = 404; message = message }

abbrev pub conflict : Text → ApiError
conflict message = record { status = 409; message = message }

abbrev pub bad_gateway : Text → ApiError
bad_gateway message = record { status = 502; message = message }

abbrev pub service_unavailable : Text → ApiError
service_unavailable message = record { status = 503; message = message }

abbrev pub internal : Text → ApiError
internal message = record { status = 500; message = message }
