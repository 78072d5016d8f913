-- ===== src/Cloud/Libraries.antt =====
-- What apps/cloud-api/src/main.rs calls in other crates: digests, password hashes, the text forms of
-- a UUID, the Unicode tables, signatures of tokens and leases.
use ozon_rust_suite.Common.{Bool, Option, Text}
use ozon_rust_suite.Common.Unicode.{CaseTables}
use ozon_rust_suite.Domain.Task.{Uuid}

pub record Libraries : Type 0 where
  pub sha256_hex : Text → Text
  -- Argon2 with a salt; `none` when the hasher fails.
  pub hash_password : Text → Text → Option Text
  pub verify_password : Text → Text → Bool
  pub uuid_debug : Uuid → Text
  pub uuid_simple : Uuid → Text
  -- UUIDv5 under a namespace, from the text of a name.
  pub new_v5 : Uuid → Text → Uuid
  pub tables : CaseTables
