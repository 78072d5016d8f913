-- ===== src/Local/Pairing.antt =====
-- apps/local-node/src/main.rs: the pairing of an OpenClaw window with the local node, by a code that
-- is claimed once and within five minutes.
pub mod Claims
pub mod Window
pub mod Runs
pub mod Once
use ozon_rust_suite.Common.{
  ℕ, ◌+◌, ◌*◌, Bool, true, false, not, List, [], ◌∷◌, ◌++◌, Option, none, some, Text, text, text_eq,
  Result, ok, err, ◌>>=◌, ◌>>◌, require, ltb, if◌then◌else◌,
}
use ozon_rust_suite.Common.Assoc.{text_key, lookup, insert, remove}
use ozon_rust_suite.Common.Unicode.{trim, is_empty}
use ozon_rust_suite.Common.Secure.{Bytes}
use ozon_rust_suite.Domain.Task.{Uuid, Instant}
use ozon_rust_suite.Local.{ApiError, unauthorized, bad_request, LocalConfig}
use ozon_rust_suite.Local.Access.{Headers, require_operator_token, require_openclaw_pairing_origin}

pub record OpenClawPairing : Type 0 where
  pub expires_at : Instant
  pub expires_at_rfc3339 : Text

abbrev pub Pairings : Type 0
Pairings = List (Text × OpenClawPairing)

-- `Duration::from_secs(5 * 60)`, in nanoseconds, the ticks of the monotonic clock.
abbrev pub openclaw_pairing_ttl : ℕ
openclaw_pairing_ttl = 300 * 1000000000

-- `retain(|_, pairing| pairing.expires_at > now)`
unfoldable pub retain_unexpired : Instant → Pairings → Pairings
retain_unexpired now [] = []
retain_unexpired now ((code, pairing) ∷ rest) =
    let kept = retain_unexpired now rest in
    if ltb now pairing.expires_at then (code, pairing) ∷ kept else kept

pub record OpenClawPairingStartResponse : Type 0 where
  pub start_status : Text
  pub bind_url : Text
  pub pairing_code : Text
  pub claim_url : Text
  pub start_manifest_url : Text
  pub start_auth_header : Text
  pub start_expires_at : Text
  pub instructions : List Text

pub record OpenClawPairingClaimResponse : Type 0 where
  pub claim_status : Text
  pub manifest_url : Text
  pub base_url : Text
  pub auth_header : Text
  pub auth_token : Bytes
  pub auth_token_fingerprint : Text
  pub claim_expires_at : Text
  pub safety_rules : List Text

abbrev pub local_http_url : Text → Text
local_http_url bind = text "http://" ++ bind

-- What a start draws: the monotonic clock, the code, and the text of the time it ends.
pub record PairingDraws : Type 0 where
  pub now : Instant
  pub code : Text
  pub ends : Text

-- `build_bind_url` is `build_openclaw_bind_url`: from the base, the code, the claim URL and the
-- manifest URL.
module _ (config : LocalConfig) where
  abbrev pub manifest_url_of : Text
  manifest_url_of = local_http_url config.skill_bind ++ text "/openclaw/manifest"

  abbrev pub claim_url_of : Text
  claim_url_of = local_http_url config.skill_bind ++ text "/openclaw/pairing/claim"

  abbrev pub start_response : Text → Text → Text → OpenClawPairingStartResponse
  start_response code bind_url ends = record {
    start_status = text "pairing_started";
    bind_url = bind_url;
    pairing_code = code;
    claim_url = claim_url_of;
    start_manifest_url = manifest_url_of;
    start_auth_header = text "x-openclaw-token";
    start_expires_at = ends;
    instructions =
        text "Open the bind URL in Longxia/OpenClaw."
        ∷ text "Longxia should read the URL fragment and POST the pairing code to claim_url."
        ∷ text
            "The long-lived bridge token is never embedded in the bind URL; OpenClaw stores it only after a trusted localhost claim."
        ∷ [];
  }

  -- The answer to a claim: `fingerprint_secret` is a digest of another crate.
  abbrev pub claim_response : (Bytes → Text) → Text → OpenClawPairingClaimResponse
  claim_response fingerprint_secret ends = record {
    claim_status = text "paired";
    manifest_url = manifest_url_of;
    base_url = local_http_url config.skill_bind;
    auth_header = text "x-openclaw-token";
    auth_token = config.openclaw_token;
    auth_token_fingerprint = fingerprint_secret config.openclaw_token;
    claim_expires_at = ends;
    safety_rules =
        text "Use the token only inside Longxia/OpenClaw connector settings."
        ∷ text "Do not paste the token into chats, prompts, logs, or public documents."
        ∷ text "Bridge calls are read/proposal only; local approval is required for writes."
        ∷ [];
  }

  -- The guards of a start, and the URL that it answers with.
  unfoldable pub prepared_bind_url :
      (Text → Text → Text → Text → Result ApiError Text) → Text → Headers → Result ApiError Text
  prepared_bind_url build_bind_url code headers = do
    require_operator_token config headers
    build_bind_url config.openclaw_bind_url code claim_url_of manifest_url_of

  unfoldable pub start_openclaw_pairing :
      (Text → Text → Text → Text → Result ApiError Text)
      → PairingDraws
      → Headers
      → Pairings
      → Pairings × Result ApiError OpenClawPairingStartResponse
  start_openclaw_pairing build_bind_url c headers pairings =
      elim (prepared_bind_url build_bind_url c.code headers) [
        | err e ↦ (pairings, err e)
        | ok bind_url ↦ (
          insert c.code
              (record { expires_at = c.now + openclaw_pairing_ttl; expires_at_rfc3339 = c.ends })
              (retain_unexpired c.now pairings),
          ok (start_response c.code bind_url c.ends),
        )
      ]

  -- The part under the write lock.
  unfoldable pub take_pairing :
      (Bytes → Text)
      → Instant
      → Text
      → Pairings
      → Pairings × Result ApiError OpenClawPairingClaimResponse
  take_pairing fingerprint_secret now code pairings =
      let live = retain_unexpired now pairings in
      elim (lookup code live) [
        | none ↦ (live, err (unauthorized (text "pairing code is invalid or expired")))
        | some pairing ↦
            (remove code live, ok (claim_response fingerprint_secret pairing.expires_at_rfc3339))
      ]

  -- `origins` is the variable of further origins, if it is set.
  unfoldable pub claim_openclaw_pairing :
      (Bytes → Text)
      → Option Text
      → Instant
      → Headers
      → Text
      → Pairings
      → Pairings × Result ApiError OpenClawPairingClaimResponse
  claim_openclaw_pairing fingerprint_secret origins now headers code pairings =
      elim (require_openclaw_pairing_origin origins headers) [
        | err e ↦ (pairings, err e)
        | ok _ ↦
            if is_empty (trim code)
            then (pairings, err (bad_request (text "pairing code is required")))
            else take_pairing fingerprint_secret now (trim code) pairings
      ]
