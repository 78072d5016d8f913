-- ===== src/Local/Examples/Requests.antt =====
-- apps/local-node/src/main.rs: tokens, proposals and a pairing.
use ozon_rust_suite.Common.{
  ◌≡◌, ◌≢◌, ◌↔◌, ◌⊎◌, refl, [], ◌∷◌, none, some, ok, Result, err, Text, text, text_eq, ltb,
  if◌then◌else◌, arith, ◌+◌,
}
use ozon_rust_suite.Common.Assoc.{lookup, insert, remove}
use ozon_rust_suite.Common.Secure.{constant_time_eq, compare_bytes, byte_at}
use ozon_rust_suite.Common.Unicode.{trim, trim_start, trim_end, is_whitespace}
use ozon_rust_suite.Domain.Task.{Uuid}
use ozon_rust_suite.TaskEngine.{TaskStore, TaskEngineError, Draws, new}
use ozon_rust_suite.Local.{ApiError, unauthorized}
use ozon_rust_suite.Local.Access.{
  require_operator_token, require_bridge_or_operator_token, token_checks_iff,
  is_allowed_openclaw_pairing_origin, require_openclaw_pairing_origin,
}
use ozon_rust_suite.Local.Tasks.{RequestDraws, DryRunRequest, dry_run_call, serve}
use ozon_rust_suite.Local.Tasks.Bridge.{done, next, BridgeRun-proposes, StandsOrProposed}
use ozon_rust_suite.Local.Pairing.{
  start_response, claim_response, PairingDraws, OpenClawPairing, OpenClawPairingStartResponse,
  OpenClawPairingClaimResponse, start_openclaw_pairing, prepared_bind_url, claim_openclaw_pairing,
  take_pairing, retain_unexpired, openclaw_pairing_ttl,
}
use ozon_rust_suite.Local.Pairing.Runs.{Calls, claim_window}
use ozon_rust_suite.Local.Pairing.Once.{claim_once}
use ozon_rust_suite.Local.Examples.{config, bridge, operator, window}

token_checks_iff_example :
    ((require_operator_token config bridge ≡ ok tt)
      ↔ (bridge.x_local_token ≡ some config.operator_token))
    × ((require_bridge_or_operator_token config bridge ≡ ok tt) ↔ (
        (bridge.x_local_token ≡ some config.operator_token)
        ⊎ (bridge.x_openclaw_token ≡ some config.openclaw_token)))
token_checks_iff_example = token_checks_iff config bridge

abbrev no_debug : Uuid → Text
no_debug _ = []

abbrev no_message : TaskEngineError → Text
no_message _ = text "refused"

abbrev engine_draws : Draws
engine_draws = record {
  now = 1;
  later = 2;
  audit_at = 3;
  task_id = 7;
  approval_id = 8;
  audit_id = 9;
}

abbrev draws : RequestDraws
draws = record { engine = engine_draws; tenant = 4; key = 5; receipt_id = 6; executed_at = 10 }

abbrev price_request : DryRunRequest
price_request = record {
  tenant_id = some 1;
  shop_id = none;
  source = none;
  operation = none;
  dry_run = none;
  risk = none;
  idempotency_key = none;
}

abbrev proposed : TaskStore
proposed = (serve no_debug no_message config draws bridge (dry_run_call price_request) new).0

-- A price change is proposed by the bridge.
BridgeRun-proposes_example : StandsOrProposed no_debug no_message config new proposed 7
unfolding lookup
BridgeRun-proposes_example =
    BridgeRun-proposes no_debug no_message config
      (next draws bridge (dry_run_call price_request) (λ h. cc) refl done) 7

abbrev pairing_draws : PairingDraws
pairing_draws = record { now = 5; code = text "c0de"; ends = text "later" }

-- The builder of the bind URL is another crate's; here it answers with the code.
abbrev build : Text → Text → Text → Text → Result ApiError Text
build base code claim_url manifest_url = ok code

abbrev no_fingerprint : Text → Text
no_fingerprint _ = []

abbrev response : OpenClawPairingStartResponse
response = start_response config (text "c0de") (text "c0de") (text "later")

abbrev pairing : OpenClawPairing
pairing = record { expires_at = 5 + openclaw_pairing_ttl; expires_at_rfc3339 = text "later" }

started :
    start_openclaw_pairing config build pairing_draws operator []
    ≡ ((text "c0de", pairing) ∷ [], ok response)
unfolding start_openclaw_pairing prepared_bind_url require_operator_token constant_time_eq
    compare_bytes byte_at insert retain_unexpired
started = refl

-- A minute after the start.
claim_window_example :
    (claim_openclaw_pairing config no_fingerprint none 60000000005 window
      (text " c0de ")
      ((text "c0de", pairing) ∷ [])).1
    ≡ (if ltb 60000000005 (5 + openclaw_pairing_ttl)
        then ok (claim_response config no_fingerprint (text "later"))
        else err (unauthorized (text "pairing code is invalid or expired")))
unfolding lookup require_openclaw_pairing_origin is_allowed_openclaw_pairing_origin text_eq trim
    trim_start trim_end is_whitespace
claim_window_example =
    claim_window config no_fingerprint none build pairing_draws operator window (text " c0de ")
      60000000005 5 [] ((text "c0de", pairing) ∷ []) ((text "c0de", pairing) ∷ []) response refl
      started Calls.done (omega arith) refl refl refl

abbrev handed : OpenClawPairingClaimResponse
handed = claim_response config no_fingerprint (text "later")

claimed_once :
    claim_openclaw_pairing config no_fingerprint none 6 window
      (text "c0de")
      ((text "c0de", pairing) ∷ [])
    ≡ ([], ok handed)
unfolding claim_openclaw_pairing take_pairing lookup require_openclaw_pairing_origin
    is_allowed_openclaw_pairing_origin text_eq trim trim_start trim_end is_whitespace remove
    retain_unexpired
claimed_once = refl

claim_once_example :
    (claim_openclaw_pairing config no_fingerprint none 7 window (text "c0de") []).1 ≢ ok handed
claim_once_example =
    claim_once config no_fingerprint none build 6 7 6 window window (text "c0de") (text "c0de")
      ((text "c0de", pairing) ∷ []) [] [] handed handed claimed_once Calls.done refl
