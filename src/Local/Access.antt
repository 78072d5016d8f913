-- ===== src/Local/Access.antt =====
-- apps/local-node/src/main.rs: who may call what, by the tokens and the origin of a request.
use ozon_rust_suite.Common.{
  ℕ, ◌≡◌, refl, ◌↔◌, ◌⊎◌, inl, inr, Bool, ◌||◌, List, [], ◌∷◌, Option, none, some, Text, text,
  text_eq, Result, ok, err, ◌>>=◌, require, ok_or, ◌==◌, if◌then◌else◌, any, arith, Bool-cases,
  Option-cases,
}
use ozon_rust_suite.Common.Unicode.{trim, is_empty}
use ozon_rust_suite.Common.Secure.{
  Bytes, constant_time_eq, constant_time_eq_iff, presents, presents_iff,
}
use ozon_rust_suite.Local.{ApiError, unauthorized, forbidden, LocalConfig}

-- The headers that are read, where they are there and `to_str` reads them: such a value is ASCII, so
-- its bytes are its characters.
pub record Headers : Type 0 where
  pub x_local_token : Option Bytes
  pub x_openclaw_token : Option Bytes
  pub origin : Option Text

unfoldable pub require_operator_token : LocalConfig → Headers → Result ApiError (Unit {0})
require_operator_token config headers = do
  token ← ok_or headers.x_local_token (unauthorized (text "missing x-local-token"))
  require (constant_time_eq token config.operator_token)
      (unauthorized (text "invalid x-local-token"))

unfoldable pub require_bridge_or_operator_token : LocalConfig → Headers → Result ApiError (Unit {0})
require_bridge_or_operator_token config headers =
    if presents headers.x_local_token config.operator_token
    then ok tt
    else if presents headers.x_openclaw_token config.openclaw_token
    then ok tt
    else err (unauthorized (text "missing or invalid x-openclaw-token / x-local-token"))

abbrev pub cons_first : ℕ → List Text → List Text
cons_first c [] = (c ∷ []) ∷ []
cons_first c (s ∷ ss) = (c ∷ s) ∷ ss

-- `split(',')`: the parts between the commas, of which there is one at least.
unfoldable pub split_commas : Text → List Text
split_commas [] = [] ∷ []
split_commas (c ∷ s) =
    let rest = split_commas s in if c == b',' then [] ∷ rest else cons_first c rest

unfoldable pub trimmed_parts : List Text → List Text
trimmed_parts [] = []
trimmed_parts (s ∷ ss) =
    let rest = trimmed_parts ss in if is_empty (trim s) then rest else trim s ∷ rest

-- Of the variable `OZON_OPENCLAW_ALLOWED_ORIGINS`.
unfoldable pub configured_openclaw_allowed_origins : Option Text → List Text
configured_openclaw_allowed_origins none = []
configured_openclaw_allowed_origins (some value) = trimmed_parts (split_commas value)

unfoldable pub is_allowed_openclaw_pairing_origin : Option Text → Text → Bool
is_allowed_openclaw_pairing_origin env origin =
    text_eq origin (text "https://ozonclaw.jl696.cn")
    || (text_eq origin (text "https://www.ozonclaw.jl696.cn")
        || (text_eq origin (text "http://127.0.0.1:18789")
            || (text_eq origin (text "http://localhost:18789")
                || any (λ allowed. text_eq allowed origin)
                    (configured_openclaw_allowed_origins env))))

unfoldable pub require_openclaw_pairing_origin : Option Text → Headers → Result ApiError (Unit {0})
require_openclaw_pairing_origin env headers = do
  origin ← ok_or headers.origin (forbidden (text "missing OpenClaw pairing origin"))
  require (is_allowed_openclaw_pairing_origin env origin)
      (forbidden (text "OpenClaw pairing origin is not allowed"))

pub require_operator_token_iff :
    (config : LocalConfig) (headers : Headers)
    → (require_operator_token config headers ≡ ok tt)
      ↔ (headers.x_local_token ≡ some config.operator_token)
unfolding require_operator_token
require_operator_token_iff config headers = elim (Option-cases headers.x_local_token) [
  | inl e ↦ (λ h. absurd (ground (arith, h, e)), λ h. cc (h, e))
  | inr (token, e) ↦
      let it = constant_time_eq_iff token config.operator_token in
      elim (Bool-cases (constant_time_eq token config.operator_token)) [
        | inl y ↦ (λ h. rw (e, it.0 y) refl, λ h. rw (e, y) refl)
        | inr n ↦ (
          λ h. absurd (ground (arith, h, e, n)),
          λ h. let same : token ≡ config.operator_token = ground (arith, h, e) in cc (it.1 same, n),
        )
      ]
]

pub require_bridge_or_operator_token_iff :
    (config : LocalConfig) (headers : Headers)
    → (require_bridge_or_operator_token config headers ≡ ok tt) ↔ (
        (headers.x_local_token ≡ some config.operator_token)
        ⊎ (headers.x_openclaw_token ≡ some config.openclaw_token))
unfolding require_bridge_or_operator_token
require_bridge_or_operator_token_iff config headers =
    let operator = presents_iff headers.x_local_token config.operator_token in
    let bridge = presents_iff headers.x_openclaw_token config.openclaw_token in
    (
      λ h. elim (Bool-cases (presents headers.x_local_token config.operator_token)) [
        | inl y ↦ inl (operator.0 y)
        | inr n ↦ elim (Bool-cases (presents headers.x_openclaw_token config.openclaw_token)) [
          | inl y ↦ inr (bridge.0 y)
          | inr m ↦ absurd (ground (arith, h, n, m))
        ]
      ],
      λ h. elim h [
        | inl p ↦ rw (operator.1 p) refl
        | inr q ↦ let yes = bridge.1 q in ground (arith, yes)
      ],
    )

-- The operator's check passes a request exactly when its header carries the operator's token; the
-- check of bridge calls, exactly when it carries the operator's or the bridge's token in the header
-- of each.
pub token_checks_iff :
    (config : LocalConfig) (headers : Headers)
    → ((require_operator_token config headers ≡ ok tt)
        ↔ (headers.x_local_token ≡ some config.operator_token))
      × ((require_bridge_or_operator_token config headers ≡ ok tt) ↔ (
          (headers.x_local_token ≡ some config.operator_token)
          ⊎ (headers.x_openclaw_token ≡ some config.openclaw_token)))
token_checks_iff config headers =
    (require_operator_token_iff config headers, require_bridge_or_operator_token_iff config headers)
