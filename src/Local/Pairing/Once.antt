-- ===== src/Local/Pairing/Once.antt =====
-- apps/local-node/src/main.rs: a claimed pairing code stays claimed.
use ozon_rust_suite.Common.{
  ◌≡◌, ◌≢◌, refl, ap, ◌∙◌, ◌⊎◌, inl, inr, Option, none, Text, text_eq_refl, Result, ok, arith,
  Bool-cases, Option-cases, Result-cases,
}
use ozon_rust_suite.Common.Assoc.{text_key, lookup, remove, lookup-insert_ne, lookup-remove}
use ozon_rust_suite.Common.Unicode.{trim, is_empty}
use ozon_rust_suite.Common.Secure.{Bytes}
use ozon_rust_suite.Domain.Task.{Instant}
use ozon_rust_suite.Local.{ApiError, LocalConfig}
use ozon_rust_suite.Local.Access.{Headers, require_openclaw_pairing_origin}
use ozon_rust_suite.Local.Pairing.{
  Pairings, retain_unexpired, OpenClawPairingClaimResponse, take_pairing, claim_openclaw_pairing,
}
use ozon_rust_suite.Local.Pairing.Claims.{lookup-retain_absent}
use ozon_rust_suite.Local.Pairing.Runs.{
  PairingCall, call_time, call_code, IsClaim, Change, unchanged, retained, started, claimed,
  call-Change, take_pairing-gone, Calls, done, next,
}

module _ (config : LocalConfig) (fingerprint_secret : Bytes → Text) (origins : Option Text)
    (build_bind_url : Text → Text → Text → Text → Result ApiError Text) where
  Change-gone :
      {a : PairingCall} {m u : Pairings} (code : Text)
      → Change config fingerprint_secret origins build_bind_url a m u
      → IsClaim a ⊎ (call_code a ≢ code)
      → lookup code m ≡ none
      → lookup code u ≡ none
  Change-gone code (unchanged e) kind h = rw e h
  Change-gone {a} {m} code (retained e) kind h = rw e (lookup-retain_absent (call_time a) code m h)
  Change-gone {a} {m} code (started p no_claim e) kind h =
      let other : call_code a ≢ code = elim kind [ inl c ↦ absurd (no_claim c) | inr o ↦ o ] in
      rw e (
        lookup-insert_ne p (retain_unexpired (call_time a) m) other
        ∙ lookup-retain_absent (call_time a) code m h)
  Change-gone {a} {m} code (claimed e) kind h =
      let removed = lookup-remove (call_code a) code (retain_unexpired (call_time a) m) in
      let absent = lookup-retain_absent (call_time a) code m h in
      rw e (ground (arith, removed, absent))

  Calls-gone :
      (code : Text) {now end : Instant} {m u : Pairings}
      → Calls config fingerprint_secret origins build_bind_url
          (λ a. IsClaim a ⊎ (call_code a ≢ code))
          now
          end
          m
          u
      → lookup code m ≡ none
      → lookup code u ≡ none
  Calls-gone code done h = h
  Calls-gone code {m = m} (next a later kind rest) h =
      Calls-gone code rest
        (Change-gone code (call-Change config fingerprint_secret origins build_bind_url a m) kind h)

  claim-takes :
      (now : Instant) (headers : Headers) (code : Text) (m m' : Pairings)
      (answer : OpenClawPairingClaimResponse)
      → claim_openclaw_pairing config fingerprint_secret origins now headers code m
        ≡ (m', ok answer)
      → take_pairing config fingerprint_secret now (trim code) m ≡ (m', ok answer)
  unfolding claim_openclaw_pairing
  claim-takes now headers code m m' answer h =
      elim (Result-cases (require_openclaw_pairing_origin origins headers)) [
        | inr (e', e) ↦ absurd (ground (arith, h, e))
        | inl (_, e) ↦ elim (Bool-cases (is_empty (trim code))) [
          | inl b ↦ absurd (ground (arith, h, e, b))
          | inr b ↦ ground (arith, h, e, b)
        ]
      ]

  take-removes :
      (now : Instant) (code : Text) (m m' : Pairings) (answer : OpenClawPairingClaimResponse)
      → take_pairing config fingerprint_secret now code m ≡ (m', ok answer)
      → lookup code m' ≡ none
  unfolding take_pairing
  take-removes now code m m' answer h = elim (Option-cases (lookup code (retain_unexpired now m))) [
    | inl e ↦ absurd (ground (arith, h, e))
    | inr (p, e) ↦
        let left : m' ≡ remove code (retain_unexpired now m) = ground (arith, h, e) in
        let removed = lookup-remove code code (retain_unexpired now m) in
        rw (left, removed, text_eq_refl code) refl
  ]

  -- A code that was claimed is never claimed again: after any further calls, of which none starts a
  -- pairing with the same code, every claim of it is refused, whoever makes it and whenever.
  pub claim_once :
      (now now' end : Instant) (headers headers' : Headers) (code code' : Text) (m m' u : Pairings)
      (answer answer' : OpenClawPairingClaimResponse)
      → claim_openclaw_pairing config fingerprint_secret origins now headers code m
        ≡ (m', ok answer)
      → Calls config fingerprint_secret origins build_bind_url
          (λ a. IsClaim a ⊎ (call_code a ≢ trim code))
          now
          end
          m'
          u
      → trim code' ≡ trim code
      → (claim_openclaw_pairing config fingerprint_secret origins now' headers' code' u).1
        ≢ ok answer'
  claim_once now now' end headers headers' code code' m m' u answer answer' first calls same again =
      let taken =
        take-removes now (trim code) m m' answer (claim-takes now headers code m m' answer first) in
      let gone = lookup-retain_absent now' (trim code) u (Calls-gone (trim code) calls taken) in
      let refused =
        take_pairing-gone config fingerprint_secret origins build_bind_url now' (trim code) u
          gone in
      let u' = (claim_openclaw_pairing config fingerprint_secret origins now' headers' code' u).0 in
      let second = claim-takes now' headers' code' u u' answer' (ap (λ r. (u', r)) again) in
      let clash =
        ap (λ (x : Pairings × Result ApiError OpenClawPairingClaimResponse). x.1) second in
      cc (rw same at clash, refused)
