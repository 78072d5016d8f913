-- ===== src/Local/Pairing/Runs.antt =====
-- apps/local-node/src/main.rs: a pairing code over a run of calls, from its start to its claim.
use ozon_rust_suite.Common.{
  ◌+◌, ◌≤◌, ◌≡◌, ◌≢◌, sym, ap, ◌∙◌, inl, inr, false, Option, none, some, Text, text, Result, ok,
  err, ltb, if◌then◌else◌, arith, Bool-cases, Option-cases, Result-cases,
}
use mathlib.Core.Path.{subst}
use ozon_rust_suite.Common.Assoc.{text_key, lookup, insert, remove, lookup-insert_self}
use ozon_rust_suite.Common.Unicode.{trim, is_empty}
use ozon_rust_suite.Common.Secure.{Bytes}
use ozon_rust_suite.Domain.Task.{Instant}
use ozon_rust_suite.Local.{ApiError, unauthorized, LocalConfig}
use ozon_rust_suite.Local.Access.{Headers, require_openclaw_pairing_origin}
use ozon_rust_suite.Local.Pairing.{
  claim_response, OpenClawPairing, Pairings, openclaw_pairing_ttl, retain_unexpired, PairingDraws,
  OpenClawPairingClaimResponse, prepared_bind_url, start_openclaw_pairing, take_pairing,
  claim_openclaw_pairing, OpenClawPairingStartResponse,
}
use ozon_rust_suite.Local.Pairing.Window.{
  Window, retain-Window, later-Window, insert-Window, remove-Window,
}
use ozon_rust_suite.Local.Pairing.Claims.{
  insert_own-Entry, lookup-retain_live, lookup-retain_absent, lookup-retain_ended,
}

pub data PairingCall : Type 0 where
  starting : PairingDraws → Headers → PairingCall
  claiming : Instant → Headers → Text → PairingCall

abbrev pub call_time : PairingCall → Instant
call_time (starting c headers) = c.now
call_time (claiming now headers code) = now

-- The code that a call is about.
abbrev pub call_code : PairingCall → Text
call_code (starting c headers) = c.code
call_code (claiming now headers code) = trim code

abbrev pub IsClaim : PairingCall → Type 0
IsClaim (starting c headers) = ⊥
IsClaim (claiming now headers code) = Unit

module _ (config : LocalConfig) (fingerprint_secret : Bytes → Text) (origins : Option Text)
    (build_bind_url : Text → Text → Text → Text → Result ApiError Text) where
  pub call : PairingCall → Pairings → Pairings
  call (starting c headers) m = (start_openclaw_pairing config build_bind_url c headers m).0
  call (claiming now headers code) m =
      (claim_openclaw_pairing config fingerprint_secret origins now headers code m).0

  -- What a call does to the pairings.
  pub data Change (a : PairingCall) (m u : Pairings) : Type 0 where
    unchanged : u ≡ m → Change a m u
    retained : u ≡ retain_unexpired (call_time a) m → Change a m u
    started :
        (p : OpenClawPairing)
        → (IsClaim a → ⊥)
        → u ≡ insert (call_code a) p (retain_unexpired (call_time a) m)
        → Change a m u
    claimed : u ≡ remove (call_code a) (retain_unexpired (call_time a) m) → Change a m u

  take_pairing-Change :
      (now : Instant) (headers : Headers) (code : Text) (m : Pairings)
      → Change
          (claiming now headers code)
          m
          (take_pairing config fingerprint_secret now (trim code) m).0
  unfolding take_pairing
  take_pairing-Change now headers code m =
      elim (Option-cases (lookup (trim code) (retain_unexpired now m))) [
        | inl e ↦ retained (ground (arith, e))
        | inr (p, e) ↦ claimed (ground (arith, e))
      ]

  claim-open :
      (now : Instant) (headers : Headers) (code : Text) (m : Pairings)
      → require_openclaw_pairing_origin origins headers ≡ ok tt
      → is_empty (trim code) ≡ false
      → claim_openclaw_pairing config fingerprint_secret origins now headers code m
        ≡ take_pairing config fingerprint_secret now (trim code) m
  unfolding claim_openclaw_pairing
  claim-open now headers code m e b = ground (arith, e, b)

  -- What is answered under the write lock, by what stands under the code.
  take_pairing-live :
      (now : Instant) (code : Text) (p : OpenClawPairing) (m : Pairings)
      → lookup code (retain_unexpired now m) ≡ some p
      → (take_pairing config fingerprint_secret now code m).1
        ≡ ok (claim_response config fingerprint_secret p.expires_at_rfc3339)
  unfolding take_pairing
  take_pairing-live now code p m h = ground (arith, h)

  pub take_pairing-gone :
      (now : Instant) (code : Text) (m : Pairings)
      → lookup code (retain_unexpired now m) ≡ none
      → (take_pairing config fingerprint_secret now code m).1
        ≡ err (unauthorized (text "pairing code is invalid or expired"))
  unfolding take_pairing
  take_pairing-gone now code m h = ground (arith, h)

  pub call-Change : (a : PairingCall) (m : Pairings) → Change a m (call a m)
  unfolding call start_openclaw_pairing claim_openclaw_pairing
  call-Change (starting c headers) m =
      elim (Result-cases (prepared_bind_url config build_bind_url c.code headers)) [
        | inl (url, e) ↦
            started
              (record { expires_at = c.now + openclaw_pairing_ttl; expires_at_rfc3339 = c.ends })
              (λ x. x) (ground (arith, e))
        | inr (e', e) ↦ unchanged (ground (arith, e))
      ]
  call-Change (claiming now headers code) m =
      elim (Result-cases (require_openclaw_pairing_origin origins headers)) [
        | inr (e', e) ↦ unchanged (ground (arith, e))
        | inl (_, e) ↦ elim (Bool-cases (is_empty (trim code))) [
          | inl b ↦ unchanged (ground (arith, e, b))
          | inr b ↦
              subst
                (λ (x : Pairings × Result ApiError OpenClawPairingClaimResponse).
                  Change (claiming now headers code) m x.0)
                (sym (claim-open now headers code m e b)) (take_pairing-Change now headers code m)
        ]
      ]

  Change-Window :
      {a : PairingCall} {m u : Pairings} {code : Text} {p : OpenClawPairing} {now : Instant}
      → Change a m u
      → now ≤ call_time a
      → call_code a ≢ code
      → Window code p now m
      → Window code p (call_time a) u
  Change-Window {a} (unchanged e) later other w = rw e (later-Window (call_time a) later w)
  Change-Window {a} (retained e) later other w = rw e (retain-Window (call_time a) later w)
  Change-Window {a} (started q _ e) later other w =
      rw e (insert-Window (call_code a) q other (retain-Window (call_time a) later w))
  Change-Window {a} (claimed e) later other w =
      rw e (remove-Window (call_code a) other (retain-Window (call_time a) later w))

  -- A run of calls of some kind, at times that do not go back.
  pub data Calls (Kind : PairingCall → Type 0)
      : Instant → Instant → Pairings → Pairings → Type 0 where
    done : {now : Instant} {m : Pairings} → Calls Kind now now m m
    next :
        {now end : Instant} {m u : Pairings} (a : PairingCall)
        → now ≤ call_time a
        → Kind a
        → Calls Kind (call_time a) end (call a m) u
        → Calls Kind now end m u

  Calls-Window :
      {code : Text} {p : OpenClawPairing} {now end : Instant} {m u : Pairings}
      → Calls (λ a. call_code a ≢ code) now end m u
      → Window code p now m
      → Window code p end u
  Calls-Window done w = w
  Calls-Window {m} (next a later other rest) w =
      Calls-Window rest (Change-Window (call-Change a m) later other w)

  -- A start with a code that is not in use, and then any calls about other codes. Then a claim of
  -- the code from an allowed origin hands out the bridge's token when five minutes have not passed
  -- since the start; from then on it is refused as invalid or expired.
  pub claim_window :
      (c : PairingDraws) (starter claimer : Headers) (code : Text) (now end : Instant)
      (m m' u : Pairings) (answer : OpenClawPairingStartResponse)
      → lookup c.code m ≡ none
      → start_openclaw_pairing config build_bind_url c starter m ≡ (m', ok answer)
      → Calls (λ a. call_code a ≢ c.code) c.now end m' u
      → end ≤ now
      → require_openclaw_pairing_origin origins claimer ≡ ok tt
      → trim code ≡ c.code
      → is_empty c.code ≡ false
      → (claim_openclaw_pairing config fingerprint_secret origins now claimer code u).1 ≡ (
          if ltb now (c.now + openclaw_pairing_ttl)
          then ok (claim_response config fingerprint_secret c.ends)
          else err (unauthorized (text "pairing code is invalid or expired")))
  unfolding start_openclaw_pairing claim_openclaw_pairing take_pairing
  claim_window c starter claimer code now end m m' u answer free start calls later origin named
        full =
      let p : OpenClawPairing = record {
        expires_at = c.now + openclaw_pairing_ttl;
        expires_at_rfc3339 = c.ends;
      } in
      let stored : m' ≡ insert c.code p (retain_unexpired c.now m) =
        elim (Result-cases (prepared_bind_url config build_bind_url c.code starter)) [
          | inl (url, e) ↦ ground (arith, start, e)
          | inr (e', e) ↦ absurd (ground (arith, start, e))
        ] in
      let unused = lookup-retain_absent c.now c.code m free in
      let first : Window c.code p c.now m' = rw stored (record {
        only = insert_own-Entry c.code p (retain_unexpired c.now m) unused;
        there = inl (lookup-insert_self c.code p (retain_unexpired c.now m));
      }) in
      let w = Calls-Window calls first in
      let filled : is_empty (trim code) ≡ false = rw named full in
      ap (λ (x : Pairings × Result ApiError OpenClawPairingClaimResponse). x.1)
        (claim-open now claimer code u origin filled)
      ∙ rw named (answers p w)
    where
      answers :
          (p : OpenClawPairing)
          → Window c.code p end u
          → (take_pairing config fingerprint_secret now c.code u).1 ≡ (
              if ltb now p.expires_at
              then ok (claim_response config fingerprint_secret p.expires_at_rfc3339)
              else err (unauthorized (text "pairing code is invalid or expired")))
      answers p w = elim (Bool-cases (ltb now p.expires_at)) [
        | inr over ↦
            let gone = lookup-retain_ended now c.code p u w.only (ground (arith, over)) in
            rw over (take_pairing-gone now c.code u gone)
        | inl live ↦ elim w.there [
          | inl held ↦
              let stays = lookup-retain_live now c.code p u held (ground (arith, live)) in
              rw live (take_pairing-live now c.code p u stays)
          | inr (gone, over) ↦ absurd (ground (arith, live, over, later))
        ]
      ]
