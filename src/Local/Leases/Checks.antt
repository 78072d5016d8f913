-- ===== src/Local/Leases/Checks.antt =====
-- apps/local-node/src/main.rs: what a lease that passes the checks is known to be.
use ozon_rust_suite.Common.{
  ◌+◌, ◌≤◌, ◌≡◌, refl, ◌⊎◌, inl, inr, Bool, true, false, not, ◌&&◌, Option, none, some, Text,
  text_eq_sound, Result, ok, err, ◌>>◌, require, ok_or, leb, ◌==◌, ==_iff, arith, Bool-cases,
  Option-cases, bind-eq-ok,
}
use ozon_rust_suite.Common.Secure.{Bytes}
use ozon_rust_suite.Domain.Task.{Instant}
use ozon_rust_suite.Domain.Account.{Feature, EntitlementLeaseSignature, EntitlementLease, claims}
use ozon_rust_suite.Cloud.Libraries.{Libraries}
use ozon_rust_suite.Cloud.Devices.{device_id_for}
use ozon_rust_suite.Secrets.{SecretStore}
use ozon_rust_suite.Local.{ApiError, LocalConfig}
use ozon_rust_suite.Local.Leases.{
  Crypto, contains_feature, lease_signing_payload, check_signature, verify_cloud_lease_signature,
  validate_cloud_lease, validate_cloud_lease_with_feature, ensure_lease_bound_to_device, LeaseState,
  LeaseIo, check_lease, require_valid_lease_with_feature, load_cloud_lease,
  load_or_create_device_fingerprint,
}

pub require-eq-ok : {E : Type 0} (b : Bool) (e : E) → require b e ≡ ok tt → b ≡ true
require-eq-ok true e h = refl
require-eq-ok false e h = cc

pub then-eq-ok :
    {E B : Type 0} (m : Result E (Unit {0})) (r : Result E B) {b : B}
    → (m >> r) ≡ ok b
    → (m ≡ ok tt) × (r ≡ ok b)
then-eq-ok (ok _) r h = (refl, h)
then-eq-ok (err e) r h = cc

ok_or-eq-ok : {E A : Type 0} (o : Option A) (e : E) {a : A} → ok_or o e ≡ ok a → o ≡ some a
ok_or-eq-ok none e h = cc
ok_or-eq-ok (some a) e h = ground arith

module _ {Key Sig : Type 0} (crypto : Crypto Key Sig) (config : LocalConfig) where
  -- The lease carries a signature for the configured issuer and audience, and the configured key
  -- confirms it for the text of the issuer, the audience and all claims of the lease.
  pub record IsSigned (lease : EntitlementLease) : Type 0 where
    pub signature : EntitlementLeaseSignature
    pub carried : lease.signature ≡ some signature
    pub pem : Text
    pub configured : config.lease_public_key_pem ≡ some pem
    pub key : Key
    pub parsed : crypto.from_public_key_pem pem ≡ some key
    pub bytes : Bytes
    pub decoded : crypto.base64_decode signature.value ≡ some bytes
    pub value : Sig
    pub made : crypto.signature_from bytes ≡ some value
    pub payload : Text
    pub written :
        crypto.payload_to_json config.lease_issuer config.lease_audience (claims lease)
        ≡ some payload
    pub verified : crypto.verify key payload value ≡ true

  written_for :
      (signature : EntitlementLeaseSignature) (lease : EntitlementLease) {payload : Text}
      → signature.issuer ≡ config.lease_issuer
      → signature.audience ≡ config.lease_audience
      → crypto.payload_to_json signature.issuer signature.audience (claims lease) ≡ some payload
      → crypto.payload_to_json config.lease_issuer config.lease_audience (claims lease)
        ≡ some payload
  written_for signature lease same for json = rw (← same, ← for) json

  check_signature-IsSigned :
      (lease : EntitlementLease) (signature : EntitlementLeaseSignature)
      → lease.signature ≡ some signature
      → check_signature crypto config lease signature ≡ ok tt
      → IsSigned lease
  unfolding check_signature lease_signing_payload
  check_signature-IsSigned lease signature carried h =
      let (_, h1) = then-eq-ok _ _ h in
      let (issuer, h2) = then-eq-ok _ _ h1 in
      let (audience, h3) = then-eq-ok _ _ h2 in
      let (pem, a, h4) = bind-eq-ok _ _ h3 in
      let (key, b, h5) = bind-eq-ok _ _ h4 in
      let (bytes, c, h6) = bind-eq-ok _ _ h5 in
      let (value, d, h7) = bind-eq-ok _ _ h6 in
      let (payload, e, h8) = bind-eq-ok _ _ h7 in
      let same = text_eq_sound signature.issuer config.lease_issuer (require-eq-ok _ _ issuer) in
      let for =
        text_eq_sound signature.audience config.lease_audience (require-eq-ok _ _ audience) in
      record {
        signature = signature;
        carried = carried;
        pem = pem;
        configured = ok_or-eq-ok _ _ a;
        key = key;
        parsed = ok_or-eq-ok _ _ b;
        bytes = bytes;
        decoded = ok_or-eq-ok _ _ c;
        value = value;
        made = ok_or-eq-ok _ _ d;
        payload = payload;
        written = written_for signature lease same for (ok_or-eq-ok _ _ e);
        verified = require-eq-ok _ _ h8;
      }

  pub verify_cloud_lease_signature-IsSigned :
      (lease : EntitlementLease)
      → verify_cloud_lease_signature crypto config lease ≡ ok tt
      → ((config.allow_unsigned_lease ≡ true) × (lease.signature ≡ none)) ⊎ IsSigned lease
  unfolding verify_cloud_lease_signature
  verify_cloud_lease_signature-IsSigned lease h = elim (Option-cases lease.signature) [
    | inl e ↦ inl (ground (arith, h, e))
    | inr (signature, e) ↦ inr (check_signature-IsSigned lease signature e (ground (arith, h, e)))
  ]

  pub validate-eq-ok :
      (now : Instant) (lease : EntitlementLease) (feature : Feature)
      → validate_cloud_lease_with_feature crypto config now lease feature ≡ ok tt
      → (now + 1 ≤ lease.expires_at)
        × (verify_cloud_lease_signature crypto config lease ≡ ok tt)
        × (contains_feature lease.features feature ≡ true)
  unfolding validate_cloud_lease_with_feature validate_cloud_lease
  validate-eq-ok now lease feature h =
      let (valid, has) = then-eq-ok _ _ h in
      let (fresh, signed) = then-eq-ok _ _ valid in
      let live = require-eq-ok (not (leb lease.expires_at now)) _ fresh in
      (ground (arith, live), signed, require-eq-ok _ _ has)

  -- An unexpired lease with the feature, whose signature the same configuration accepts, is valid.
  pub validate-ok :
      (now : Instant) (lease : EntitlementLease) (feature : Feature)
      → now + 1 ≤ lease.expires_at
      → verify_cloud_lease_signature crypto config lease ≡ ok tt
      → contains_feature lease.features feature ≡ true
      → validate_cloud_lease_with_feature crypto config now lease feature ≡ ok tt
  unfolding validate_cloud_lease_with_feature validate_cloud_lease
  validate-ok now lease feature fresh signed has =
      let live : leb lease.expires_at now ≡ false = ground arith in rw (live, signed, has) refl

module _ {S Io Key Sig : Type 0} (store : SecretStore S Io) (lib : Libraries)
    (crypto : Crypto Key Sig) (config : LocalConfig) where
  -- A lease at a time, for a feature and a device: not expired; signed, or unsigned where that is
  -- configured; with the feature; and made for the device identifier that the cloud derives from the
  -- lease's user and the device's fingerprint.
  pub record IsAccepted (now : Instant) (feature : Feature) (fingerprint : Text)
      (lease : EntitlementLease) : Type 0 where
    pub unexpired : now + 1 ≤ lease.expires_at
    pub authentic :
        ((config.allow_unsigned_lease ≡ true) × (lease.signature ≡ none))
        ⊎ IsSigned crypto config lease
    pub included : contains_feature lease.features feature ≡ true
    pub bound : lease.device_id ≡ device_id_for lib lease.user_id fingerprint

  pub check_lease-IsAccepted :
      (io : LeaseIo Io) (feature : Feature) (lease : EntitlementLease) (s : S)
      → (check_lease store lib crypto config io feature lease s).1 ≡ ok tt
      → (fingerprint : Text) × ((load_or_create_device_fingerprint store lib io s).1
          ≡ ok fingerprint)
        × IsAccepted io.now feature fingerprint lease
  unfolding check_lease ensure_lease_bound_to_device
  check_lease-IsAccepted io feature lease s h =
      go (validate_cloud_lease_with_feature crypto config io.now lease feature) refl
        (load_or_create_device_fingerprint store lib io s) refl
    where
      go :
          (v : Result ApiError (Unit {0}))
          → validate_cloud_lease_with_feature crypto config io.now lease feature ≡ v
          → (r : S × Result ApiError Text) → load_or_create_device_fingerprint store lib io s ≡ r
          → (fingerprint : Text) × ((load_or_create_device_fingerprint store lib io s).1
              ≡ ok fingerprint)
            × IsAccepted io.now feature fingerprint lease
      go (err e) v r q = absurd (ground (arith, h, v))
      go (ok _) v (s', err e) q = absurd (ground (arith, h, v, q))
      go (ok _) v (s', ok fingerprint) q =
          let (fresh, signed, has) = validate-eq-ok crypto config io.now lease feature v in
          let same : (lease.device_id == device_id_for lib lease.user_id fingerprint) ≡ true =
            ground (arith, h, v, q) in
          (
            fingerprint,
            rw q refl,
            record {
              unexpired = fresh;
              authentic = verify_cloud_lease_signature-IsSigned crypto config lease signed;
              included = has;
              bound = (==_iff _ _).0 same;
            },
          )

  -- When the lease check of a call passes, then either the node runs on mock data and is configured
  -- to take unsigned leases, or the lease that the node keeps is one that `IsAccepted` at this time,
  -- for this feature, and for the fingerprint of this device.
  pub require_valid_lease_sound :
      (io : LeaseIo Io) (feature : Feature) (s : LeaseState S)
      → (require_valid_lease_with_feature store lib crypto config io feature s).1 ≡ ok tt
      → ((config.use_real_ozon ≡ false) × (config.allow_unsigned_lease ≡ true))
        ⊎ ((lease : EntitlementLease) × (fingerprint : Text) × ((load_cloud_lease store lib crypto
                config io.lease_io s).1
              ≡ ok lease)
            × ((load_or_create_device_fingerprint store lib io
                  (load_cloud_lease store lib crypto config io.lease_io s).0.secrets).1
                ≡ ok fingerprint)
            × IsAccepted io.now feature fingerprint lease)
  unfolding require_valid_lease_with_feature
  require_valid_lease_sound io feature s h =
      elim (Bool-cases (not config.use_real_ozon && config.allow_unsigned_lease)) [
        | inl mock ↦ inl (ground arith)
        | inr checked ↦
            inr (go (load_cloud_lease store lib crypto config io.lease_io s) refl checked)
      ]
    where
      go :
          (r : LeaseState S × Result ApiError EntitlementLease)
          → load_cloud_lease store lib crypto config io.lease_io s ≡ r
          → (not config.use_real_ozon && config.allow_unsigned_lease) ≡ false
          → (lease : EntitlementLease) × (fingerprint : Text) × (r.1 ≡ ok lease)
            × ((load_or_create_device_fingerprint store lib io r.0.secrets).1 ≡ ok fingerprint)
            × IsAccepted io.now feature fingerprint lease
      go (s', err e) q checked = absurd (ground (arith, h, q, checked))
      go (s', ok lease) q checked =
          let passed : (check_lease store lib crypto config io feature lease s'.secrets).1 ≡ ok tt =
            ground (arith, h, q, checked) in
          let (fingerprint, here, accepted) =
            check_lease-IsAccepted io feature lease s'.secrets passed in
          (lease, fingerprint, refl, here, accepted)
