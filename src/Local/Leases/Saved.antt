-- ===== src/Local/Leases/Saved.antt =====
-- apps/local-node/src/main.rs: a lease that was saved keeps passing the checks until it expires.
use ozon_rust_suite.Common.{
  ◌+◌, ◌≤◌, ◌≡◌, refl, sym, ap, ◌∙◌, ◌⊎◌, inl, inr, true, Option, none, some, Text, text_eq, Result,
  ok, err, arith, Option-cases,
}
use ozon_rust_suite.Domain.Account.{Feature, ozon_read, EntitlementLease}
use ozon_rust_suite.Cloud.Libraries.{Libraries}
use ozon_rust_suite.Secrets.{Answer, SecretStore, IsStore}
use ozon_rust_suite.Local.{ApiError, LocalConfig}
use ozon_rust_suite.Local.Leases.{
  Crypto, LeaseState, LeaseIo, secret_device_fingerprint, secret_cloud_lease,
  load_or_create_device_fingerprint, check_lease, save_lease, save_portal_lease, load_cloud_lease,
  require_valid_lease_with_feature, parsed_lease, validate_cloud_lease_with_feature,
  ensure_lease_bound_to_device, verify_cloud_lease_signature, contains_feature,
}
use ozon_rust_suite.Local.Leases.Checks.{validate-eq-ok, validate-ok}
use ozon_rust_suite.Local.Leases.Kept.{IsIdText, fingerprint_kept}

-- Every read of a secret answers in this call.
abbrev pub Answers : {S Io : Type 0} → SecretStore S Io → Io → Type 0
Answers {S} store io =
    (n : Text) (s : S) → (found : Option Text) × ((store.get io n s).1 ≡ ok found)

module _ {S Io Key Sig : Type 0} {store : SecretStore S Io} {view : S → Text → Option Text}
    (is_store : IsStore store view) (lib : Libraries) (crypto : Crypto Key Sig)
    (config : LocalConfig) where
  -- A check that passed, in its parts.
  record Passed (io : LeaseIo Io) (feature : Feature) (lease : EntitlementLease) (s s' : S)
      : Type 0 where
    signed : verify_cloud_lease_signature crypto config lease ≡ ok tt
    included : contains_feature lease.features feature ≡ true
    fingerprint : Text
    here : load_or_create_device_fingerprint store lib io s ≡ (s', ok fingerprint)
    bound : ensure_lease_bound_to_device lib lease fingerprint ≡ ok tt

  check_lease-Passed :
      (io : LeaseIo Io) (feature : Feature) (lease : EntitlementLease) (s s' : S)
      → check_lease store lib crypto config io feature lease s ≡ (s', ok tt)
      → Passed io feature lease s s'
  unfolding check_lease
  check_lease-Passed io feature lease s s' h =
      go (validate_cloud_lease_with_feature crypto config io.now lease feature) refl
        (load_or_create_device_fingerprint store lib io s) refl
    where
      go :
          (v : Result ApiError (Unit {0}))
          → validate_cloud_lease_with_feature crypto config io.now lease feature ≡ v
          → (r : S × Result ApiError Text) → load_or_create_device_fingerprint store lib io s ≡ r
          → Passed io feature lease s s'
      go (err e) v r q = absurd (ground (arith, h, v))
      go (ok _) v (s1, err e) q = absurd (ground (arith, h, v, q))
      go (ok _) v (s1, ok fingerprint) q =
          let (fresh, signed, has) = validate-eq-ok crypto config io.now lease feature v in
          let same : s1 ≡ s' = ground (arith, h, v, q) in
          record {
            signed = signed;
            included = has;
            fingerprint = fingerprint;
            here = rw (← same) q;
            bound = ground (arith, h, v, q);
          }

  check_lease-passes :
      (io : LeaseIo Io) (feature : Feature) (lease : EntitlementLease) (s : S) (fingerprint : Text)
      → validate_cloud_lease_with_feature crypto config io.now lease feature ≡ ok tt
      → (load_or_create_device_fingerprint store lib io s).1 ≡ ok fingerprint
      → ensure_lease_bound_to_device lib lease fingerprint ≡ ok tt
      → (check_lease store lib crypto config io feature lease s).1 ≡ ok tt
  unfolding check_lease
  check_lease-passes io feature lease s fingerprint v l b = ground (arith, v, l, b)

  -- A saved lease, and the secrets after the checks and after the save.
  save_portal_lease-inv :
      (io : LeaseIo Io) (lease : EntitlementLease) (s s' : LeaseState S)
      → save_portal_lease store lib crypto config io lease s ≡ (s', ok tt)
      → (q : S) × (json : Text) × Passed io ozon_read lease s.secrets q
        × (crypto.lease_to_json lease ≡ some json)
        × (store.put io.lease_io secret_cloud_lease json q ≡ (s'.secrets, ok tt))
  unfolding save_portal_lease save_lease
  save_portal_lease-inv io lease s s' h =
      go (check_lease store lib crypto config io ozon_read lease s.secrets) refl
    where
      Found : Type 0
      Found =
          (q : S) × (json : Text) × Passed io ozon_read lease s.secrets q
          × (crypto.lease_to_json lease ≡ some json)
          × (store.put io.lease_io secret_cloud_lease json q ≡ (s'.secrets, ok tt))

      put :
          (q : S) (json : Text)
          → check_lease store lib crypto config io ozon_read lease s.secrets ≡ (q, ok tt)
          → crypto.lease_to_json lease ≡ some json
          → (r : S × Answer (Unit {0})) → store.put io.lease_io secret_cloud_lease json q ≡ r
          → Found
      put q json c j (s1, err e) p = absurd (ground (arith, h, c, j, p))
      put q json c j (s1, ok _) p =
          let same : s1 ≡ s'.secrets = ground (arith, h, c, j, p) in
          (q, json, check_lease-Passed io ozon_read lease s.secrets q c, j, rw (← same) p)

      go :
          (r : S × Result ApiError (Unit {0}))
          → check_lease store lib crypto config io ozon_read lease s.secrets ≡ r
          → Found
      go (q, err e) c = absurd (ground (arith, h, c))
      go (q, ok _) c = elim (Option-cases (crypto.lease_to_json lease)) [
        | inl none' ↦ absurd (ground (arith, h, c, none'))
        | inr (json, j) ↦ put q json c j (store.put io.lease_io secret_cloud_lease json q) refl
      ]

  -- The load of a lease that the cache or the store holds.
  load_cloud_lease-held :
      (io : Io) (lease : EntitlementLease) (json : Text) (t : LeaseState S)
      → (t.cloud_lease_cache ≡ none) ⊎ (t.cloud_lease_cache ≡ some lease)
      → view t.secrets secret_cloud_lease ≡ some json
      → crypto.lease_from_json json ≡ some lease
      → Answers store io
      → ((load_cloud_lease store lib crypto config io t).1 ≡ ok lease)
        × ((n : Text)
            → view (load_cloud_lease store lib crypto config io t).0.secrets n ≡ view t.secrets n)
  unfolding load_cloud_lease parsed_lease
  load_cloud_lease-held io lease json t (inr cached) held parses answers =
      rw cached (refl, λ n. refl)
  load_cloud_lease-held io lease json t (inl empty) held parses answers =
      go (store.get io secret_cloud_lease t.secrets) refl (answers secret_cloud_lease t.secrets)
    where
      go :
          (r : S × Answer (Option Text))
          → store.get io secret_cloud_lease t.secrets ≡ r
          → (found : Option Text) × ((store.get io secret_cloud_lease t.secrets).1 ≡ ok found)
          → ((load_cloud_lease store lib crypto config io t).1 ≡ ok lease)
            × ((n : Text)
                → view (load_cloud_lease store lib crypto config io t).0.secrets n
                  ≡ view t.secrets n)
      go (s1, err e) p (found, a) = absurd (ground (arith, p, a))
      go (s1, ok f) p _ =
          let it : f ≡ some json = is_store.get_ok io secret_cloud_lease t.secrets s1 f p ∙ held in
          let kept : (n : Text) → view s1 n ≡ view t.secrets n = λ n.
            ap (λ (x : S × Answer (Option Text)). view x.0 n) (sym p)
            ∙ is_store.get_same io secret_cloud_lease n t.secrets in
          let loaded : LeaseState S = record { secrets = s1; cloud_lease_cache = some lease } in
          let whole : load_cloud_lease store lib crypto config io t ≡ (loaded, ok lease) =
            ground (arith, empty, p, it, parses) in
          (
            ap (λ (x : LeaseState S × Result ApiError EntitlementLease). x.1) whole,
            λ n.
                ap (λ (x : LeaseState S × Result ApiError EntitlementLease). view x.0.secrets n)
                  whole
                ∙ kept n,
          )

  -- A lease that was saved passes the lease check of every later call until it expires, also after a
  -- restart that empties the cache: as long as the store keeps the secrets of the save, the reads
  -- answer, and the machine's own identifier has not changed. JSON that was written is read back as
  -- the lease it was written for.
  pub save_portal_lease_kept :
      (io io' : LeaseIo Io) (lease : EntitlementLease) (s s' t : LeaseState S)
      → IsIdText (lib.uuid_debug io.new_id)
      → ((json : Text)
          → crypto.lease_to_json lease ≡ some json
          → crypto.lease_from_json json ≡ some lease)
      → save_portal_lease store lib crypto config io lease s ≡ (s', ok tt)
      → ((n : Text) → view t.secrets n ≡ view s'.secrets n)
      → (t.cloud_lease_cache ≡ none) ⊎ (t.cloud_lease_cache ≡ some lease)
      → io'.stable ≡ io.stable
      → io'.now + 1 ≤ lease.expires_at
      → Answers store io'.lease_io
      → Answers store io'.get_io
      → (require_valid_lease_with_feature store lib crypto config io' ozon_read t).1 ≡ ok tt
  unfolding require_valid_lease_with_feature text_eq
  save_portal_lease_kept io io' lease s s' t id reads saved kept cache stable fresh answers finds =
      let (q, json, passed, written, put) = save_portal_lease-inv io lease s s' saved in
      let holds =
        is_store.put_ok io.lease_io secret_cloud_lease json secret_cloud_lease q s'.secrets put in
      let other =
        is_store.put_ok io.lease_io secret_cloud_lease json secret_device_fingerprint q s'.secrets
          put in
      let held : view t.secrets secret_cloud_lease ≡ some json = kept secret_cloud_lease ∙ holds in
      let (loads, same) =
        load_cloud_lease-held io'.lease_io lease json t cache held (reads json written) answers in
      let after = (load_cloud_lease store lib crypto config io'.lease_io t).0.secrets in
      let named : view after secret_device_fingerprint ≡ view q secret_device_fingerprint =
        same secret_device_fingerprint ∙ kept secret_device_fingerprint ∙ other in
      let (found, answer) = finds secret_device_fingerprint after in
      let device =
        fingerprint_kept is_store lib io io' s.secrets q after passed.fingerprint found id stable
          passed.here named answer in
      let valid =
        validate-ok crypto config io'.now lease ozon_read fresh passed.signed passed.included in
      let ready =
        check_lease-passes io' ozon_read lease after passed.fingerprint valid device passed.bound in
      ground (arith, loads, ready)
