-- ===== src/Local/Leases/Kept.antt =====
-- apps/local-node/src/main.rs: the device keeps its fingerprint, and a saved lease keeps passing.
use ozon_rust_suite.Common.{
  ◌≤◌, ◌≡◌, refl, ◌∙◌, inl, inr, true, false, [], ◌∷◌, ◌++◌, Option, none, some, Text, text,
  text_eq_refl, ok, err, leb, any, arith, Option-cases,
}
use ozon_rust_suite.Common.Unicode.{byte_length, is_whitespace}
use ozon_rust_suite.Domain.Identity.Phones.{trim-no_whitespace, any-append_or}
use ozon_rust_suite.Cloud.Libraries.{Libraries}
use ozon_rust_suite.Secrets.{Answer, SecretStore, IsStore}
use ozon_rust_suite.Local.Leases.{
  LeaseIo, usable_fingerprint, create_fingerprint, stored_fingerprint, starts_with,
  secret_device_fingerprint, load_or_create_device_fingerprint,
}

-- What the text of a new identifier is known to be: at least ten bytes, and no white space.
pub record IsIdText (id : Text) : Type 0 where
  pub long : 10 ≤ byte_length id
  pub dense : any is_whitespace id ≡ false

starts_with_self : (p s : Text) → starts_with (p ++ s) p ≡ true
unfolding starts_with
starts_with_self [] s = refl
starts_with_self (c ∷ p) s = ground (arith, starts_with_self p s)

new_fingerprint-usable :
    (id : Text)
    → IsIdText id
    → usable_fingerprint (some (text "ors-local-" ++ id)) ≡ some (text "ors-local-" ++ id)
unfolding usable_fingerprint
new_fingerprint-usable id it =
    let dense : any is_whitespace (text "ors-local-" ++ id) ≡ false =
      rw (any-append_or is_whitespace (text "ors-local-") id, it.dense)
        (unfold is_whitespace in refl) in
    let long = it.long in
    let enough : leb 20 (byte_length (text "ors-local-" ++ id)) ≡ true = ground arith in
    rw
      (
        trim-no_whitespace (text "ors-local-" ++ id) dense,
        starts_with_self (text "ors-local-") id,
        enough,
      )
      refl

module _ {S Io : Type 0} {store : SecretStore S Io} {view : S → Text → Option Text}
    (is_store : IsStore store view) (lib : Libraries) where
  -- What a call that found or made a fingerprint leaves in the store, when the machine has none of
  -- its own.
  fingerprint-stored :
      (io : LeaseIo Io) (s s' : S) (fingerprint : Text)
      → IsIdText (lib.uuid_debug io.new_id)
      → io.stable ≡ none
      → load_or_create_device_fingerprint store lib io s ≡ (s', ok fingerprint)
      → usable_fingerprint (view s' secret_device_fingerprint) ≡ some fingerprint
  unfolding load_or_create_device_fingerprint stored_fingerprint create_fingerprint
  fingerprint-stored io s s' fingerprint id unstable h =
      got (store.get io.get_io secret_device_fingerprint s) refl (ground (arith, h, unstable))
    where
      put :
          (r : S × Answer (Unit {0})) (s1 : S)
          → store.put io.put_io secret_device_fingerprint
              (text "ors-local-" ++ lib.uuid_debug io.new_id)
              s1
            ≡ r
          → create_fingerprint store lib io s1 ≡ (s', ok fingerprint)
          → usable_fingerprint (view s' secret_device_fingerprint) ≡ some fingerprint
      put (s2, err e) s1 q k = absurd (ground (arith, q, k))
      put (s2, ok _) s1 q k =
          let same : s2 ≡ s' = ground (arith, q, k) in
          let made : text "ors-local-" ++ lib.uuid_debug io.new_id ≡ fingerprint =
            ground (arith, q, k) in
          let kept =
            is_store.put_ok io.put_io secret_device_fingerprint
              (text "ors-local-" ++ lib.uuid_debug io.new_id) secret_device_fingerprint s1 s2 q in
          let usable = new_fingerprint-usable (lib.uuid_debug io.new_id) id in
          rw (← same, kept, text_eq_refl secret_device_fingerprint, ← made) usable

      got :
          (r : S × Answer (Option Text))
          → store.get io.get_io secret_device_fingerprint s ≡ r
          → stored_fingerprint store lib io r ≡ (s', ok fingerprint)
          → usable_fingerprint (view s' secret_device_fingerprint) ≡ some fingerprint
      got (s1, err e) q k = absurd (ground (arith, k))
      got (s1, ok found) q k = elim (Option-cases (usable_fingerprint found)) [
        | inl e ↦
            put
              (store.put io.put_io secret_device_fingerprint
                (text "ors-local-" ++ lib.uuid_debug io.new_id) s1)
              s1 refl (ground (arith, k, e))
        | inr (v, e) ↦
            let same : s1 ≡ s' = ground (arith, k, e) in
            let read : v ≡ fingerprint = ground (arith, k, e) in
            let at_first = is_store.get_ok io.get_io secret_device_fingerprint s s1 found q in
            let after =
              is_store.get_same io.get_io secret_device_fingerprint secret_device_fingerprint s in
            let kept : view s1 secret_device_fingerprint ≡ view s secret_device_fingerprint =
              rw q at after in
            rw (← same, kept, ← at_first, e, read) refl
      ]

  -- A device keeps its fingerprint: when a call has found or made one, a later call on a store that
  -- holds the same under its name, and answers, returns the same, also after a restart, whichever
  -- identifiers are drawn. The machine's own identifier is there in both calls, the same, or in none.
  pub fingerprint_kept :
      (io io' : LeaseIo Io) (s s' t : S) (fingerprint : Text) (found : Option Text)
      → IsIdText (lib.uuid_debug io.new_id)
      → io'.stable ≡ io.stable
      → load_or_create_device_fingerprint store lib io s ≡ (s', ok fingerprint)
      → view t secret_device_fingerprint ≡ view s' secret_device_fingerprint
      → (store.get io'.get_io secret_device_fingerprint t).1 ≡ ok found
      → (load_or_create_device_fingerprint store lib io' t).1 ≡ ok fingerprint
  unfolding load_or_create_device_fingerprint stored_fingerprint
  fingerprint_kept io io' s s' t fingerprint found id same h kept answers =
      elim (Option-cases io.stable) [
        | inr (v, e) ↦ ground (arith, h, same, e)
        | inl e ↦
            let stored = fingerprint-stored io s s' fingerprint id e h in
            again (store.get io'.get_io secret_device_fingerprint t) refl answers stored (same ∙ e)
      ]
    where
      again :
          (r : S × Answer (Option Text))
          → store.get io'.get_io secret_device_fingerprint t ≡ r
          → r.1 ≡ ok found
          → usable_fingerprint (view s' secret_device_fingerprint) ≡ some fingerprint
          → io'.stable ≡ none
          → (load_or_create_device_fingerprint store lib io' t).1 ≡ ok fingerprint
      again (t', err e) q a stored off = cc
      again (t', ok f) q a stored off =
          let at = is_store.get_ok io'.get_io secret_device_fingerprint t t' f q in
          let usable : usable_fingerprint f ≡ some fingerprint = rw (at, kept) stored in
          ground (arith, off, q, usable)
