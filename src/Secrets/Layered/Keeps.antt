-- ===== src/Secrets/Layered/Keeps.antt =====
-- crates/secret-store/src/lib.rs: reads lose no secret.
use ozon_rust_suite.Common.{
  ◌≡◌, refl, sym, ap, ◌∙◌, inl, inr, Option, none, some, Text, text_eq, text_eq_refl, text_eq_sound,
  ok, err, Bool-cases,
}
use ozon_rust_suite.Secrets.{Answer, SecretStore, IsStore}
use ozon_rust_suite.Secrets.Layered.{
  timed, LayeredIo, migrate, after_miss, from_file, after_first, get_layered,
}
use ozon_rust_suite.Secrets.Layered.Laws.{
  Sets, Same, timed_put-cases, delete-cases, timed_get-Same, timed_get-ok,
}

-- The secret that a reader is to find: that of the keyring, or else that of the file.
abbrev pub prefer : Option Text → Option Text → Option Text
prefer (some v) o = some v
prefer none o = o

module _ {S P T F : Type 0} {primary : SecretStore S P} {fallback : SecretStore T F}
    {held : S → Text → Option Text} {stored : T → Text → Option Text}
    (keyring : IsStore primary held) (file : IsStore fallback stored) where
  -- A copy in the file goes or stays; where the keyring has the secret, no reader sees the change.
  cleanup_keeps :
      (io : F) (n : Text) (s : S) (t : T) {v : Text}
      → held s n ≡ some v
      → (m : Text)
      → prefer (held s m) (stored (fallback.delete io n t).0 m) ≡ prefer (held s m) (stored t m)
  cleanup_keeps io n s t {v} has m = elim (delete-cases file io n t) [
    | inr same ↦ rw (same m) refl
    | inl gone ↦ elim (Bool-cases (text_eq n m)) [
      | inl e ↦ let it : held s m ≡ some v = rw (← text_eq_sound n m e) has in rw it refl
      | inr e ↦ rw (gone m, e) refl
    ]
  ]

  -- The keyring holds now what only the file held.
  moved_keeps :
      (n v : Text) (s s' : S) (t : T)
      → held s n ≡ none
      → stored t n ≡ some v
      → Sets held n (some v) s s'
      → (m : Text) → prefer (held s' m) (stored t m) ≡ prefer (held s m) (stored t m)
  moved_keeps n v s s' t misses has sets m = elim (Bool-cases (text_eq n m)) [
    | inl e ↦
        let it : n ≡ m = text_eq_sound n m e in
        let miss : held s m ≡ none = rw (← it) misses in
        let old : stored t m ≡ some v = rw (← it) has in rw (sets m, e, miss, old) refl
    | inr e ↦ rw (sets m, e) refl
  ]

  migrate_keeps :
      (io : LayeredIo P F) (n v : Text) (s : S) (t : T)
      → held s n ≡ none
      → stored t n ≡ some v
      → (m : Text)
      → prefer
          (held (migrate primary fallback io n v (s, t)).0 m)
          (stored (migrate primary fallback io n v (s, t)).1 m)
        ≡ prefer (held s m) (stored t m)
  unfolding migrate
  migrate_keeps io n v s t misses has m =
      elim (timed_put-cases keyring io.migrate_timing io.migrate n v s) [
        | inl (went, sets) ↦
            let here = sets n in
            let kept =
              cleanup_keeps io.cleanup n
                (timed io.migrate_timing s (primary.put io.migrate n v s)).0 t {v = v}
                (rw (text_eq_refl n) at here) m in
            rw went (kept ∙ moved_keeps n v s _ t misses has sets m)
        | inr (stuck, inl sets) ↦ rw stuck (moved_keeps n v s _ t misses has sets m)
        | inr (stuck, inr same) ↦ rw (stuck, same m) refl
      ]

  -- Two states of which a reader is to find the same.
  abbrev pub SameSecrets : S × T → S × T → Type 0
  SameSecrets a b =
      (m : Text) → prefer (held b.0 m) (stored b.1 m) ≡ prefer (held a.0 m) (stored a.1 m)

  from_file_keeps :
      (io : F) (n : Text) (s s' : S) (t : T)
      → Same held s s'
      → SameSecrets (s, t) (from_file primary fallback s' (fallback.get io n t)).0
  from_file_keeps io n s s' t same m = rw (same m, file.get_same io n m t) refl

  after_miss_keeps :
      (io : LayeredIo P F) (n : Text) (s s' : S) (t : T)
      → Same held s s'
      → held s n ≡ none
      → SameSecrets (s, t) (after_miss primary fallback io n s' (fallback.get io.fallback n t)).0
  after_miss_keeps io n s s' t same misses = go (fallback.get io.fallback n t) refl
    where
      go :
          (r : T × Answer (Option Text))
          → fallback.get io.fallback n t ≡ r
          → SameSecrets (s, t) (after_miss primary fallback io n s' r).0
      go (t', err x) e m =
          let kept : stored t' m ≡ stored t m =
            ap (λ q. stored q.0 m) (sym e) ∙ file.get_same io.fallback n m t in
          rw (same m, kept) refl
      go (t', ok none) e m =
          let kept : stored t' m ≡ stored t m =
            ap (λ q. stored q.0 m) (sym e) ∙ file.get_same io.fallback n m t in
          rw (same m, kept) refl
      go (t', ok (some v)) e m =
          let kept : (k : Text) → stored t' k ≡ stored t k =
            λ k. ap (λ q. stored q.0 k) (sym e) ∙ file.get_same io.fallback n k t in
          let has : some v ≡ stored t n = file.get_ok io.fallback n t t' (some v) e in
          migrate_keeps io n v s' t' (same n ∙ misses) (kept n ∙ sym has) m
          ∙ rw (same m, kept m) refl

  -- A read changes no secret that a reader is to find, whichever call of the keyring or of the file
  -- fails, times out, or runs after its timeout; the move of a secret into the keyring included.
  pub get_layered_keeps :
      (io : LayeredIo P F) (n : Text) (s : S) (t : T)
      → SameSecrets (s, t) (get_layered primary fallback io n (s, t)).0
  unfolding get_layered
  get_layered_keeps io n s t =
      go (timed io.timing s (primary.get io.primary n s))
        (timed_get-Same keyring io.timing io.primary n s)
        (timed_get-ok keyring io.timing io.primary n s)
    where
      go :
          (r : S × Option (Answer (Option Text)))
          → Same held s r.0
          → ((a : Option Text) → r.1 ≡ some (ok a) → a ≡ held s n)
          → SameSecrets (s, t) (after_first primary fallback io n t r).0
      go (s', some (ok (some v))) same answer m =
          cleanup_keeps io.cleanup n s' t {v = v} (same n ∙ sym (answer (some v) refl)) m
          ∙ rw (same m) refl
      go (s', some (ok none)) same answer m =
          after_miss_keeps io n s s' t same (sym (answer none refl)) m
      go (s', some (err e)) same answer m = from_file_keeps io.fallback n s s' t same m
      go (s', none) same answer m = from_file_keeps io.fallback n s s' t same m
