-- ===== src/Secrets/Layered/Deletes.antt =====
-- crates/secret-store/src/lib.rs: a deletion is final; a secret that was put while the keyring was out
-- can be lost.
use ozon_rust_suite.Common.{
  ◌≡◌, ◌≢◌, refl, sym, ap, ◌∙◌, Option, none, some, Text, text_eq_refl, ok, err, arith,
}
use ozon_rust_suite.Secrets.{SecretStoreError, Answer, SecretStore, IsStore}
use ozon_rust_suite.Secrets.Layered.{
  Timing, in_time, ran_late, never_ran, timed, LayeredIo, put_layered, after_miss, after_first,
  get_layered, both, delete_layered,
}
use ozon_rust_suite.Secrets.Layered.Laws.{timed_get-ok}

module _ {S P T F : Type 0} {primary : SecretStore S P} {fallback : SecretStore T F}
    {held : S → Text → Option Text} {stored : T → Text → Option Text}
    (keyring : IsStore primary held) (file : IsStore fallback stored) where
  -- A read finds nothing that neither the keyring nor the file holds.
  get_layered_sound :
      (io : LayeredIo P F) (n v : Text) (s : S) (t : T)
      → held s n ≡ none
      → stored t n ≡ none
      → (get_layered primary fallback io n (s, t)).1 ≡ ok (some v)
      → ⊥
  unfolding get_layered
  get_layered_sound io n v s t out gone h =
      go (timed io.timing s (primary.get io.primary n s))
        (timed_get-ok keyring io.timing io.primary n s) h
    where
      file_answers :
          (r : T × Answer (Option Text)) → fallback.get io.fallback n t ≡ r → r.1 ≡ ok (some v) → ⊥
      file_answers (t', r) e k =
          let it = file.get_ok io.fallback n t t' (some v) (ground (arith, e, k)) in cc (it, gone)

      missed :
          (s' : S) (r : T × Answer (Option Text))
          → fallback.get io.fallback n t ≡ r
          → (after_miss primary fallback io n s' r).1 ≡ ok (some v)
          → ⊥
      missed s' (t', err e) q k = cc
      missed s' (t', ok none) q k = cc
      missed s' (t', ok (some w)) q k =
          let it = file.get_ok io.fallback n t t' (some w) q in cc (it, gone)

      go :
          (r : S × Option (Answer (Option Text)))
          → ((a : Option Text) → r.1 ≡ some (ok a) → a ≡ held s n)
          → (after_first primary fallback io n t r).1 ≡ ok (some v)
          → ⊥
      go (s', some (ok (some w))) answer k = let it = answer (some w) refl in cc (it, out)
      go (s', some (ok none)) answer k = missed s' (fallback.get io.fallback n t) refl k
      go (s', some (err e)) answer k = file_answers (fallback.get io.fallback n t) refl k
      go (s', none) answer k = file_answers (fallback.get io.fallback n t) refl k

  delete_layered-gone :
      (io : LayeredIo P F) (n : Text) (s s' : S) (t t' : T)
      → delete_layered primary fallback io n (s, t) ≡ ((s', t'), ok tt)
      → (held s' n ≡ none) × (stored t' n ≡ none)
  unfolding delete_layered
  delete_layered-gone io n s s' t t' h =
      go (timed io.timing s (primary.delete io.primary n s)) (fallback.delete io.fallback n t)
        (deleted io.timing (primary.delete io.primary n s) refl)
        (cleared (fallback.delete io.fallback n t) refl) h
    where
      deleted :
          (timing : Timing) (r : S × Answer (Unit {0}))
          → primary.delete io.primary n s ≡ r
          → (timed timing s r).1 ≡ some (ok tt)
          → held (timed timing s r).0 n ≡ none
      deleted never_ran r e k = cc
      deleted ran_late r e k = cc
      deleted in_time (s1, err x) e k = cc
      deleted in_time (s1, ok _) e k =
          rw (keyring.delete_ok io.primary n n s s1 e, text_eq_refl n) refl

      cleared :
          (q : T × Answer (Unit {0}))
          → fallback.delete io.fallback n t ≡ q
          → q.1 ≡ ok tt
          → stored q.0 n ≡ none
      cleared (t1, err x) e k = cc
      cleared (t1, ok _) e k = rw (file.delete_ok io.fallback n n t t1 e, text_eq_refl n) refl

      go :
          (r : S × Option (Answer (Unit {0}))) (q : T × Answer (Unit {0}))
          → (r.1 ≡ some (ok tt) → held r.0 n ≡ none)
          → (q.1 ≡ ok tt → stored q.0 n ≡ none)
          → ◌≡◌ {A = (S × T) × Answer (Unit {0})}
              ((r.0, q.0), both primary fallback r.1 q.1)
              ((s', t'), ok tt)
          → (held s' n ≡ none) × (stored t' n ≡ none)
      go (s1, none) q a b k = absurd (ground arith)
      go (s1, some (err e)) q a b k = absurd (ground arith)
      go (s1, some (ok _)) (t1, err e) a b k = absurd (ground arith)
      go (s1, some (ok _)) (t1, ok _) a b k = (
        ap (λ (x : (S × T) × Answer (Unit {0})). held x.0.0 n) (sym k) ∙ a refl,
        ap (λ (x : (S × T) × Answer (Unit {0})). stored x.0.1 n) (sym k) ∙ b refl,
      )

  -- After a deletion that is reported as done, no read returns the secret, whatever fails or times
  -- out in the deletion and in the read.
  pub get_layered-delete_layered :
      (io io' : LayeredIo P F) (n v : Text) (s s' : S) (t t' : T)
      → delete_layered primary fallback io n (s, t) ≡ ((s', t'), ok tt)
      → (get_layered primary fallback io' n (s', t')).1 ≢ ok (some v)
  get_layered-delete_layered io io' n v s s' t t' h found =
      let (out, gone) = delete_layered-gone io n s s' t t' h in
      get_layered_sound io' n v s' t' out gone found

  -- The keyring holds a secret, refuses to replace it and stays as it is, and the file takes the new
  -- one. Then the put is reported as done, but a read that reaches the keyring returns the old
  -- secret, and after it neither the keyring nor the file holds the new one.
  pub put_layered_lost :
      (io io' : LayeredIo P F) (n old v : Text) (e : SecretStoreError) (s : S) (t t1 t2 : T)
      → old ≢ v
      → held s n ≡ some old
      → io.timing ≡ in_time
      → primary.put io.primary n v s ≡ (s, err e)
      → fallback.put io.fallback n v t ≡ (t1, ok tt)
      → io'.timing ≡ in_time
      → primary.get io'.primary n s ≡ (s, ok (some old))
      → fallback.delete io'.cleanup n t1 ≡ (t2, ok tt)
      → (put_layered primary fallback io n v (s, t) ≡ ((s, t1), ok tt))
        × (get_layered primary fallback io' n (s, t1) ≡ ((s, t2), ok (some old)))
        × (held s n ≢ some v)
        × (stored t2 n ≡ none)
  unfolding put_layered get_layered
  put_layered_lost io io' n old v e s t t1 t2 ne has on refused taken on' found removed = (
    rw (on, refused, taken) refl,
    ap (after_first primary fallback io' n t1) (answers io'.timing on')
        ∙ ap (λ (q : T × Answer (Unit {0})). ((s, q.0), ok (some old))) removed,
    λ same. ne (ground (arith, has, same)),
    rw (file.delete_ok io'.cleanup n n t1 t2 removed, text_eq_refl n) refl,
  )
    where
      answers :
          (timing : Timing)
          → timing ≡ in_time
          → timed timing s (primary.get io'.primary n s) ≡ (s, some (ok (some old)))
      answers timing p = rw (p, found) refl
