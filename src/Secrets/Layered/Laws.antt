-- ===== src/Secrets/Layered/Laws.antt =====
-- crates/secret-store/src/lib.rs: what the keyring over the file keeps, deletes and loses.
use ozon_rust_suite.Common.{
  ◌≡◌, refl, ◌⊎◌, inl, inr, true, false, Option, none, some, Text, text_eq, ok, err, arith,
  if◌then◌else◌,
}
use ozon_rust_suite.Secrets.{Answer, SecretStore, IsStore}
use ozon_rust_suite.Secrets.Layered.{Timing, in_time, ran_late, never_ran, timed, went_through}

-- `n` holds `v` now, and the other names what they held.
abbrev pub Sets : {S : Type 0} → (S → Text → Option Text) → Text → Option Text → S → S → Type 0
Sets view n o s s' = (m : Text) → view s' m ≡ (if text_eq n m then o else view s m)

abbrev pub Same : {S : Type 0} → (S → Text → Option Text) → S → S → Type 0
Same view s s' = (m : Text) → view s' m ≡ view s m

module _ {S P : Type 0} {store : SecretStore S P} {view : S → Text → Option Text}
    (law : IsStore store view) where
  pub timed_put-cases :
      (timing : Timing) (io : P) (n v : Text) (s : S)
      → ((went_through (timed timing s (store.put io n v s)).1 ≡ true)
          × Sets view n (some v) s (timed timing s (store.put io n v s)).0)
        ⊎ ((went_through (timed timing s (store.put io n v s)).1 ≡ false)
            × (Sets view n (some v) s (timed timing s (store.put io n v s)).0
                ⊎ Same view s (timed timing s (store.put io n v s)).0))
  timed_put-cases never_ran io n v s = inr (refl, inr (λ m. refl))
  timed_put-cases in_time io n v s = go (store.put io n v s) refl
    where
      go :
          (r : S × Answer (Unit {0}))
          → store.put io n v s ≡ r
          → ((went_through (timed in_time s r).1 ≡ true)
              × Sets view n (some v) s (timed in_time s r).0)
            ⊎ ((went_through (timed in_time s r).1 ≡ false)
                × (Sets view n (some v) s (timed in_time s r).0
                    ⊎ Same view s (timed in_time s r).0))
      go (s', ok _) e = inl (refl, λ m. law.put_ok io n v m s s' e)
      go (s', err x) e = inr (refl, inr (λ m. law.put_err io n v m s s' x e))
  timed_put-cases ran_late io n v s = go (store.put io n v s) refl
    where
      go :
          (r : S × Answer (Unit {0}))
          → store.put io n v s ≡ r
          → ((went_through (timed ran_late s r).1 ≡ true)
              × Sets view n (some v) s (timed ran_late s r).0)
            ⊎ ((went_through (timed ran_late s r).1 ≡ false)
                × (Sets view n (some v) s (timed ran_late s r).0
                    ⊎ Same view s (timed ran_late s r).0))
      go (s', ok _) e = inr (refl, inl (λ m. law.put_ok io n v m s s' e))
      go (s', err x) e = inr (refl, inr (λ m. law.put_err io n v m s s' x e))

  pub delete-cases :
      (io : P) (n : Text) (s : S)
      → Sets view n none s (store.delete io n s).0 ⊎ Same view s (store.delete io n s).0
  delete-cases io n s = go (store.delete io n s) refl
    where
      go :
          (r : S × Answer (Unit {0}))
          → store.delete io n s ≡ r
          → Sets view n none s r.0 ⊎ Same view s r.0
      go (s', ok _) e = inl (λ m. law.delete_ok io n m s s' e)
      go (s', err x) e = inr (λ m. law.delete_err io n m s s' x e)

  pub timed_get-Same :
      (timing : Timing) (io : P) (n : Text) (s : S)
      → Same view s (timed timing s (store.get io n s)).0
  timed_get-Same never_ran io n s m = refl
  timed_get-Same in_time io n s m = law.get_same io n m s
  timed_get-Same ran_late io n s m = law.get_same io n m s

  pub timed_get-ok :
      (timing : Timing) (io : P) (n : Text) (s : S) (r : Option Text)
      → (timed timing s (store.get io n s)).1 ≡ some (ok r)
      → r ≡ view s n
  timed_get-ok never_ran io n s r h = cc
  timed_get-ok ran_late io n s r h = cc
  timed_get-ok in_time io n s r h = law.get_ok io n s (store.get io n s).0 r (ground arith)
