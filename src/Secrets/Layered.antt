-- ===== src/Secrets/Layered.antt =====
-- crates/secret-store/src/lib.rs: `LayeredSecretStore`, the keyring over the file.
pub mod Laws
pub mod Keeps
pub mod Deletes
use ozon_rust_suite.Common.{
  ℕ, Bool, true, false, Option, none, some, Text, Result, ok, err, if◌then◌else◌,
}
use ozon_rust_suite.Secrets.{SecretStoreError, backend_unavailable, Answer, SecretStore}

-- What the timeout of half a second makes of a call of the keyring: its answer arrives, or it does
-- not, and then the call has run or has not.
pub data Timing : Type 0 where
  in_time ran_late never_ran : Timing

abbrev pub timed : {S A : Type 0} → Timing → S → S × Answer A → S × Option (Answer A)
timed in_time s (s', r) = (s', some r)
timed ran_late s (s', r) = (s', none)
timed never_ran s (s', r) = (s, none)

-- What the world does in one call: to the keyring, to the move of a secret into the keyring, to the
-- file, and to the removal of the copy in the file.
pub record LayeredIo (P F : Type 0) : Type 0 where
  pub timing : Timing
  pub primary : P
  pub migrate_timing : Timing
  pub migrate : P
  pub fallback : F
  pub cleanup : F

abbrev pub went_through : Option (Answer (Unit {0})) → Bool
went_through (some (ok _)) = true
went_through _ = false

module _ {S P T F : Type 0} (primary : SecretStore S P) (fallback : SecretStore T F) where
  unfoldable pub put_layered : LayeredIo P F → Text → Text → S × T → (S × T) × Answer (Unit {0})
  put_layered io n v (s, t) =
      let first = timed io.timing s (primary.put io.primary n v s) in
      if went_through first.1
      then ((first.0, (fallback.delete io.cleanup n t).0), ok tt)
      else (let second = fallback.put io.fallback n v t in ((first.0, second.0), second.1))

  -- A secret that only the file holds moves into the keyring.
  unfoldable pub migrate : LayeredIo P F → Text → Text → S × T → S × T
  migrate io n v (s, t) =
      let moved = timed io.migrate_timing s (primary.put io.migrate n v s) in
      (moved.0, if went_through moved.1 then (fallback.delete io.cleanup n t).0 else t)

  abbrev pub after_miss :
      LayeredIo P F → Text → S → T × Answer (Option Text) → (S × T) × Answer (Option Text)
  after_miss io n s (t, err e) = ((s, t), err e)
  after_miss io n s (t, ok none) = ((s, t), ok none)
  after_miss io n s (t, ok (some v)) = (migrate io n v (s, t), ok (some v))

  abbrev pub from_file : S → T × Answer (Option Text) → (S × T) × Answer (Option Text)
  from_file s (t, r) = ((s, t), r)

  -- The `match` on what the keyring has answered.
  abbrev pub after_first :
      LayeredIo P F → Text → T → S × Option (Answer (Option Text)) → (S × T) × Answer (Option Text)
  after_first io n t (s, some (ok (some v))) =
      ((s, (fallback.delete io.cleanup n t).0), ok (some v))
  after_first io n t (s, some (ok none)) = after_miss io n s (fallback.get io.fallback n t)
  after_first io n t (s, some (err e)) = from_file s (fallback.get io.fallback n t)
  after_first io n t (s, none) = from_file s (fallback.get io.fallback n t)

  unfoldable pub get_layered : LayeredIo P F → Text → S × T → (S × T) × Answer (Option Text)
  get_layered io n (s, t) = after_first io n t (timed io.timing s (primary.get io.primary n s))

  abbrev pub both : Option (Answer (Unit {0})) → Answer (Unit {0}) → Answer (Unit {0})
  both none r = err backend_unavailable
  both (some (err e)) r = err e
  both (some (ok _)) r = r

  unfoldable pub delete_layered : LayeredIo P F → Text → S × T → (S × T) × Answer (Unit {0})
  delete_layered io n (s, t) =
      let first = timed io.timing s (primary.delete io.primary n s) in
      let second = fallback.delete io.fallback n t in ((first.0, second.0), both first.1 second.1)

  abbrev pub layered_store : SecretStore (S × T) (LayeredIo P F)
  layered_store = record { put = put_layered; get = get_layered; delete = delete_layered }
