-- ===== src/Secrets.antt =====
-- crates/secret-store/src/lib.rs: what every secret store offers, and what its callers rely on.
pub mod Memory
pub mod File
pub mod System
pub mod Layered
mod Examples
use ozon_rust_suite.Common.{
  ℕ, ◌≡◌, ◌≢◌, Option, none, some, Text, text_eq, Result, ok, err, if◌then◌else◌,
}

pub data SecretStoreError : Type 0 where
  backend_unavailable access_denied invalid_name invalid_encoding : SecretStoreError

abbrev pub Answer : Type 0 → Type 0
Answer A = Result SecretStoreError A

-- The trait `SecretStore` over a state `S`. An operation is given what the outside world does to it
-- in this call, of type `Io`. Names and values are texts.
pub record SecretStore (S Io : Type 0) : Type 0 where
  pub put : Io → Text → Text → S → S × Answer (Unit {0})
  pub get : Io → Text → S → S × Answer (Option Text)
  pub delete : Io → Text → S → S × Answer (Unit {0})

-- The secrets that a state holds, and how each operation changes them: a call that succeeds does
-- what its name says, a call that fails changes no secret, and a read changes none.
pub record IsStore {S Io : Type 0} (store : SecretStore S Io) (view : S → Text → Option Text)
    : Type 0 where
  pub put_ok :
      (io : Io) (n v m : Text) (s s' : S)
      → store.put io n v s ≡ (s', ok tt)
      → view s' m ≡ (if text_eq n m then some v else view s m)
  pub put_err :
      (io : Io) (n v m : Text) (s s' : S) (e : SecretStoreError)
      → store.put io n v s ≡ (s', err e)
      → view s' m ≡ view s m
  pub get_same : (io : Io) (n m : Text) (s : S) → view (store.get io n s).0 m ≡ view s m
  pub get_ok :
      (io : Io) (n : Text) (s s' : S) (r : Option Text)
      → store.get io n s ≡ (s', ok r)
      → r ≡ view s n
  pub delete_ok :
      (io : Io) (n m : Text) (s s' : S)
      → store.delete io n s ≡ (s', ok tt)
      → view s' m ≡ (if text_eq n m then none else view s m)
  pub delete_err :
      (io : Io) (n m : Text) (s s' : S) (e : SecretStoreError)
      → store.delete io n s ≡ (s', err e)
      → view s' m ≡ view s m
