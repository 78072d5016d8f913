-- ===== src/Secrets/Memory.antt =====
-- crates/secret-store/src/lib.rs: `MemorySecretStore`, which never fails.
use ozon_rust_suite.Common.{refl, List, Text, ok, arith, Option}
use ozon_rust_suite.Common.Assoc.{text_key, lookup, insert, remove, lookup-insert, lookup-remove}
use ozon_rust_suite.Secrets.{SecretStore, IsStore}

abbrev pub Secrets : Type 0
Secrets = List (Text × Text)

abbrev pub memory_store : SecretStore Secrets (Unit {0})
memory_store = record {
  put = λ _ n v s. (insert n v s, ok tt);
  get = λ _ n s. (s, ok (lookup n s));
  delete = λ _ n s. (remove n s, ok tt);
}

abbrev pub held : Secrets → Text → Option Text
held s n = lookup n s

pub memory_store-IsStore : IsStore memory_store held
memory_store-IsStore = record {
  put_ok = λ io n v m s s' h. ground (arith, lookup-insert n m v s);
  put_err = λ io n v m s s' e h. ground arith;
  get_same = λ io n m s. refl;
  get_ok = λ io n s s' r h. ground arith;
  delete_ok = λ io n m s s' h. ground (arith, lookup-remove n m s);
  delete_err = λ io n m s s' e h. ground arith;
}
