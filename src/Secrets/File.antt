-- ===== src/Secrets/File.antt =====
-- crates/secret-store/src/lib.rs: `FileSecretStore`, one JSON file that is replaced by a rename.
use ozon_rust_suite.Common.{◌≡◌, refl, Bool, not, [], Option, Text, ok, err, arith, if◌then◌else◌}
use ozon_rust_suite.Common.Assoc.{text_key, lookup, insert, remove, lookup-insert, lookup-remove}
use ozon_rust_suite.Secrets.{
  SecretStoreError, backend_unavailable, invalid_encoding, Answer, SecretStore, IsStore,
}
use ozon_rust_suite.Secrets.Memory.{Secrets}

-- What stands under a path: nothing, a map as JSON, or something else.
pub data Contents : Type 0 where
  missing garbage : Contents
  json : Secrets → Contents

-- The file, and its neighbour with the suffix `.tmp`.
pub record Disk : Type 0 where
  pub file : Contents
  pub temp : Contents

-- Which calls of the file system go through, and what a write that fails leaves in the temporary
-- file. A read that goes through may find no file.
pub record DiskIo : Type 0 where
  pub read : Bool
  pub create_dir : Bool
  pub open_temp : Bool
  pub write : Bool
  pub partial : Contents
  pub sync : Bool
  pub rename : Bool

unfoldable pub read_map : DiskIo → Disk → Answer Secrets
read_map io d =
    if not io.read
    then err backend_unavailable
    else elim d.file [ missing ↦ ok [] | garbage ↦ err invalid_encoding | json m ↦ ok m ]

-- `write_private_file` and the rename.
unfoldable pub write_map : DiskIo → Secrets → Disk → Disk × Answer (Unit {0})
write_map io values d =
    if not io.create_dir
    then (d, err backend_unavailable)
    else if not io.open_temp
    then (d, err backend_unavailable)
    else if not io.write
    then (record d { temp = io.partial }, err backend_unavailable)
    else if not io.sync
    then (record d { temp = json values }, err backend_unavailable)
    else if not io.rename
    then (record d { temp = json values }, err backend_unavailable)
    else (record { file = json values; temp = missing }, ok tt)

unfoldable pub update_map : DiskIo → (Secrets → Secrets) → Disk → Disk × Answer (Unit {0})
update_map io change d = elim (read_map io d) [
  | err e ↦ (d, err e)
  | ok values ↦ write_map io (change values) d
]

abbrev pub get_secret : DiskIo → Text → Disk → Disk × Answer (Option Text)
get_secret io n d = elim (read_map io d) [
  | err e ↦ (d, err e)
  | ok values ↦ (d, ok (lookup n values))
]

abbrev pub file_store : SecretStore Disk DiskIo
file_store = record {
  put = λ io n v d. update_map io (insert n v) d;
  get = get_secret;
  delete = λ io n d. update_map io (remove n) d;
}

-- The secrets that the file holds.
abbrev pub contents : Contents → Secrets
contents missing = []
contents garbage = []
contents (json m) = m

abbrev pub stored : Disk → Text → Option Text
stored d n = lookup n (contents d.file)

-- A change replaces the whole file, or leaves it at whatever call fails.
update_map-ok :
    (io : DiskIo) (change : Secrets → Secrets) (d d' : Disk)
    → update_map io change d ≡ (d', ok tt)
    → d'.file ≡ json (change (contents d.file))
unfolding update_map read_map write_map
update_map-ok io change d d' h = go d.file refl
  where
    go : (c : Contents) → d.file ≡ c → d'.file ≡ json (change (contents d.file))
    go missing e = ground arith
    go garbage e = ground arith
    go (json m) e = ground arith

update_map-err :
    (io : DiskIo) (change : Secrets → Secrets) (d d' : Disk) (e : SecretStoreError)
    → update_map io change d ≡ (d', err e)
    → d'.file ≡ d.file
unfolding update_map read_map write_map
update_map-err io change d d' e h = go d.file refl
  where
    go : (c : Contents) → d.file ≡ c → d'.file ≡ d.file
    go missing p = ground arith
    go garbage p = ground arith
    go (json m) p = ground arith

read_map-ok : (io : DiskIo) (d : Disk) (m : Secrets) → read_map io d ≡ ok m → m ≡ contents d.file
unfolding read_map
read_map-ok io d m h = go d.file refl
  where
    go : (c : Contents) → d.file ≡ c → m ≡ contents d.file
    go missing p = ground arith
    go garbage p = ground arith
    go (json n) p = ground arith

get_secret-same : (io : DiskIo) (n : Text) (d : Disk) → (get_secret io n d).0 ≡ d
get_secret-same io n d = ground arith

get_secret-ok :
    (io : DiskIo) (n : Text) (d d' : Disk) (r : Option Text)
    → get_secret io n d ≡ (d', ok r)
    → r ≡ stored d n
get_secret-ok io n d d' r h = go (read_map io d) refl
  where
    go : (a : Answer Secrets) → read_map io d ≡ a → r ≡ stored d n
    go (ok m) p = let it = read_map-ok io d m p in ground arith
    go (err e) p = ground arith

-- The file is a store of its secrets, whatever call of the file system fails at whatever time.
pub file_store-IsStore : IsStore file_store stored
file_store-IsStore = record {
  put_ok = λ io n v m d d' h.
      rw (update_map-ok io (insert n v) d d' h) (lookup-insert n m v (contents d.file));
  put_err = λ io n v m d d' e h. rw (update_map-err io (insert n v) d d' e h) refl;
  get_same = λ io n m d. rw (get_secret-same io n d) refl;
  get_ok = get_secret-ok;
  delete_ok = λ io n m d d' h.
      rw (update_map-ok io (remove n) d d' h) (lookup-remove n m (contents d.file));
  delete_err = λ io n m d d' e h. rw (update_map-err io (remove n) d d' e h) refl;
}
