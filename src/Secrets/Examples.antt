-- ===== src/Secrets/Examples.antt =====
-- crates/secret-store/src/lib.rs: stores at work, the file store in both places of the layered one.
use ozon_rust_suite.Common.{
  ◌≡◌, ◌≢◌, refl, true, false, [], ◌∷◌, none, some, Text, text, text_eq, ok, err, arith,
}
use ozon_rust_suite.Common.Assoc.{lookup, insert, remove}
use ozon_rust_suite.Secrets.{backend_unavailable, invalid_name}
use ozon_rust_suite.Secrets.File.{
  missing, json, Disk, DiskIo, file_store, stored, file_store-IsStore, update_map, read_map,
  write_map,
}
use ozon_rust_suite.Secrets.Layered.{
  in_time, ran_late, never_ran, LayeredIo, get_layered, put_layered, delete_layered,
}
use ozon_rust_suite.Secrets.Layered.Keeps.{prefer, get_layered_keeps}
use ozon_rust_suite.Secrets.Layered.Deletes.{get_layered-delete_layered, put_layered_lost}
use ozon_rust_suite.Secrets.System.{is_safe_identifier, account_for, redact}

abbrev working : DiskIo
working = record {
  read = true;
  create_dir = true;
  open_temp = true;
  write = true;
  partial = missing;
  sync = true;
  rename = true;
}

abbrev refusing : DiskIo
refusing = record working { create_dir = false }

abbrev calls : LayeredIo DiskIo DiskIo
calls = record {
  timing = in_time;
  primary = working;
  migrate_timing = in_time;
  migrate = working;
  fallback = working;
  cleanup = working;
}

abbrev calls_refused : LayeredIo DiskIo DiskIo
calls_refused = record calls { primary = refusing }

abbrev empty_disk : Disk
empty_disk = record { file = missing; temp = missing }

abbrev holding : Text → Disk
holding v = record { file = json ((text "api_key", v) ∷ []); temp = missing }

-- The secret of the file moves, in a call that answers too late.
get_layered_keeps_example :
    let after =
      (get_layered file_store file_store
        (record calls { migrate_timing = ran_late })
        (text "api_key")
        (empty_disk, holding (text "old"))).0 in
    prefer (stored after.0 (text "api_key")) (stored after.1 (text "api_key"))
    ≡ prefer (stored empty_disk (text "api_key")) (stored (holding (text "old")) (text "api_key"))
get_layered_keeps_example =
    get_layered_keeps file_store-IsStore file_store-IsStore
      (record calls { migrate_timing = ran_late }) (text "api_key") empty_disk
      (holding (text "old")) (text "api_key")

get_layered-delete_layered_example :
    (get_layered file_store file_store
      (record calls { timing = never_ran })
      (text "api_key")
      (record { file = json []; temp = missing }, record { file = json []; temp = missing })).1
    ≢ ok (some (text "old"))
unfolding delete_layered update_map read_map write_map remove text_eq
get_layered-delete_layered_example =
    get_layered-delete_layered file_store-IsStore file_store-IsStore calls
      (record calls { timing = never_ran }) (text "api_key") (text "old") (holding (text "new"))
      (record { file = json []; temp = missing }) (holding (text "old"))
      (record { file = json []; temp = missing }) deleted
  where
    deleted :
        delete_layered file_store file_store calls
          (text "api_key")
          (holding (text "new"), holding (text "old"))
        ≡ (
          (record { file = json []; temp = missing }, record { file = json []; temp = missing }),
          ok tt,
        )
    deleted = refl

-- The keyring is out for one put, and works again.
put_layered_lost_example :
    (put_layered file_store file_store calls_refused
        (text "api_key")
        (text "new")
        (holding (text "old"), empty_disk)
      ≡ ((holding (text "old"), holding (text "new")), ok tt))
    × (get_layered file_store file_store calls
          (text "api_key")
          (holding (text "old"), holding (text "new"))
        ≡ (
          (holding (text "old"), record { file = json []; temp = missing }),
          ok (some (text "old")),
        ))
    × (stored (holding (text "old")) (text "api_key") ≢ some (text "new"))
    × (stored (record { file = json []; temp = missing }) (text "api_key") ≡ none)
unfolding update_map read_map write_map lookup text_eq insert remove
put_layered_lost_example =
    put_layered_lost file_store-IsStore file_store-IsStore calls_refused calls (text "api_key")
      (text "old") (text "new") backend_unavailable (holding (text "old")) empty_disk
      (holding (text "new")) (record { file = json []; temp = missing }) different refl refl refl
      refl refl refl refl
  where
    different : text "old" ≢ text "new"
    different h = ground (arith, h)

safe_name : is_safe_identifier (text "ozon.api-key") ≡ true
unfolding is_safe_identifier
safe_name = refl

account : account_for (text "ozon") (text "api key") ≡ err invalid_name
unfolding account_for is_safe_identifier
account = refl

redacted : redact (text "abcdefgh1234") ≡ text "abcd…1234"
unfolding redact
redacted = refl
