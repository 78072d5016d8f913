-- ===== src/Local/Examples/Push.antt =====
-- apps/local-node/src/main.rs: a push of one product, by the bridge.
use ozon_rust_suite.Common.{
  ℕ, ◌≡◌, refl, true, ◌&&◌, [], ◌∷◌, ◌++◌, none, some, ok, text, if◌then◌else◌,
}
use ozon_rust_suite.Local.Push.{
  Module3Fields, Module3PushTarget, Product, Ozon, Prepared, prepare, decide, module3_push,
  push_guards, read_values, module3_referenced_dictionary_ids, referenced_from,
}
use ozon_rust_suite.Local.Push.Writes.{module3_push-handed, bridge_push_writes, is_ok, updates_of}
use ozon_rust_suite.Local.Matching.{module3_match_attributes}
use ozon_rust_suite.Local.Examples.{config, bridge, tables}

abbrev copy : Module3Fields
copy = record { title = text "Cup"; description = []; attributes = []; type_category = [] }

abbrev target : Module3PushTarget
target = record { target_id = text "77"; proposal = copy }

abbrev cup : Product
cup = record {
  live_id = text "77";
  live_offer_id = text "cup-1";
  live_name = none;
  live_description = none;
  description_category_id = some 5;
  type_id = some 6;
}

abbrev ozon : ℕ → Ozon
ozon _ = record {
  product_get = λ _. ok cup;
  category_attributes = λ _ _. ok [];
  attribute_values = λ _ _ _. ok [];
  update_answer = λ _. ok (true, some (text "task"));
}

abbrev fallback : Prepared tables
fallback = decide tables cup copy (record { resolved = []; matched = []; dropped = [] })

ready : prepare tables (ozon 0) target ≡ ok fallback
unfolding prepare read_values module3_referenced_dictionary_ids referenced_from
    module3_match_attributes
ready = refl

module3_push-handed_example :
    (module3_push tables config
      (ok tt)
      (ok tt)
      ozon
      bridge
      (record { items = target ∷ target ∷ []; confirm = true })
      []).0
    ≡ (if is_ok (
            push_guards tables config
              (ok tt)
              (ok tt)
              bridge
              (record { items = target ∷ target ∷ []; confirm = true }))
          && true
        then [] ++ updates_of tables ozon 0 (target ∷ target ∷ [])
        else [])
module3_push-handed_example =
    module3_push-handed tables config (ok tt) (ok tt) ozon bridge
      (record { items = target ∷ target ∷ []; confirm = true }) []

bridge_push_writes_example :
    (module3_push tables config
      (ok tt)
      (ok tt)
      ozon
      bridge
      (record { items = target ∷ []; confirm = true })
      []).0
    ≡ fallback.update ∷ []
bridge_push_writes_example =
    bridge_push_writes tables config (ok tt) (ok tt) ozon bridge target [] fallback refl refl refl
      ready
