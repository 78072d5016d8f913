-- ===== src/Local/Examples/Matching.antt =====
-- apps/local-node/src/main.rs: a proposal for one attribute of a category.
use ozon_rust_suite.Common.{◌≡◌, refl, true, [], ◌∷◌, none, List, text, text_eq, All}
use ozon_rust_suite.Common.Assoc.{lookup}
use ozon_rust_suite.Common.Rows.{find}
use ozon_rust_suite.Common.Unicode.{trim, is_whitespace, to_lowercase}
use ozon_rust_suite.Local.Matching.{
  OzonCategoryAttribute, dictionary_value, Module3Attribute, module3_match_attributes,
  ValuesByAttribute, module3_normalize, split_whitespace, match_attribute, definition_for, conclude,
  match_values, match_value, match_dictionary, candidate_for,
}
use ozon_rust_suite.Local.Matching.Grounded.{IsGrounded, match_attributes-IsGrounded}
use ozon_rust_suite.Local.Examples.{tables}

abbrev color : OzonCategoryAttribute
color = record {
  id = 85;
  name = text "Main  color";
  is_collection = true;
  dictionary_id = 9;
  attribute_type = none;
}

abbrev offered : ValuesByAttribute
offered = (85, record { value_id = 61; value = text "Red" } ∷ []) ∷ []

abbrev proposal : List Module3Attribute
proposal =
    record { proposed_name = text " main Color"; values = text "RED " ∷ text "crimson" ∷ [] } ∷ []

match_attributes-IsGrounded_example :
    All
      (IsGrounded tables (color ∷ []) offered proposal)
      (module3_match_attributes tables (color ∷ []) offered proposal).resolved
match_attributes-IsGrounded_example =
    match_attributes-IsGrounded tables (color ∷ []) offered proposal

-- Of the two values only the one that is offered is written.
matched_red :
    (module3_match_attributes tables (color ∷ []) offered proposal).resolved
    ≡ record { attribute_id = 85; resolved_values = dictionary_value 61 ∷ [] } ∷ []
unfolding module3_match_attributes match_attribute trim is_whitespace definition_for find text_eq
    module3_normalize to_lowercase split_whitespace conclude match_values match_value
    match_dictionary candidate_for lookup
matched_red = refl
