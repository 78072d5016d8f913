-- ===== src/Local/Matching/Grounded.antt =====
-- apps/local-node/src/main.rs: nothing is written to Ozon that its dictionary does not offer.
use mathlib.Core.List.{Memᴰ}
use mathlib.Core.Path.{subst}
use ozon_rust_suite.Common.{
  ◌≡◌, ◌≢◌, refl, sym, inl, inr, true, false, List, [], ◌∷◌, some, Text, text_eq_sound, arith,
  Bool-cases, Option-cases, All, All-append,
}
use ozon_rust_suite.Common.Assoc.{nat_key, lookup}
use ozon_rust_suite.Common.Rows.{find}
use ozon_rust_suite.Common.Rows.Laws.{find_sound, find-Memᴰ}
use ozon_rust_suite.Common.Unicode.{CaseTables, trim, is_empty}
use ozon_rust_suite.Local.Matching.{
  OzonCategoryAttribute, is_dictionary, OzonCategoryAttributeValue, OzonResolvedValue,
  dictionary_value, free_text, OzonResolvedAttribute, Module3Attribute, ValuesByAttribute,
  ValueMatch, module3_normalize, same_normal, candidate_for, match_dictionary, match_value,
  match_values, conclude, definition_for, match_attribute, module3_match_attributes,
}

module _ (tables : CaseTables) (dictionary : List OzonCategoryAttribute)
    (values_by_attribute : ValuesByAttribute) where
  -- A value that stands for one that was proposed: an identifier that the attribute's dictionary
  -- offers for that text, or the text itself, not empty, where the attribute has no dictionary.
  pub data IsOffered (definition : OzonCategoryAttribute) (raw : Text)
      : OzonResolvedValue → Type 0 where
    from_dictionary :
        (entries : List OzonCategoryAttributeValue) (entry : OzonCategoryAttributeValue)
        → is_dictionary definition ≡ true
        → lookup definition.id values_by_attribute ≡ some entries
        → Memᴰ entry entries
        → module3_normalize tables entry.value ≡ module3_normalize tables (trim raw)
        → IsOffered definition raw (dictionary_value entry.value_id)
    as_written :
        is_dictionary definition ≡ false
        → is_empty (trim raw) ≡ false
        → IsOffered definition raw (free_text (trim raw))

  -- A value that stands for one of the proposed ones.
  abbrev pub IsOneOf : OzonCategoryAttribute → List Text → OzonResolvedValue → Type 0
  IsOneOf definition raws v = (raw : Text) × Memᴰ raw raws × IsOffered definition raw v

  -- An attribute to be written: the category has it under the name of a proposed attribute, it has a
  -- value, and each of its values stands for a value of that proposed attribute.
  pub record IsGrounded (proposal : List Module3Attribute) (a : OzonResolvedAttribute)
      : Type 0 where
    pub definition : OzonCategoryAttribute
    pub known : Memᴰ definition dictionary
    pub named : a.attribute_id ≡ definition.id
    pub source : Module3Attribute
    pub proposed : Memᴰ source proposal
    pub same_name :
        module3_normalize tables definition.name
        ≡ module3_normalize tables (trim source.proposed_name)
    pub some_value : a.resolved_values ≢ []
    pub offered : All (IsOneOf definition source.values) a.resolved_values

  candidate-IsOffered :
      (definition : OzonCategoryAttribute) (raw : Text) (entry : OzonCategoryAttributeValue)
      → is_dictionary definition ≡ true
      → candidate_for tables dictionary values_by_attribute definition (trim raw) ≡ some entry
      → IsOffered definition raw (dictionary_value entry.value_id)
  unfolding candidate_for
  candidate-IsOffered definition raw entry has h =
      elim (Option-cases (lookup definition.id values_by_attribute)) [
        | inl e ↦ absurd (ground (arith, h, e))
        | inr (entries, e) ↦
            let found : find
                  (λ (x : OzonCategoryAttributeValue). same_normal tables x.value (trim raw))
                  entries
                ≡ some entry =
              ground (arith, h, e) in
            from_dictionary entries entry has e (find-Memᴰ _ entries found) (
              text_eq_sound _ _ (
                find_sound
                  (λ (x : OzonCategoryAttributeValue). same_normal tables x.value (trim raw))
                  entries found))
      ]

  match_dictionary-IsOffered :
      (raw_name : Text) (definition : OzonCategoryAttribute) (raw : Text)
      → is_dictionary definition ≡ true
      → All
          (IsOffered definition raw)
          (match_dictionary tables dictionary values_by_attribute raw_name definition
            (trim raw)).new_values
  unfolding match_dictionary
  match_dictionary-IsOffered raw_name definition raw has =
      elim (Option-cases
        (candidate_for tables dictionary values_by_attribute definition (trim raw))) [
          | inl c ↦
              let nothing : (match_dictionary tables dictionary values_by_attribute raw_name
                    definition (trim raw)).new_values
                  ≡ [] =
                ground (arith, c) in
              subst (All (IsOffered definition raw)) (sym nothing) tt
          | inr (entry, c) ↦
              let one : (match_dictionary tables dictionary values_by_attribute raw_name definition
                    (trim raw)).new_values
                  ≡ dictionary_value entry.value_id ∷ [] =
                ground (arith, c) in
              subst (All (IsOffered definition raw)) (sym one)
                (candidate-IsOffered definition raw entry has c, tt)
        ]

  match_value-IsOffered :
      (raw_name : Text) (definition : OzonCategoryAttribute) (raw : Text)
      → All
          (IsOffered definition raw)
          (match_value tables dictionary values_by_attribute raw_name definition raw).new_values
  unfolding match_value
  match_value-IsOffered raw_name definition raw = elim (Bool-cases (is_empty (trim raw))) [
    | inl e ↦ rw e tt
    | inr e ↦ elim (Bool-cases (is_dictionary definition)) [
      | inr d ↦ rw (e, d) (as_written d e, tt)
      | inl d ↦ rw (e, d) (match_dictionary-IsOffered raw_name definition raw d)
    ]
  ]

  -- A value that stands for one of some texts stands for one of more.
  IsOneOf-All :
      (definition : OzonCategoryAttribute) (raws more : List Text)
      → ((raw : Text) → Memᴰ raw raws → Memᴰ raw more)
      → (vs : List OzonResolvedValue) → All (IsOneOf definition raws) vs
      → All (IsOneOf definition more) vs
  IsOneOf-All definition raws more within [] h = tt
  IsOneOf-All definition raws more within (v ∷ vs) ((raw, here, it), rest) =
      ((raw, within raw here, it), IsOneOf-All definition raws more within vs rest)

  IsOffered-All :
      (definition : OzonCategoryAttribute) (raw : Text) (raws : List Text)
      → Memᴰ raw raws
      → (vs : List OzonResolvedValue) → All (IsOffered definition raw) vs
      → All (IsOneOf definition raws) vs
  IsOffered-All definition raw raws here [] h = tt
  IsOffered-All definition raw raws here (v ∷ vs) (it, rest) =
      ((raw, here, it), IsOffered-All definition raw raws here vs rest)

  match_values-IsOneOf :
      (raw_name : Text) (definition : OzonCategoryAttribute) (raws : List Text)
      → All
          (IsOneOf definition raws)
          (match_values tables dictionary values_by_attribute raw_name definition raws).new_values
  unfolding match_values
  match_values-IsOneOf raw_name definition [] = tt
  match_values-IsOneOf raw_name definition (v ∷ vs) =
      All-append (IsOneOf definition (v ∷ vs)) _ _
        (IsOffered-All definition v (v ∷ vs) (Memᴰ.head refl) _
          (match_value-IsOffered raw_name definition v))
        (IsOneOf-All definition vs (v ∷ vs) (λ raw here. Memᴰ.tail here) _
          (match_values-IsOneOf raw_name definition vs))

  conclude-IsGrounded :
      (proposal : List Module3Attribute) (source : Module3Attribute)
      (definition : OzonCategoryAttribute) (m : ValueMatch)
      → Memᴰ source proposal
      → Memᴰ definition dictionary
      → module3_normalize tables definition.name
        ≡ module3_normalize tables (trim source.proposed_name)
      → All (IsOneOf definition source.values) m.new_values
      → All
          (IsGrounded proposal)
          (conclude tables dictionary values_by_attribute
            (trim source.proposed_name)
            definition
            m).resolved
  unfolding conclude
  conclude-IsGrounded proposal source definition m here known same offered = go m.new_values refl
    where
      go :
          (vs : List OzonResolvedValue)
          → m.new_values ≡ vs
          → All
              (IsGrounded proposal)
              (conclude tables dictionary values_by_attribute
                (trim source.proposed_name)
                definition
                m).resolved
      go [] e =
          let nothing : (conclude tables dictionary values_by_attribute (trim source.proposed_name)
                definition m).resolved
              ≡ [] =
            ground (arith, e) in
          subst (All (IsGrounded proposal)) (sym nothing) tt
      go (v ∷ vs) e =
          let written : OzonResolvedAttribute = record {
            attribute_id = definition.id;
            resolved_values = v ∷ vs;
          } in
          let it : IsGrounded proposal written = record {
            definition = definition;
            known = known;
            named = refl;
            source = source;
            proposed = here;
            same_name = same;
            some_value = λ h. cc;
            offered = rw e at offered;
          } in
          let one : (conclude tables dictionary values_by_attribute (trim source.proposed_name)
                definition m).resolved
              ≡ written ∷ [] =
            ground (arith, e) in
          subst (All (IsGrounded proposal)) (sym one) (it, tt)

  match_attribute-IsGrounded :
      (proposal : List Module3Attribute) (source : Module3Attribute)
      → Memᴰ source proposal
      → All
          (IsGrounded proposal)
          (match_attribute tables dictionary values_by_attribute source).resolved
  unfolding match_attribute definition_for
  match_attribute-IsGrounded proposal source here =
      elim (Bool-cases (is_empty (trim source.proposed_name))) [
        | inl e ↦ rw e tt
        | inr e ↦
            elim (Option-cases
              (definition_for tables dictionary values_by_attribute (trim source.proposed_name))) [
                | inl d ↦
                    let nothing : (match_attribute tables dictionary values_by_attribute
                          source).resolved
                        ≡ [] =
                      ground (arith, e, d) in
                    subst (All (IsGrounded proposal)) (sym nothing) tt
                | inr (definition, d) ↦
                    let m =
                      match_values tables dictionary values_by_attribute (trim source.proposed_name)
                        definition source.values in
                    let same : (match_attribute tables dictionary values_by_attribute
                          source).resolved
                        ≡ (conclude tables dictionary values_by_attribute
                            (trim source.proposed_name) definition m).resolved =
                      ground (arith, e, d) in
                    subst (All (IsGrounded proposal)) (sym same) (
                      conclude-IsGrounded proposal source definition m here
                        (find-Memᴰ _ dictionary d)
                        (text_eq_sound _ _ (
                          find_sound
                            (λ (x : OzonCategoryAttribute).
                              same_normal tables x.name (trim source.proposed_name))
                            dictionary d))
                        (match_values-IsOneOf (trim source.proposed_name) definition source.values))
              ]
      ]

  match_rest-IsGrounded :
      (proposal rest : List Module3Attribute)
      → ((a : Module3Attribute) → Memᴰ a rest → Memᴰ a proposal)
      → All
          (IsGrounded proposal)
          (module3_match_attributes tables dictionary values_by_attribute rest).resolved
  unfolding module3_match_attributes
  match_rest-IsGrounded proposal [] within = tt
  match_rest-IsGrounded proposal (a ∷ rest) within =
      All-append (IsGrounded proposal) _ _
        (match_attribute-IsGrounded proposal a (within a (Memᴰ.head refl)))
        (match_rest-IsGrounded proposal rest (λ b here. within b (Memᴰ.tail here)))

  -- Every attribute that is to be written for a proposal is grounded: the category has it under a
  -- proposed name, it has a value, and each value is either an identifier that its dictionary offers
  -- for a proposed text, or, where it has no dictionary, a proposed text that is not empty. No
  -- identifier is made up.
  pub match_attributes-IsGrounded :
      (proposal : List Module3Attribute)
      → All
          (IsGrounded proposal)
          (module3_match_attributes tables dictionary values_by_attribute proposal).resolved
  match_attributes-IsGrounded proposal = match_rest-IsGrounded proposal proposal (λ a here. here)
