-- ===== src/Observation/Partial.antt =====
-- What a partial observation does to the current one.
use homemagic.Prelude.{
  ok, lookup, Distinct, PartialEq, nat_eq, Text, text_eq, contains, ◌≤◌, ◌≡◌, ◌↔◌, false, List,
  refl, sym, ap, ◌∙◌, Option, none, some, arith,
}
use homemagic.Observation.{CapabilityObservation, merge_fields, merge_partial, ObservedValue}
use homemagic.Observation.Merge.{newest, lookup-merge_fields, contains-merge_fields, changes_iff}

module _ {V : Type 0} ⦃e : PartialEq V⦄ where
  -- What an accepted merge leaves.
  merged_parts :
      (self patch self' : CapabilityObservation V) (changed : List Text)
      → merge_partial self patch ≡ ok (self', changed)
      → (self'.values ≡ (merge_fields self.values patch.values).0)
        × (changed ≡ (merge_fields self.values patch.values).1)
        × (self.received_at ≤ self'.received_at)
        × (self'.device_id ≡ self.device_id)
        × (self'.endpoint_id ≡ self.endpoint_id)
        × (self'.capability ≡ self.capability)
        × (self'.source.integration_id ≡ self.source.integration_id)
  unfolding merge_partial
  merged_parts self patch self' changed h = ground arith

  -- After an accepted merge each field holds the newer of its two readings, the patch's if they are
  -- of one instant; the changed fields are exactly those whose reading is another one than before;
  -- and the receipt time does not fall.
  pub merge_partial-newest :
      (self patch self' : CapabilityObservation V) (changed : List Text) (k : Text)
      → Distinct patch.values
      → merge_partial self patch ≡ ok (self', changed)
      → (lookup k self'.values ≡ newest (lookup k self.values) (lookup k patch.values))
        × ((contains ⦃e = text_eq⦄ k changed ≡ false)
            ↔ (lookup k self'.values ≡ lookup k self.values))
        × (self.received_at ≤ self'.received_at)
  merge_partial-newest self patch self' changed k d h =
      let p = merged_parts self patch self' changed h in
      let n = lookup-merge_fields self.values patch.values k d in
      let values = ap (lookup k) p.0 ∙ n in
      let q = changes_iff (lookup k self.values) (lookup k patch.values) in
      let g =
        ap (contains ⦃e = text_eq⦄ k) p.1 ∙ contains-merge_fields self.values patch.values k d in
      (values, ((λ x. values ∙ q.0 (sym g ∙ x)), (λ x. g ∙ q.1 (sym values ∙ x))), p.2)

  newest_again : (c p : Option (ObservedValue V)) → newest (newest c p) p ≡ newest c p
  newest_again c none = refl
  newest_again none (some v) = ground arith
  newest_again (some u) (some v) = ground arith

  -- A patch that is merged once more changes no field.
  pub merge_partial_again :
      (self patch self' self'' : CapabilityObservation V) (changed again : List Text) (k : Text)
      → Distinct patch.values
      → merge_partial self patch ≡ ok (self', changed)
      → merge_partial self' patch ≡ ok (self'', again)
      → (contains ⦃e = text_eq⦄ k again ≡ false) × (lookup k self''.values ≡ lookup k self'.values)
  merge_partial_again self patch self' self'' changed again k d h i =
      let one = merge_partial-newest self patch self' changed k d h in
      let two = merge_partial-newest self' patch self'' again k d i in
      let same =
        two.0
        ∙ ap (λ x. newest x (lookup k patch.values)) one.0
        ∙ newest_again (lookup k self.values) (lookup k patch.values)
        ∙ sym one.0 in
      (two.1.1 same, same)
