-- ===== src/Observation/Merge.antt =====
-- What a merge does to each field.
use homemagic.Prelude.{
  leb, if◌then◌else◌, lookup, Distinct, PartialEq, Text, text_beq, ◌≡◌, Option, none, some, List,
  [], ◌∷◌, lookup-insert_sorted, nat_eq, text_beq_iff, text_eq, contains, ◌↔◌, Bool, true, false,
  ◌&&◌, not, arith,
}
use homemagic.Observation.{
  ObservedValue, merge_field, merge_fields, value_beq, is_value, should_replace,
}

module _ {V : Type 0} ⦃e : PartialEq V⦄ where
  -- The newer of two readings of a field, the second one if they are of one instant.
  abbrev pub newest : Option (ObservedValue V) → Option (ObservedValue V) → Option (ObservedValue V)
  newest current none = current
  newest none (some incoming) = some incoming
  newest (some existing) (some incoming) =
      if leb existing.observed_at incoming.observed_at then some incoming else some existing

  lookup-merge_field :
      (values : List (Text × ObservedValue V)) (f k : Text) (v : ObservedValue V)
      → lookup k (merge_field values f v).0
        ≡ (if text_beq f k then newest (lookup f values) (some v) else lookup k values)
  unfolding merge_field
  lookup-merge_field values f k v =
      ground (arith, lookup-insert_sorted f k v values, text_beq_iff f k)

  pub lookup-merge_fields :
      (values patch : List (Text × ObservedValue V)) (k : Text)
      → Distinct patch
      → lookup k (merge_fields values patch).0 ≡ newest (lookup k values) (lookup k patch)
  unfolding merge_fields lookup
  lookup-merge_fields values [] k d = ground arith
  lookup-merge_fields values ((f, v) ∷ rest) k d = ground (
    arith,
    text_beq_iff f k,
    lookup-merge_field values f k v,
    lookup-merge_fields (merge_field values f v).0 rest k d.1,
  )

  -- Whether a field counts as changed, from its two readings.
  abbrev pub changes : Option (ObservedValue V) → Option (ObservedValue V) → Bool
  changes current none = false
  changes current (some v) = should_replace current v && not (is_value current v)

  changed-merge_field :
      (values : List (Text × ObservedValue V)) (f : Text) (v : ObservedValue V)
      → (merge_field values f v).1 ≡ changes (lookup f values) (some v)
  unfolding merge_field
  changed-merge_field values f v = ground arith

  pub contains-merge_fields :
      (values patch : List (Text × ObservedValue V)) (k : Text)
      → Distinct patch
      → contains ⦃e = text_eq⦄ k (merge_fields values patch).1
        ≡ changes (lookup k values) (lookup k patch)
  unfolding merge_fields lookup
  contains-merge_fields values [] k d = ground arith
  contains-merge_fields values ((f, v) ∷ rest) k d = ground (
    arith,
    text_beq_iff f k,
    lookup-merge_field values f k v,
    changed-merge_field values f v,
    contains-merge_fields (merge_field values f v).0 rest k d.1,
  )

  value_beq_iff : (a b : ObservedValue V) → (value_beq a b ≡ true) ↔ (a ≡ b)
  unfolding value_beq
  value_beq_iff a b = ground (arith, e.same_iff a.value b.value)

  pub changes_iff : (c p : Option (ObservedValue V)) → (changes c p ≡ false) ↔ (newest c p ≡ c)
  unfolding should_replace is_value
  changes_iff c none = ground arith
  changes_iff none (some v) = ground arith
  changes_iff (some u) (some v) = ground (arith, value_beq_iff u v)
