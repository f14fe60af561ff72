-- ===== src/Observation/Examples.antt =====
-- Observations at concrete inputs, with numbers for the JSON values.
use homemagic.Capability.{comfort, rank}
use homemagic.Prelude.{
  ok, lookup, insert_sorted, Distinct, nat_eq, text_eq, text, contains, ℕ, ◌≤◌, ◌≡◌, refl, ◌↔◌,
  false, none, some, [], ◌∷◌,
}
use homemagic.Observation.{
  ObservedValue, full_status, notification, CapabilityObservation, merge_partial,
}
use homemagic.Observation.Merge.{newest}
use homemagic.Observation.Partial.{merge_partial-newest, merge_partial_again}

abbrev reading : ℕ → ℕ → ObservedValue ℕ
reading v at = record { value = v; observed_at = at }

abbrev plug : CapabilityObservation ℕ
plug = record {
  device_id = 20;
  endpoint_id = text "main";
  capability = record { name = text "on_off"; version = 1; risk = comfort };
  values = (text "on", reading 1 10) ∷ (text "watts", reading 12 10) ∷ [];
  received_at = 11;
  source = record { integration_id = 5; kind = full_status; sequence = none };
}

-- It is older for one field, and newer for the other.
abbrev patch : CapabilityObservation ℕ
patch = record plug {
  values = (text "on", reading 0 9) ∷ (text "watts", reading 13 14) ∷ [];
  received_at = 15;
  source = record { integration_id = 5; kind = notification; sequence = some 8 };
}

abbrev merged : CapabilityObservation ℕ
merged = record patch { values = (text "on", reading 1 10) ∷ (text "watts", reading 13 14) ∷ [] }

merge_lem : merge_partial plug patch ≡ ok (merged, text "watts" ∷ [])
unfolding merge_partial lookup insert_sorted rank
merge_lem = refl

merge_again_lem : merge_partial merged patch ≡ ok (merged, [])
unfolding merge_partial lookup insert_sorted rank
merge_again_lem = refl

patch-Distinct : Distinct patch.values
unfolding lookup
patch-Distinct = (refl, (refl, tt))

merge_partial-newest_example :
    (lookup (text "on") merged.values
      ≡ newest (lookup (text "on") plug.values) (lookup (text "on") patch.values))
    × ((contains (text "on") (text "watts" ∷ []) ≡ false)
        ↔ (lookup (text "on") merged.values ≡ lookup (text "on") plug.values))
    × (plug.received_at ≤ merged.received_at)
merge_partial-newest_example =
    merge_partial-newest plug patch merged (text "watts" ∷ []) (text "on") patch-Distinct merge_lem

merge_partial_again_example :
    (contains (text "watts") [] ≡ false)
    × (lookup (text "watts") merged.values ≡ lookup (text "watts") merged.values)
merge_partial_again_example =
    merge_partial_again plug patch merged merged (text "watts" ∷ []) [] (text "watts")
      patch-Distinct merge_lem merge_again_lem
