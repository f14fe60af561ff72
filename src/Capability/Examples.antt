-- ===== src/Capability/Examples.antt =====
-- Schemas at concrete inputs.
use homemagic.Prelude.{text, ◌≡◌, refl, ◌↔◌}
use homemagic.Capability.{comfort, CapabilityDescriptor, schema}
use homemagic.Capability.Schema.{schema-injective}

abbrev on_off : CapabilityDescriptor
on_off = record { name = text "on_off"; version = 1; risk = comfort }

abbrev on_off_later : CapabilityDescriptor
on_off_later = record { name = text "on_off"; version = 10; risk = comfort }

schema_text : schema on_off_later ≡ text "on_off.v10"
unfolding schema
schema_text = refl

schema-injective_example :
    (schema on_off ≡ schema on_off_later)
    ↔ ((text "on_off" ≡ on_off_later.name) × (on_off.version ≡ on_off_later.version))
schema-injective_example = schema-injective on_off on_off_later
