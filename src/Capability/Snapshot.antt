-- ===== src/Capability/Snapshot.antt =====
-- crates/homemagic-domain/src/capability.rs, CapabilitySnapshot: the values that a device reports for
-- a capability, and the descriptor of the capability. F stands for the floating-point numbers, which
-- are carried along only.
use homemagic.Capability.{RiskClass, observe, security, CapabilityDescriptor, schema}
use homemagic.Prelude.{if◌then◌else◌, text_beq, Text, text, Bool, Option, List, [], ◌∷◌, ◌≡◌, refl}

pub data CapabilitySnapshot (F : Type 0) : Type 0 where
  availability : Bool → CapabilitySnapshot F
  on_off : Bool → RiskClass → CapabilitySnapshot F
  access_control : Option Bool → CapabilitySnapshot F
  level : F → RiskClass → CapabilitySnapshot F
  position : Option F → Option Text → RiskClass → CapabilitySnapshot F
  power : Option F → Option F → Option F → CapabilitySnapshot F
  energy : F → CapabilitySnapshot F
  diagnostics : Option Text → List Text → CapabilitySnapshot F

-- `trim_end_matches(".v1")` for a text that ends in it at most once.
unfoldable pub trim_version : Text → Text
trim_version [] = []
trim_version (c ∷ cs) =
    let rest = trim_version cs in if text_beq (c ∷ cs) (text ".v1") then [] else c ∷ rest

module _ {F : Type 0} where
  -- CapabilitySnapshot::schema
  unfoldable pub snapshot_schema : CapabilitySnapshot F → Text
  snapshot_schema (availability _) = text "availability.v1"
  snapshot_schema (on_off _ _) = text "on_off.v1"
  snapshot_schema (access_control _) = text "access_control.v1"
  snapshot_schema (level _ _) = text "level.v1"
  snapshot_schema (position _ _ _) = text "position.v1"
  snapshot_schema (power _ _ _) = text "power.v1"
  snapshot_schema (energy _) = text "energy.v1"
  snapshot_schema (diagnostics _ _) = text "diagnostics.v1"

  -- The pair of a name and a risk in CapabilitySnapshot::descriptor.
  unfoldable pub name_and_risk : CapabilitySnapshot F → Text × RiskClass
  unfolding snapshot_schema trim_version
  name_and_risk (on_off on risk) = (trim_version (snapshot_schema (on_off on risk)), risk)
  name_and_risk (level percent risk) = (trim_version (snapshot_schema (level percent risk)), risk)
  name_and_risk (position percent motion risk) =
      (trim_version (snapshot_schema (position percent motion risk)), risk)
  name_and_risk (access_control _) = (text "access_control", security)
  name_and_risk (availability online) =
      (trim_version (snapshot_schema (availability online)), observe)
  name_and_risk (power watts volts amperes) =
      (trim_version (snapshot_schema (power watts volts amperes)), observe)
  name_and_risk (energy watt_hours) = (trim_version (snapshot_schema (energy watt_hours)), observe)
  name_and_risk (diagnostics version errors) =
      (trim_version (snapshot_schema (diagnostics version errors)), observe)

  -- CapabilitySnapshot::descriptor
  unfoldable pub descriptor : CapabilitySnapshot F → CapabilityDescriptor
  unfolding name_and_risk
  descriptor s =
      let (name, risk) = name_and_risk s in record { name = name; version = 1; risk = risk }

  -- The descriptor of a reported capability has the schema that the capability reports itself.
  pub schema-descriptor : (s : CapabilitySnapshot F) → schema (descriptor s) ≡ snapshot_schema s
  unfolding schema descriptor name_and_risk snapshot_schema trim_version
  schema-descriptor (availability _) = refl
  schema-descriptor (on_off _ _) = refl
  schema-descriptor (access_control _) = refl
  schema-descriptor (level _ _) = refl
  schema-descriptor (position _ _ _) = refl
  schema-descriptor (power _ _ _) = refl
  schema-descriptor (energy _) = refl
  schema-descriptor (diagnostics _ _) = refl
