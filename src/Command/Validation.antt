-- ===== src/Command/Validation.antt =====
-- What the validation of keys, payloads and envelopes accepts.
use homemagic.Capability.{CapabilityDescriptor, schema, is_blank}
use homemagic.Capability.Schema.{schema-injective}
use homemagic.Prelude.{
  length, any, ok, Text, text, ℕ, ◌≤◌, ◌<◌, ◌≡◌, refl, ◌↔◌, false, Option, none, some, arith, leb,
  if◌then◌else◌, Result, err, ◌==◌, nat_eq, text_beq_iff, text_eq, Bool, true, not,
}
use homemagic.Command.{
  is_control, new_key, go_to, CommandPayload, on_off, level, position, access_control,
  payload_schema, validate_payload, CommandEnvelope, validate, CommandErrorCode,
  capability_mismatch, deadline_exceeded,
}

-- An idempotency key is accepted exactly if it is not blank, has at most 128 characters and no
-- control character, and it is kept as it was given.
new_key_iff :
    (value key : Text)
    → (new_key value ≡ ok key) ↔ (
        (key ≡ value)
        × (is_blank value ≡ false)
        × (length value ≤ 128)
        × (any is_control value ≡ false))
unfolding new_key
new_key_iff value key = ground arith

abbrev InTime : Option ℕ → Type 0
InTime none = Unit {0}
InTime (some ms) = ms ≤ 3600000

-- The ranges of a payload.
abbrev pub InRange : CommandPayload → Type 0
InRange (on_off _) = Unit {0}
InRange (level l) = (l.percent ≤ 100) × InTime l.transition_ms
InRange (position (go_to percent)) = percent ≤ 100
InRange (position _) = Unit {0}
InRange (access_control _) = Unit {0}

validate_payload_iff : (p : CommandPayload) → (validate_payload p ≡ ok tt) ↔ InRange p
unfolding validate_payload
validate_payload_iff (on_off c) = ((λ h. tt), (λ h. refl))
validate_payload_iff (level l) = ground arith
validate_payload_iff (position p) = ground arith
validate_payload_iff (access_control c) = ((λ h. tt), (λ h. refl))

-- The capability that a payload is a command of, at version 1.
abbrev pub capability_name : CommandPayload → Text
capability_name (on_off _) = text "on_off"
capability_name (level _) = text "level"
capability_name (position _) = text "position"
capability_name (access_control _) = text "access_control"

abbrev contract : CommandPayload → CapabilityDescriptor → CapabilityDescriptor
contract p d = record d { name = capability_name p; version = 1 }

schema-contract :
    (p : CommandPayload) (d : CapabilityDescriptor) → payload_schema p ≡ schema (contract p d)
unfolding payload_schema schema
schema-contract (on_off c) d = refl
schema-contract (level c) d = refl
schema-contract (position c) d = refl
schema-contract (access_control c) d = refl

contract_iff :
    (p : CommandPayload) (d : CapabilityDescriptor)
    → (schema d ≡ payload_schema p) ↔ ((d.name ≡ capability_name p) × (d.version ≡ 1))
contract_iff p d = rw (schema-contract p d) (schema-injective d (contract p d))

passed :
    (late same : Bool) (v : Result (Unit {0}) CommandErrorCode)
    → (if late then err deadline_exceeded else if not same then err capability_mismatch else v)
      ≡ ok tt
    → (late ≡ false) × (same ≡ true) × (v ≡ ok tt)
passed true same v h = absurd (cc)
passed false true v h = (refl, refl, h)
passed false false v h = absurd (cc)

-- An envelope is valid exactly if its deadline lies ahead, its capability is the one that its
-- payload is a command of, at version 1, and the payload's values are in range.
pub validate_iff :
    (e : CommandEnvelope) (now : ℕ)
    → (validate e now ≡ ok tt) ↔ (
        (now < e.deadline)
        × (e.capability.name ≡ capability_name e.payload)
        × (e.capability.version ≡ 1)
        × InRange e.payload)
unfolding validate
validate_iff e now =
    let c = contract_iff e.payload e.capability in
    let t = text_beq_iff (schema e.capability) (payload_schema e.payload) in
    let p = validate_payload_iff e.payload in
    (
      (λ h.
          let (l, q, v) =
            passed (leb e.deadline now) (schema e.capability == payload_schema e.payload)
              (validate_payload e.payload) h in
          let (n, u) = c.0 (t.0 q) in (ground arith, n, u, p.0 v)),
      (λ (l, n, u, r).
          let q = t.1 (c.1 (n, u)) in
          let w : leb e.deadline now ≡ false = ground arith in rw (w, q) (p.1 r)),
    )
