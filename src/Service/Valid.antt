-- ===== src/Service/Valid.antt =====
-- What the validation of a target accepts, in terms of the envelope and the device.
use homemagic.Prelude.{
  filter, any, Any, any_iff, ok, require, Text, text_beq_iff, text_eq, nat_eq, ◌==◌, ℕ, ◌<◌, ◌≡◌,
  refl, ◌≢◌, ◌↔◌, Bool, true, false, not, Option, none, some, List, [], ◌∷◌, arith, Result, err,
  ◌>>◌,
}
use homemagic.Capability.{RiskClass, rank, CapabilityDescriptor}
use homemagic.Capability.Snapshot.{CapabilitySnapshot}
use homemagic.Command.{
  CommandPayload, on_off, level, position, access_control, open_fully, close_fully, stop, go_to,
  set, toggle, ExpectedObservation, CommandAggregate, validate, capability_mismatch,
  stale_observation, unsupported_constraint,
}
use homemagic.Command.Validation.{InRange, capability_name, validate_iff}
use homemagic.Device.{DeviceRecord, EndpointSnapshot}
use homemagic.Observation.{descriptor_beq}
use homemagic.Policy.{is_available}
use homemagic.Service.Target.{
  is_toggle, has_percent, offered, is_outdated, constraint_state, validate_target,
}

abbrev pub IsCurrent : Option ExpectedObservation → ℕ → Type 0
IsCurrent none observed_at = Unit {0}
IsCurrent (some expected) observed_at = expected.observed_at ≡ observed_at

-- Only a movement to a position asks for an endpoint that reports one.
abbrev pub IsCalibrated :
    {F J : Type 0} → CommandPayload → Text → DeviceRecord (CapabilitySnapshot F) J → Type 0
IsCalibrated (position (go_to percent)) endpoint_id device =
    Any (λ e. Any (λ k. has_percent k ≡ true) e.capabilities × (e.id ≡ endpoint_id))
      device.snapshot.endpoints
IsCalibrated _ endpoint_id device = Unit {0}

pub record ValidTarget {F J : Type 0} (c : CommandAggregate)
    (device : DeviceRecord (CapabilitySnapshot F) J) (now : ℕ) : Type 0 where
  pub in_time : now < c.envelope.deadline
  pub name : c.envelope.capability.name ≡ capability_name c.envelope.payload
  pub version : c.envelope.capability.version ≡ 1
  pub range : InRange c.envelope.payload
  pub offers : Any (λ d. d ≡ c.envelope.capability) (offered c.envelope.endpoint_id device)
  pub current : IsCurrent c.envelope.expected device.snapshot.observed_at
  pub settled : c.envelope.payload ≢ on_off toggle
  pub calibrated : IsCalibrated c.envelope.payload c.envelope.endpoint_id device

require_iff : {E : Type 0} (b : Bool) (e : E) → (require b e ≡ ok tt) ↔ (b ≡ true)
require_iff true e = ground arith
require_iff false e = ground arith

rank-injective : (a b : RiskClass) → rank a ≡ rank b → a ≡ b
unfolding rank
rank-injective a b h = ground (arith, h)

descriptor_beq_iff : (a b : CapabilityDescriptor) → (descriptor_beq a b ≡ true) ↔ (a ≡ b)
unfolding descriptor_beq
descriptor_beq_iff a b = ground (arith, text_beq_iff a.name b.name, rank-injective a.risk b.risk)

offers_iff :
    (d : CapabilityDescriptor) (ds : List CapabilityDescriptor)
    → (any (λ x. descriptor_beq x d) ds ≡ true) ↔ Any (λ x. x ≡ d) ds
offers_iff d [] = ground arith
offers_iff d (x ∷ xs) = ground (arith, descriptor_beq_iff x d, offers_iff d xs)

IsCurrent-iff :
    (x : Option ExpectedObservation) (at : ℕ) → (not (is_outdated x at) ≡ true) ↔ IsCurrent x at
IsCurrent-iff none at = ground arith
IsCurrent-iff (some x) at = ground arith

settled_iff : (p : CommandPayload) → (not (is_toggle p) ≡ true) ↔ (p ≢ on_off toggle)
settled_iff (on_off (set on)) = ((λ _ q. absurd (cc)), (λ _. refl))
settled_iff (on_off toggle) = ((λ h. absurd (cc)), (λ h. absurd (h refl)))
settled_iff (level _) = ((λ _ q. absurd (cc)), (λ _. refl))
settled_iff (position _) = ((λ _ q. absurd (cc)), (λ _. refl))
settled_iff (access_control _) = ((λ _ q. absurd (cc)), (λ _. refl))

placed_iff :
    {F : Type 0} (id : Text) (es : List (EndpointSnapshot (CapabilitySnapshot F)))
    → (any (λ e. any has_percent e.capabilities) (filter (λ e. e.id == id) es) ≡ true)
      ↔ Any (λ e. Any (λ k. has_percent k ≡ true) e.capabilities × (e.id ≡ id)) es
placed_iff id [] = ground arith
placed_iff id (e ∷ es) =
    ground (arith, placed_iff id es, any_iff has_percent e.capabilities, text_beq_iff e.id id)

IsCalibrated-iff :
    {F J : Type 0} (p : CommandPayload) (id : Text) (device : DeviceRecord (CapabilitySnapshot F) J)
    → (is_available (constraint_state p id device) ≡ true) ↔ IsCalibrated p id device
unfolding constraint_state
IsCalibrated-iff (position (go_to percent)) id device =
    let placed = placed_iff id device.snapshot.endpoints in ground (arith, placed)
IsCalibrated-iff (position open_fully) id device = ground arith
IsCalibrated-iff (position close_fully) id device = ground arith
IsCalibrated-iff (position stop) id device = ground arith
IsCalibrated-iff (on_off _) id device = ground arith
IsCalibrated-iff (level _) id device = ground arith
IsCalibrated-iff (access_control _) id device = ground arith

four_passed :
    {E : Type 0} (m : Result (Unit {0}) E) (a b c d : Bool) (x y z u : E)
    → (m >> require a x >> require b y >> require c z >> require d u ≡ ok tt)
      ↔ ((m ≡ ok tt) × (a ≡ true) × (b ≡ true) × (c ≡ true) × (d ≡ true))
four_passed (ok t) a b c d x y z u = ground arith
four_passed (err e) a b c d x y z u = ground arith

-- A target is accepted exactly if the deadline of the command is still to come, the payload is one
-- of its capability and in range, the endpoint offers the capability, the expected observation is the
-- current one, the payload is no reversal any more, and a movement to a position finds an endpoint
-- that reports its position.
pub validate_target-ValidTarget :
    {F J : Type 0} (c : CommandAggregate) (device : DeviceRecord (CapabilitySnapshot F) J) (now : ℕ)
    → (validate_target c device now ≡ ok tt) ↔ ValidTarget c device now
unfolding validate_target
validate_target-ValidTarget c device now =
    let e = c.envelope in
    let all_of =
      four_passed (validate e now)
        (any (λ d. descriptor_beq d e.capability) (offered e.endpoint_id device))
        (not (is_outdated e.expected device.snapshot.observed_at)) (not (is_toggle e.payload))
        (is_available (constraint_state e.payload e.endpoint_id device)) capability_mismatch
        stale_observation stale_observation unsupported_constraint in
    let offer = offers_iff e.capability (offered e.endpoint_id device) in
    let fresh_one = IsCurrent-iff e.expected device.snapshot.observed_at in
    let placed = IsCalibrated-iff e.payload e.endpoint_id device in
    (
      (λ h.
          let (v, o, x, t, k) = all_of.0 h in
          let (l, n, m, r) = (validate_iff e now).0 v in
          record {
            in_time = l;
            name = n;
            version = m;
            range = r;
            offers = offer.0 o;
            current = fresh_one.0 x;
            settled = (settled_iff e.payload).0 t;
            calibrated = placed.0 k;
          }),
      (λ h. all_of.1 (
        (validate_iff e now).1 (h.in_time, h.name, h.version, h.range),
        offer.1 h.offers,
        fresh_one.1 h.current,
        (settled_iff e.payload).1 h.settled,
        placed.1 h.calibrated,
      )),
    )
