-- ===== src/Service/Clearance.antt =====
-- Which commands are handed to the adapter by the path from a received command to its dispatch.
use homemagic.Prelude.{
  leb, Result, ok, err, Call, continue_with, give, chain-State, either-State, ℕ, ◌<◌, ◌≡◌, refl,
  sym, ap, ◌∙◌, inl, inr, false, not, Option, none, some, List, arith, ◌⊎◌,
}
use homemagic.Command.{
  CommandEnvelope, CommandAggregate, CommandErrorCode, validated, policy_denied,
}
use homemagic.Capability.Snapshot.{CapabilitySnapshot}
use homemagic.Device.{DeviceRecord}
use homemagic.Limits.{CommandLimitCapacities}
use homemagic.Policy.{evaluate}
use homemagic.Policy.Covers.{Permitted}
use homemagic.Policy.Permission.{evaluate-Permitted}
use homemagic.Service.{CommandServiceError, reject, transition, actor_not_found}
use homemagic.Service.Boundary.{ActorSecurity, CommandService, present_or, load_security}
use homemagic.Service.Target.{validate_target}
use homemagic.Service.Request.{
  policy_input, dispatch, admit, decide, drop_permit, authorize, continue_validated,
  continue_received,
}
use homemagic.Service.Valid.{ValidTarget, validate_target-ValidTarget}
use homemagic.Service.Handed.{Still, transition-Still, reject-Still}
use homemagic.Service.Dispatching.{ServiceLaws, Outcome, transition-envelope, dispatch-Outcome}

-- The policy permits the command on the grants that the store keeps for the actor, with capacities
-- that the limits gave, and its deadline has not passed.
pub record Cleared {W B F J : Type 0} (service : CommandService W B F J) (actor_id now : ℕ)
    (device : DeviceRecord (CapabilitySnapshot F) J) (c : CommandAggregate) : Type 0 where
  pub security : ActorSecurity
  pub stored : (w : W) × ((service.stores.actor_security actor_id w).0 ≡ ok (some security))
  pub capacities : CommandLimitCapacities
  pub acquired :
      (a : ℕ) × (w : W) × ((service.stores.try_acquire a c.envelope.device_id now w).0 ≡ capacities)
  pub permitted :
      Permitted
        (policy_input security.actor c device service.freshness capacities now)
        security.grants
  pub in_time : now < c.envelope.deadline

-- A cleared command that is no dry run, for a valid target.
abbrev pub Approved :
    {W B F J : Type 0} (service : CommandService W B F J) (actor_id now : ℕ)
    (device : DeviceRecord (CapabilitySnapshot F) J) (c : CommandAggregate)
    → Type 0
Approved service actor_id now device c =
    Cleared service actor_id now device c × ValidTarget c device now × (c.envelope.dry_run ≡ false)

pub not_late : (a b : ℕ) → leb a b ≡ false → b < a
not_late a b h = ground arith

module _ {W B A : Type 0} where
  pub present_or-State :
      {C : Type 0} (I J : W → Type 0) (missing : CommandServiceError B)
      (r : Result (Option A) B × W) (f : A → Call W (CommandServiceError B) C)
      → I r.1
      → ((w : W) → I w → J w)
      → ((a : A) (w : W) → r ≡ (ok (some a), w) → I w → J (f a w).1)
      → J (continue_with (present_or missing r) f).1
  present_or-State I J missing (ok (some a), w) f i stop go = go a w refl i
  present_or-State I J missing (ok none, w) f i stop go = stop w i
  present_or-State I J missing (err e, w) f i stop go = stop w i

pub for_reason : {X P Q Y : Type 0} → (P → Q) → X ⊎ (P × Y) → X ⊎ (Q × Y)
for_reason f (inl x) = inl x
for_reason f (inr (p, y)) = inr (f p, y)

module _ {W B F J : Type 0} {service : CommandService W B F J} {handed : W → List CommandEnvelope}
    (laws : ServiceLaws service handed) where
  drop_permit-same :
      (k : CommandLimitCapacities) (d : ℕ) (w : W) → handed (drop_permit service k d w) ≡ handed w
  drop_permit-same k d w = ground (arith, laws.stores.release d w)

  -- Dropping a permit hands nothing over.
  pub drop_permit-Outcome :
      (k : CommandLimitCapacities) (d : ℕ) (w : W) {e : CommandEnvelope} {P : Type 0}
      {s : List CommandEnvelope}
      → Outcome handed e P s w
      → Outcome handed e P s (drop_permit service k d w)
  drop_permit-Outcome k d w (inl h) = inl (drop_permit-same k d w ∙ h)
  drop_permit-Outcome k d w (inr (p, h)) = inr (p, drop_permit-same k d w ∙ h)

  admit-Outcome :
      {P : Type 0} {s : List CommandEnvelope} (c : CommandAggregate) (now : ℕ) (w : W)
      → (now < c.envelope.deadline → c.envelope.dry_run ≡ false → P)
      → handed w ≡ s
      → Outcome handed c.envelope P s (admit service c now w).1
  unfolding admit
  admit-Outcome {P} {s} c now w p h =
      chain-State (Still laws.services s) (Outcome handed c.envelope P s)
        (transition service.services c validated now w) _
        (transition-Still laws.services c validated now w h) (λ _ i. inl i)
        (λ d w1 t i.
          let q = transition-envelope service.services c d validated now w w1 t in
          either-State (Outcome handed c.envelope P s) d.envelope.dry_run (give d)
            (dispatch service d now) w1 (λ _. inl i)
            (λ physical.
              dispatch-Outcome laws d now w1 q
                (λ late.
                  p (not_late c.envelope.deadline now (ap (λ x. leb x.deadline now) (sym q) ∙ late))
                    (ap (λ x. x.dry_run) (sym q) ∙ physical))
                i))

  decide-Outcome :
      {P : Type 0} {s : List CommandEnvelope} (c : CommandAggregate)
      (device : DeviceRecord (CapabilitySnapshot F) J) (security : ActorSecurity) (now : ℕ)
      (k : CommandLimitCapacities) (w : W)
      → (Permitted (policy_input security.actor c device service.freshness k now) security.grants
          → now < c.envelope.deadline
          → c.envelope.dry_run ≡ false
          → P)
      → handed w ≡ s
      → Outcome handed c.envelope P s (decide service c device security now k w).1
  unfolding decide policy_input
  decide-Outcome {P} {s} c device security now k w p h =
      let i = policy_input security.actor c device service.freshness k now in
      let decision = evaluate i security.grants in
      let decided = record c { policy = some decision } in
      either-State (Outcome handed c.envelope P s) (not decision.allowed)
        (reject service.services decided policy_denied now (some decision))
        (admit service decided now) w
        (λ _. inl (reject-Still laws.services decided policy_denied now (some decision) w h))
        (λ allowed.
          admit-Outcome decided now w
            (p ((evaluate-Permitted i security.grants).0 (ground (arith, allowed)))) h)

  authorize-Outcome :
      {s : List CommandEnvelope} (c : CommandAggregate)
      (device : DeviceRecord (CapabilitySnapshot F) J) (actor_id now : ℕ) (w : W)
      → handed w ≡ s
      → Outcome handed c.envelope
          (Cleared service actor_id now device c × (c.envelope.dry_run ≡ false))
          s
          (authorize service c device actor_id now w).1
  unfolding authorize load_security
  authorize-Outcome {s} c device actor_id now w h =
      let P = Cleared service actor_id now device c × (c.envelope.dry_run ≡ false) in
      present_or-State (Still laws.services s) (Outcome handed c.envelope P s) actor_not_found
        (service.stores.actor_security actor_id w) _ (laws.stores.actor_security actor_id w ∙ h)
        (λ _ i. inl i)
        (λ security w1 t i.
          let a = security.actor.id in
          let d = c.envelope.device_id in
          let (k, w2) = service.stores.try_acquire a d now w1 in
          drop_permit-Outcome k d _ (
            decide-Outcome c device security now k w2
              (λ permitted late physical. (
                record {
                  security = security;
                  stored = (w, ap (λ z. z.0) t);
                  capacities = k;
                  acquired = (a, w1, refl);
                  permitted = permitted;
                  in_time = late;
                },
                physical,
              ))
              (laws.stores.try_acquire a d now w1 ∙ i)))

  continue_validated-Outcome :
      {s : List CommandEnvelope} (c : CommandAggregate)
      (device : DeviceRecord (CapabilitySnapshot F) J) (actor_id now : ℕ)
      (r : Result (Unit {0}) CommandErrorCode) (w : W)
      → validate_target c device now ≡ r
      → handed w ≡ s
      → Outcome handed c.envelope
          (Approved service actor_id now device c)
          s
          (continue_validated service c device actor_id now r w).1
  unfolding continue_validated
  continue_validated-Outcome c device actor_id now (err code) w v h =
      inl (reject-Still laws.services c code now none w h)
  continue_validated-Outcome {s} c device actor_id now (ok tt) w v h =
      for_reason
        (λ (cleared, physical). (cleared, (validate_target-ValidTarget c device now).0 v, physical))
        (authorize-Outcome c device actor_id now w h)

  -- A received command for a device is handed to the adapter at most once, and only if its target is
  -- valid, it is no dry run, and the policy clears it in time.
  pub continue_received-Outcome :
      {s : List CommandEnvelope} (c : CommandAggregate)
      (device : DeviceRecord (CapabilitySnapshot F) J) (actor_id now : ℕ) (w : W)
      → handed w ≡ s
      → Outcome handed c.envelope
          (Approved service actor_id now device c)
          s
          (continue_received service c device actor_id now w).1
  unfolding continue_received
  continue_received-Outcome c device actor_id now w h =
      continue_validated-Outcome c device actor_id now _ w refl h
