-- ===== src/Service/Approval.antt =====
-- Which command an approval of an unlock hands to the adapter.
use homemagic.Prelude.{
  leb, ok, err, continue_with, lift_error, chain-State, await-State, either-State, ℕ, ◌<◌, ◌≡◌,
  refl, ap, ◌∙◌, inl, Bool, true, false, ◌||◌, not, Option, none, some, List, arith,
}
use homemagic.Actor.{Actor}
use homemagic.Capability.Snapshot.{CapabilitySnapshot}
use homemagic.Command.{CommandEnvelope, CommandAggregate, CommandState, validated, is_validated}
use homemagic.Device.{DeviceRecord}
use homemagic.Policy.{PolicyDecision, evaluate}
use homemagic.Policy.Covers.{Permitted}
use homemagic.Policy.Permission.{evaluate-Permitted}
use homemagic.Service.{
  repository, actor_not_found, command_not_found, unlock_not_pending, unlock_approval_denied,
  unlock_approval_unavailable, CommandAuditRecord,
}
use homemagic.Service.Boundary.{
  ActorSecurity, MatterDispatchAdmission, committed, superseded, awaiting_unlock_authorization,
  CommandDispatchControl, CommandService, from_result, from_option, load_device, load_security,
}
use homemagic.Service.Recovery.{
  is_unlock, approval_input, follow_approval, authorize_approved, approve_on, approve_pending,
  approve_found, approve_unlock,
}
use homemagic.Service.Handed.{Still}
use homemagic.Service.Dispatching.{ServiceLaws, ControlLaws, Outcome, dispatch_admitted-Outcome}
use homemagic.Service.Clearance.{not_late, present_or-State}
use homemagic.Service.Execution.{Loaded, load_device-Loaded, load_device-Still, AtMostOne, one_of}

-- The policy permits the approval of the unlock on the grants that the store keeps for the approver.
pub record Unlockable {W B F J : Type 0} (service : CommandService W B F J) (approver now : ℕ)
    (c : CommandAggregate) : Type 0 where
  pub device : DeviceRecord (CapabilitySnapshot F) J
  pub target : Loaded service c.envelope.device_id device
  pub security : ActorSecurity
  pub stored : (w : W) × ((service.stores.actor_security approver w).0 ≡ ok (some security))
  pub permitted :
      Permitted (approval_input security.actor c device service.freshness now) security.grants

-- A pending unlock.
abbrev pub Pending : ℕ → CommandAggregate → Type 0
Pending now c =
    (c.state ≡ validated) × (now < c.envelope.deadline) × (is_unlock c.envelope.payload ≡ true)

is_validated-state : (s : CommandState) → is_validated s ≡ true → s ≡ validated
is_validated-state s h = ground arith

three : (a b c : Bool) → (not a || b || not c) ≡ false → (a ≡ true) × (b ≡ false) × (c ≡ true)
three a b c h = ground arith

module _ {W B F J : Type 0} {service : CommandService W B F J} {handed : W → List CommandEnvelope}
    (laws : ServiceLaws service handed) where
  follow_approval-Outcome :
      {P : Type 0} {s : List CommandEnvelope} (e : CommandEnvelope) (m : MatterDispatchAdmission)
      (w : W)
      → ((d : CommandAggregate) (a : CommandAuditRecord) → m ≡ committed d a → d.envelope ≡ e)
      → P
      → handed w ≡ s
      → Outcome handed e P s (follow_approval service m w).1
  unfolding follow_approval
  follow_approval-Outcome e (committed d a) w same p h =
      dispatch_admitted-Outcome laws d a w (same d a refl) p h
  follow_approval-Outcome e (superseded d) w same p h = inl h
  follow_approval-Outcome e MatterDispatchAdmission.unmanaged w same p h = inl h
  follow_approval-Outcome e awaiting_unlock_authorization w same p h = inl h

  authorized_by :
      {P : Type 0} {s : List CommandEnvelope} (c : CommandAggregate) (approver : Actor)
      (approval : PolicyDecision) (now : ℕ) (x : CommandDispatchControl W B) (w : W)
      → ControlLaws x handed
      → P
      → handed w ≡ s
      → Outcome handed c.envelope P s
          (continue_with
            (lift_error repository (x.authorize_unlock approver c approval now w))
            (follow_approval service)).1
  authorized_by {P} {s} c approver approval now x w l p h =
      await-State (Still laws.services s) (Outcome handed c.envelope P s) repository
        (x.authorize_unlock approver c approval now w) (follow_approval service)
        (l.authorize_unlock approver c approval now w ∙ h) (λ _ i. inl i)
        (λ m w1 t i.
          follow_approval-Outcome c.envelope m w1
            (λ d a g. l.authorized_same approver c d approval a now w (ap (λ z. z.0) t ∙ ap ok g)) p
            i)

  authorize_approved-Outcome :
      {P : Type 0} {s : List CommandEnvelope} (c : CommandAggregate) (approver : Actor)
      (approval : PolicyDecision) (now : ℕ) (w : W)
      → P
      → handed w ≡ s
      → Outcome handed c.envelope P s (authorize_approved service c approver approval now w).1
  unfolding authorize_approved
  authorize_approved-Outcome {P} {s} c approver approval now w p h =
      controlled service.dispatch_control laws.control
    where
      controlled :
          (control : Option (CommandDispatchControl W B))
          → ((x : CommandDispatchControl W B) → control ≡ some x → ControlLaws x handed)
          → Outcome handed c.envelope P s
              (continue_with (from_option {B = B} unlock_approval_unavailable control w) (λ x w1.
                continue_with
                  (lift_error repository (x.authorize_unlock approver c approval now w1))
                  (follow_approval service))).1
      controlled none ls = inl h
      controlled (some x) ls = authorized_by c approver approval now x w (ls x refl) p h

  approve_pending-Outcome :
      {s : List CommandEnvelope} (approver : Actor) (c : CommandAggregate) (now : ℕ) (w : W)
      → handed w ≡ s
      → Outcome handed c.envelope
          (Unlockable service approver.id now c)
          s
          (approve_pending service approver c now w).1
  unfolding approve_pending approve_on load_security
  approve_pending-Outcome {s} approver c now w h =
      let e = c.envelope in
      let I = Still laws.services s in
      let J = Outcome handed e (Unlockable service approver.id now c) s in
      present_or-State I J actor_not_found (service.stores.actor_security approver.id w) _
        (laws.stores.actor_security approver.id w ∙ h) (λ _ j. inl j)
        (λ security w1 t i.
          chain-State I J (load_device service e.device_id w1) _
            (load_device-Still laws e.device_id w1 i) (λ _ j. inl j)
            (λ device w2 u j.
              let input = approval_input security.actor c device service.freshness now in
              let approval = evaluate input security.grants in
              either-State J (not approval.allowed) (from_result (err unlock_approval_denied))
                (authorize_approved service c security.actor approval now) w2 (λ _. inl j)
                (λ allowed.
                  authorize_approved-Outcome c security.actor approval now w2
                    (record {
                      device = device;
                      target = load_device-Loaded service e.device_id device w1 w2 u;
                      security = security;
                      stored = (w, ap (λ z. z.0) t);
                      permitted =
                          (evaluate-Permitted input security.grants).0 (ground (arith, allowed));
                    })
                    j)))

  -- If nothing but the dispatch of the adapter hands it an envelope, if the dispatch control commits
  -- only the command that it is given, and if an actor is stored under its identity, then, whatever the
  -- services answer, the approval of a command hands at most one envelope to the adapter: that of the
  -- command which the store has under the given identity. Then the command is a validated unlock whose
  -- deadline is still to come, and the policy permits its approval, for the device that the
  -- store loaded by the identity in the command, on the grants that the store keeps for the approver.
  pub approve_unlock-AtMostOne :
      (approver : Actor) (command_id now : ℕ) (w : W)
      → AtMostOne handed
          (λ c.
            ((service.stores.command command_id w).0 ≡ ok (some c))
            × Pending now c
            × Unlockable service approver.id now c)
          (handed w)
          (approve_unlock service approver command_id now w).1
  unfolding approve_unlock approve_found
  approve_unlock-AtMostOne approver command_id now w =
      let Q : CommandAggregate → Type 0 = λ c.
        ((service.stores.command command_id w).0 ≡ ok (some c))
        × Pending now c
        × Unlockable service approver.id now c in
      let J = AtMostOne handed Q (handed w) in
      present_or-State (Still laws.services (handed w)) J command_not_found
        (service.stores.command command_id w) _ (laws.stores.command command_id w) (λ _ i. inl i)
        (λ c w1 t i.
          let s = is_validated c.state in
          let late = leb c.envelope.deadline now in
          let u = is_unlock c.envelope.payload in
          either-State J (not s || late || not u) (from_result (err unlock_not_pending))
            (approve_pending service approver c now) w1 (λ _. inl i)
            (λ due.
              let (v, l, k) = three s late u due in
              one_of c
                (λ unlockable. (
                  ap (λ z. z.0) t,
                  (is_validated-state c.state v, not_late c.envelope.deadline now l, k),
                  unlockable,
                ))
                (approve_pending-Outcome approver c now w1 i)))
