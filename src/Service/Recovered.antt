-- ===== src/Service/Recovered.antt =====
-- Which commands a recovery hands to the adapter.
use homemagic.Prelude.{
  leb, give, chain-State, either-State, ℕ, ◌<◌, ◌≡◌, refl, ap, ◌∙◌, subst, inl, false, some, List,
  arith,
}
use homemagic.Capability.Snapshot.{CapabilitySnapshot}
use homemagic.Command.{
  CommandEnvelope, CommandAggregate, CommandState, received, validated, rejected, dispatched,
  acknowledged, confirmed, failed, timed_out, cancelled, policy_denied, is_terminal,
}
use homemagic.Device.{DeviceRecord}
use homemagic.Limits.{CommandLimitCapacities}
use homemagic.Policy.{evaluate}
use homemagic.Policy.Covers.{Permitted}
use homemagic.Policy.Permission.{evaluate-Permitted}
use homemagic.Service.{Run, actor_not_found, reject, timeout, confirm}
use homemagic.Service.Boundary.{ActorSecurity, CommandService, load_device, load_security}
use homemagic.Service.Request.{policy_input, dispatch}
use homemagic.Service.Recovery.{
  resume_received, redecide, resume_validated, in_time_or, ignoring, recover_in, recover_one,
}
use homemagic.Service.Handed.{Still, reject-Still, timeout-Still, confirm-Still}
use homemagic.Service.Dispatching.{ServiceLaws, Outcome, dispatch-Outcome}
use homemagic.Service.Clearance.{
  Cleared, Approved, not_late, for_reason, present_or-State, drop_permit-Outcome,
  continue_received-Outcome,
}
use homemagic.Service.Execution.{Loaded, load_device-Loaded, load_device-Still}

-- What clears a command that is recovered in a state, by that state, on the device that the store
-- loaded by the identity in the command, and for the actor of the command.
abbrev pub Resumed :
    {W B F J : Type 0} (service : CommandService W B F J) (now : ℕ) (c : CommandAggregate)
    → CommandState
    → Type 0
Resumed {F} {J} service now c received =
    (device : DeviceRecord (CapabilitySnapshot F) J) × Loaded service c.envelope.device_id device
    × Approved service c.envelope.actor_id now device c
Resumed {F} {J} service now c validated =
    (device : DeviceRecord (CapabilitySnapshot F) J) × Loaded service c.envelope.device_id device
    × Cleared service c.envelope.actor_id now device c
    × (c.envelope.dry_run ≡ false)
Resumed service now c _ = ⊥

physical_lem :
    (c : CommandAggregate)
    → is_terminal c ≡ false
    → c.state ≡ validated
    → c.envelope.dry_run ≡ false
unfolding is_terminal
physical_lem c h s = ground (arith, h, s)

module _ {W B F J : Type 0} {service : CommandService W B F J} {handed : W → List CommandEnvelope}
    (laws : ServiceLaws service handed) where
  resume_received-Outcome :
      {s : List CommandEnvelope} (c : CommandAggregate) (now : ℕ) (w : W)
      → handed w ≡ s
      → Outcome handed c.envelope
          (Resumed service now c received)
          s
          (resume_received service c now w).1
  unfolding resume_received load_security
  resume_received-Outcome {s} c now w h =
      let e = c.envelope in
      let I = Still laws.services s in
      let J = Outcome handed e (Resumed service now c received) s in
      chain-State I J (load_device service e.device_id w) _ (load_device-Still laws e.device_id w h)
        (λ _ i. inl i)
        (λ device w1 t i.
          present_or-State I J actor_not_found (service.stores.actor_security e.actor_id w1) _
            (laws.stores.actor_security e.actor_id w1 ∙ i) (λ _ j. inl j)
            (λ security w2 u j.
              let same = laws.stores.same_actor e.actor_id w1 security (ap (λ z. z.0) u) in
              for_reason
                (λ approved. (
                  device,
                  load_device-Loaded service e.device_id device w w1 t,
                  subst (λ a. Approved service a now device c) same approved,
                ))
                (continue_received-Outcome laws c device security.actor.id now w2 j)))

  redecide-Outcome :
      {P : Type 0} {s : List CommandEnvelope} (c : CommandAggregate)
      (device : DeviceRecord (CapabilitySnapshot F) J) (security : ActorSecurity) (now : ℕ)
      (k : CommandLimitCapacities) (w : W)
      → (Permitted (policy_input security.actor c device service.freshness k now) security.grants
          → now < c.envelope.deadline
          → P)
      → handed w ≡ s
      → Outcome handed c.envelope P s (redecide service c device security now k w).1
  unfolding redecide
  redecide-Outcome {P} {s} c device security now k w p h =
      let i = policy_input security.actor c device service.freshness k now in
      let decision = evaluate i security.grants in
      either-State (Outcome handed c.envelope P s) decision.allowed (dispatch service c now)
        (reject service.services c policy_denied now (some decision)) w
        (λ allowed.
          dispatch-Outcome laws c now w refl
            (λ late.
              p ((evaluate-Permitted i security.grants).0 allowed)
                (not_late c.envelope.deadline now late))
            h)
        (λ _. inl (reject-Still laws.services c policy_denied now (some decision) w h))

  resume_validated-Outcome :
      {s : List CommandEnvelope} (c : CommandAggregate) (now : ℕ) (w : W)
      → c.envelope.dry_run ≡ false
      → handed w ≡ s
      → Outcome handed c.envelope
          (Resumed service now c validated)
          s
          (resume_validated service c now w).1
  unfolding resume_validated load_security
  resume_validated-Outcome {s} c now w physical h =
      let e = c.envelope in
      let I = Still laws.services s in
      let J = Outcome handed e (Resumed service now c validated) s in
      chain-State I J (load_device service e.device_id w) _ (load_device-Still laws e.device_id w h)
        (λ _ i. inl i)
        (λ device w1 t i.
          present_or-State I J actor_not_found (service.stores.actor_security e.actor_id w1) _
            (laws.stores.actor_security e.actor_id w1 ∙ i) (λ _ j. inl j)
            (λ security w2 u j.
              let (k, w3) = service.stores.try_acquire e.actor_id e.device_id now w2 in
              drop_permit-Outcome laws k e.device_id _ (
                redecide-Outcome c device security now k w3
                  (λ permitted late. (
                    device,
                    load_device-Loaded service e.device_id device w w1 t,
                    record {
                      security = security;
                      stored = (w1, ap (λ z. z.0) u);
                      capacities = k;
                      acquired = (e.actor_id, w2, refl);
                      permitted = permitted;
                      in_time = late;
                    },
                    physical,
                  ))
                  (laws.stores.try_acquire e.actor_id e.device_id now w2 ∙ j))))

  -- What `ignoring` and the check of the deadline add.
  in_time_or-Outcome :
      {P : Type 0} {s : List CommandEnvelope} (c : CommandAggregate) (now : ℕ)
      (m : Run W B CommandAggregate) (w : W)
      → Outcome handed c.envelope P s (m w).1
      → handed w ≡ s
      → Outcome handed c.envelope P s (ignoring (in_time_or service c now m) w).1
  unfolding in_time_or
  in_time_or-Outcome {P} {s} c now m w o h =
      let J = Outcome handed c.envelope P s in
      chain-State J J (in_time_or service c now m w) (λ _. give tt)
        (either-State J (leb c.envelope.deadline now) (timeout service.services c now) m w
          (λ _. inl (timeout-Still laws.services c now w h)) (λ _. o))
        (λ _ i. i) (λ _ _ _ i. i)

  still_confirming :
      {P : Type 0} {s : List CommandEnvelope} (c : CommandAggregate) (now : ℕ) (w : W)
      → handed w ≡ s
      → Outcome handed c.envelope P s (ignoring (confirm service.services c now) w).1
  still_confirming {P} {s} c now w h =
      let J = Outcome handed c.envelope P s in
      chain-State J J (confirm service.services c now w) (λ _. give tt)
        (inl (confirm-Still laws.services c now w h)) (λ _ i. i) (λ _ _ _ i. i)

  recover_in-Outcome :
      {s : List CommandEnvelope} (state : CommandState) (c : CommandAggregate) (now : ℕ) (w : W)
      → c.state ≡ state
      → is_terminal c ≡ false
      → handed w ≡ s
      → Outcome handed c.envelope
          (Resumed service now c state)
          s
          (recover_in service state c now w).1
  unfolding recover_in
  recover_in-Outcome received c now w e t h =
      in_time_or-Outcome c now _ w (resume_received-Outcome c now w h) h
  recover_in-Outcome validated c now w e t h =
      in_time_or-Outcome c now _ w (resume_validated-Outcome c now w (physical_lem c t e) h) h
  recover_in-Outcome dispatched c now w e t h = still_confirming c now w h
  recover_in-Outcome acknowledged c now w e t h = still_confirming c now w h
  recover_in-Outcome rejected c now w e t h = inl h
  recover_in-Outcome confirmed c now w e t h = inl h
  recover_in-Outcome failed c now w e t h = inl h
  recover_in-Outcome timed_out c now w e t h = inl h
  recover_in-Outcome cancelled c now w e t h = inl h

  pub recover_one-Outcome :
      (c : CommandAggregate) (now : ℕ) (w : W)
      → is_terminal c ≡ false
      → Outcome handed c.envelope
          (Resumed service now c c.state)
          (handed w)
          (recover_one service c now w).1
  unfolding recover_one
  recover_one-Outcome c now w t = recover_in-Outcome c.state c now w refl t refl
