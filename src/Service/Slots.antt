-- ===== src/Service/Slots.antt =====
-- The slot of a device that an allowed command holds: the limits and the policy together.
use homemagic.Prelude.{
  Option-cases, ℕ, suc, ◌≡◌, inl, inr, true, false, none, arith, ltb, if◌then◌else◌, Bool-cases,
  sym, ap, ◌∙◌, Bool, ◌||◌, some, List,
}
use homemagic.Actor.{Actor, ActorGrant}
use homemagic.Capability.Snapshot.{CapabilitySnapshot}
use homemagic.Command.{CommandAggregate}
use homemagic.Device.{DeviceRecord}
use homemagic.Freshness.{FreshnessPolicy}
use homemagic.Limits.{
  admit, cutoff_at, pop_expired, try_acquire, or_create, CommandLimitConfig, Semaphore,
  SemaphoreLaws, LimitState, update, CommandLimitCapacities, device_semaphore, take_slot,
  acquire_at,
}
use homemagic.Limits.History.{left, count, take_slot-count, acquired}
use homemagic.Policy.{evaluate, CapacityState, exhausted}
use homemagic.Policy.Permission.{evaluate-Permitted}
use homemagic.Service.Request.{policy_input}

update_same : {A : Type 0} (f : ℕ → A) (k : ℕ) (x : A) → update f k x k ≡ x
unfolding update
update_same f k x = ground arith

module _ {S : Type 0} (sem : Semaphore S) (config : CommandLimitConfig) (laws : SemaphoreLaws sem)
    (refused : (s : S) → sem.try_acquire_owned s ≡ none → sem.available_permits s ≡ 0) where
  -- A slot is refused only where none is free.
  take_slot-refused :
      (d : S)
      → (take_slot sem config CapacityState.available d).1 ≡ false
      → sem.available_permits d ≡ 0
  unfolding take_slot
  take_slot-refused d h = elim (Option-cases (sem.try_acquire_owned d)) [
    | inl e ↦ refused d e
    | inr (d', e) ↦ absurd (ground (arith, h, e))
  ]

  -- What an acquisition for an admitted request that finds the device available has done.
  take_slot-taken :
      (d : S)
      → (if (take_slot sem config CapacityState.available d).1 || ltb 0 (sem.available_permits d)
          then CapacityState.available
          else exhausted)
        ≡ CapacityState.available
      → ((take_slot sem config CapacityState.available d).1 ≡ true)
        × (sem.available_permits d
            ≡ suc (sem.available_permits (take_slot sem config CapacityState.available d).0))
  take_slot-taken d h = elim (Bool-cases (take_slot sem config CapacityState.available d).1) [
    | inl e ↦
        (e, omega (arith, take_slot-count sem config laws CapacityState.available d, ap count e))
    | inr e ↦ absurd (ground (arith, h, e, take_slot-refused d e))
  ]

  -- A device that counts as available, of an actor in its window, has given a slot.
  acquire_at-slot :
      (s s' : LimitState S) (r : CommandLimitCapacities) (a d now cutoff : ℕ)
      → acquire_at sem config s a d now cutoff ≡ (s', r)
      → r.rate ≡ CapacityState.available
      → r.device ≡ CapacityState.available
      → (r.permit ≡ true) × (left sem config s d ≡ suc (left sem config s' d))
  unfolding acquire_at device_semaphore
  acquire_at-slot s s' r a d now cutoff h rate device =
      let x = device_semaphore sem config s d in
      let slot : CapacityState → S × Bool = λ c. take_slot sem config c x in
      let q : (admit config.actor_requests now (pop_expired cutoff (s.actor_requests a))).1
          ≡ CapacityState.available =
        ap (λ p. p.1.rate) h ∙ rate in
      let (given, fewer) = take_slot-taken x (
        ap
          (λ c.
            if (slot c).1 || ltb 0 (sem.available_permits x)
            then CapacityState.available
            else exhausted)
          (sym q)
        ∙ ap (λ p. p.1.device) h
        ∙ device) in
      (
        sym (ap (λ p. p.1.permit) h) ∙ ap (λ c. (slot c).1) q ∙ given,
        fewer
            ∙ ap suc (
                sym (
                  ap (λ p. sem.available_permits (or_create sem config (p.0.devices d))) (sym h)
                  ∙ ap (λ o. sem.available_permits (or_create sem config o))
                      (update_same s.devices d _)
                  ∙ ap (λ c. sem.available_permits (slot c).0) q)),
      )

  module _ {F J : Type 0} where
    -- If an acquisition from the semaphore takes one permit, and is refused only where none is left, and
    -- if the policy allows a command on the capacities that the limits gave in one step for its device,
    -- then a permit was given with them, and one slot of the device less is free than before.
    pub evaluate-slot :
        (s s' : LimitState S) (r : CommandLimitCapacities) (actor : Actor) (c : CommandAggregate)
        (device : DeviceRecord (CapabilitySnapshot F) J) (freshness : FreshnessPolicy)
        (grants : List ActorGrant) (now : ℕ)
        → try_acquire sem config s actor.id c.envelope.device_id now ≡ some (s', r)
        → (evaluate (policy_input actor c device freshness r now) grants).allowed ≡ true
        → (r.permit ≡ true)
          × (left sem config s c.envelope.device_id ≡ suc (left sem config s' c.envelope.device_id))
    unfolding try_acquire policy_input
    evaluate-slot s s' r actor c device freshness grants now h allowed =
        let i = policy_input actor c device freshness r now in
        let p = (evaluate-Permitted i grants).0 allowed in
        let (k, _, e) =
          acquired sem config s s' r actor.id c.envelope.device_id now
            (cutoff_at now config.actor_window) h in
        acquire_at-slot s s' r actor.id c.envelope.device_id now k e p.rate p.slot
