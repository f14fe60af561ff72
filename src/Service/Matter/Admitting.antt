-- ===== src/Service/Matter/Admitting.antt =====
-- The dispatch control of Matter gives the service what it relies on: it hands nothing to the adapter
-- itself, and commits only the command that it is given.
use homemagic.Prelude.{
  leb, give, either-State, chain-Kept, Text, text_eq, nat_eq, ◌==◌, ℕ, ◌≡◌, ◌∙◌, ◌||◌, not, Option,
  none, some,
}
use homemagic.Actor.{Actor}
use homemagic.Command.{CommandAggregate, dispatched, transition as change_state}
use homemagic.Policy.{PolicyDecision}
use homemagic.Service.Recovery.{is_unlock}
use homemagic.Service.Matter.{
  StoredMatterProjection, MatterDesiredCommandSlot, MatterDispatchWrite, MatterUnlockConsumption,
  consumed, invalid_dispatch_transition, MatterStores, some_or, attempt, fail_with,
}
use homemagic.Service.Matter.Registration.{projection_for}
use homemagic.Service.Matter.Registering.{MatterLaws, some_or-Kept, projection_for-Kept}
use homemagic.Service.Matter.Admission.{
  superseded_durable, dispatch_write, commit, commit_slot, commit_for, commit_dispatch, consume,
  authorize_until, expiry, authorize_owner, authorize_allowed, authorize_unlock,
}

module _ {W B X : Type 0} {stores : MatterStores W B} {handed : W → X}
    (laws : MatterLaws stores handed) (s : X) where
  abbrev Kept : W → Type 0
  Kept w = handed w ≡ s

  superseded_durable-Kept :
      (c : CommandAggregate) (w : W) → Kept w → Kept (superseded_durable stores c w).1
  unfolding superseded_durable
  superseded_durable-Kept c w h =
      chain-Kept Kept (some_or _ (stores.command c.envelope.id w)) _
        (some_or-Kept Kept _ (stores.command c.envelope.id w) (laws.command c.envelope.id w ∙ h))
        (λ _ _ i. i)

  dispatch_write-Kept :
      (c : CommandAggregate) (p : StoredMatterProjection) (now : ℕ) (w : W)
      → Kept w
      → Kept (dispatch_write stores c p now w).1
  unfolding dispatch_write
  dispatch_write-Kept c p now w h =
      chain-Kept Kept
        (attempt (λ _. stores.of_control invalid_dispatch_transition)
          (change_state c dispatched now) w)
        _ h (λ d w1 i. laws.new_audit_id w1 ∙ i)

  commit_for-Kept :
      (c : CommandAggregate) (now : ℕ) (p : Option StoredMatterProjection) (w : W)
      → Kept w
      → Kept (commit_for stores c now p w).1
  unfolding commit_for commit_slot commit
  commit_for-Kept c now none w h = h
  commit_for-Kept c now (some p) w h =
      chain-Kept Kept (some_or _ (stores.matter_desired_slot p.projection_id w)) _
        (some_or-Kept Kept _ (stores.matter_desired_slot p.projection_id w)
          (laws.matter_desired_slot p.projection_id w ∙ h))
        (λ slot w1 i.
          either-State Kept (not (slot.command_id == c.envelope.id)) (superseded_durable stores c) _
            w1 (λ _. superseded_durable-Kept c w1 i)
            (λ _.
              either-State Kept (is_unlock c.envelope.payload) (give _) (commit stores c p now) w1
                (λ _. i)
                (λ _.
                  chain-Kept Kept (dispatch_write stores c p now w1) _
                    (dispatch_write-Kept c p now w1 i)
                    (λ x w2 j.
                      chain-Kept Kept (stores.record_matter_dispatch x w2) _
                        (laws.record_matter_dispatch x w2 ∙ j) (λ _ _ k. k)))))

  pub commit_dispatch-Kept :
      (c : CommandAggregate) (now : ℕ) (w : W) → Kept w → Kept (commit_dispatch stores c now w).1
  unfolding commit_dispatch
  commit_dispatch-Kept c now w h =
      chain-Kept Kept (projection_for stores c w) _ (projection_for-Kept laws s c w h)
        (λ p w1 i. commit_for-Kept c now p w1 i)

  consume-Kept :
      (x : MatterDispatchWrite) (o : MatterUnlockConsumption) (w : W)
      → Kept w
      → Kept (consume stores x o w).1
  unfolding consume
  consume-Kept x consumed w h = h
  consume-Kept x _ w h = h

  authorize_until-Kept :
      (hash : Text) (a : Actor) (c : CommandAggregate) (p : StoredMatterProjection)
      (slot : MatterDesiredCommandSlot) (d : PolicyDecision) (now expires : ℕ) (w : W)
      → Kept w
      → Kept (authorize_until stores hash a c p slot d now expires w).1
  unfolding authorize_until
  authorize_until-Kept hash a c p slot d now expires w h =
      let (id, w0) = stores.new_authorization_id w in
      chain-Kept Kept (stores.create_unlock_authorization _ w0) _
        (laws.create_unlock_authorization _ w0 ∙ laws.new_authorization_id w ∙ h)
        (λ _ w1 i.
          chain-Kept Kept (dispatch_write stores c p now w1) _ (dispatch_write-Kept c p now w1 i)
            (λ x w2 j.
              chain-Kept Kept (stores.authorize_and_record_unlock_dispatch id x w2) _
                (laws.authorize_and_record_unlock_dispatch id x w2 ∙ j) (consume-Kept x)))

  authorize_owner-Kept :
      (a : Actor) (c : CommandAggregate) (p : StoredMatterProjection)
      (slot : MatterDesiredCommandSlot) (d : PolicyDecision) (now : ℕ) (w : W)
      → Kept w
      → Kept (authorize_owner stores a c p slot d now w).1
  unfolding authorize_owner
  authorize_owner-Kept a c p slot d now w h =
      chain-Kept Kept (some_or _ (stores.command_request_hash c.envelope.id w)) _
        (some_or-Kept Kept _ (stores.command_request_hash c.envelope.id w)
          (laws.command_request_hash c.envelope.id w ∙ h))
        (λ hash w1 i.
          either-State Kept (leb (expiry stores c now) now) (fail_with _) _ w1 (λ _. i)
            (λ _. authorize_until-Kept hash a c p slot d now _ w1 i))

  pub authorize_unlock-Kept :
      (a : Actor) (c : CommandAggregate) (d : PolicyDecision) (now : ℕ) (w : W)
      → Kept w
      → Kept (authorize_unlock stores a c d now w).1
  unfolding authorize_unlock authorize_allowed
  authorize_unlock-Kept a c d now w h =
      either-State Kept (not d.allowed || not (is_unlock c.envelope.payload)) (fail_with _)
        (authorize_allowed stores a c d now) w (λ _. h)
        (λ _.
          chain-Kept Kept (some_or _ (projection_for stores c w)) _
            (some_or-Kept Kept _ (projection_for stores c w) (projection_for-Kept laws s c w h))
            (λ p w1 i.
              chain-Kept Kept (some_or _ (stores.matter_desired_slot p.projection_id w1)) _
                (some_or-Kept Kept _ (stores.matter_desired_slot p.projection_id w1)
                  (laws.matter_desired_slot p.projection_id w1 ∙ i))
                (λ slot w2 j.
                  either-State Kept (not (slot.command_id == c.envelope.id))
                    (superseded_durable stores c) _ w2 (λ _. superseded_durable-Kept c w2 j)
                    (λ _. authorize_owner-Kept a c p slot d now w2 j))))
