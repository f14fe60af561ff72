-- ===== src/Service/Matter/Registering.antt =====
-- A registration leaves a measure of the state alone, such as what was handed to the adapter, if the
-- stores do.
use homemagic.Prelude.{
  Result, ok, err, give, either-State, chain-Kept, Text, text_eq, nat_eq, ◌==◌, ℕ, zero, suc, ◌≡◌,
  ◌∙◌, not, Option, none, some, Call,
}
use homemagic.Command.{CommandAggregate, cancelled, transition as change_state}
use homemagic.Matter.State.{new_revision}
use homemagic.Service.Boundary.{DesiredStateRegistration}
use homemagic.Service.Matter.{
  StoredMatterProjection, MatterDesiredCommandSlot, MatterDesiredStateWrite, MatterDispatchWrite,
  MatterUnlockAuthorization, MatterStores, is_replaceable, some_or, attempt, revision_exhausted,
  prior_command_not_cancellable, unsupported_desired_state, desired_value,
  advance_matter_desired_state,
}
use homemagic.Service.Matter.Registration.{
  projection_for, desired_state, cancel_prior, supersede_slot, supersede, advance, register_slot,
  register_for, register_once, or_retry, register_attempts, checked_suc, next_revision, or_missing,
  superseded_prior,
}

-- The calls of the control leave a measure of the state alone.
pub record MatterLaws {W B X : Type 0} (stores : MatterStores W B) (handed : W → X) : Type 0 where
  pub matter_projection_for_target :
      (d : ℕ) (e c : Text) (w : W)
      → handed (stores.matter_projection_for_target d e c w).1 ≡ handed w
  pub matter_desired_slot : (p : ℕ) (w : W) → handed (stores.matter_desired_slot p w).1 ≡ handed w
  pub replace_matter_desired_state :
      (x : MatterDesiredStateWrite) (w : W)
      → handed (stores.replace_matter_desired_state x w).1 ≡ handed w
  pub record_matter_dispatch :
      (x : MatterDispatchWrite) (w : W) → handed (stores.record_matter_dispatch x w).1 ≡ handed w
  pub create_unlock_authorization :
      (x : MatterUnlockAuthorization) (w : W)
      → handed (stores.create_unlock_authorization x w).1 ≡ handed w
  pub authorize_and_record_unlock_dispatch :
      (i : ℕ) (x : MatterDispatchWrite) (w : W)
      → handed (stores.authorize_and_record_unlock_dispatch i x w).1 ≡ handed w
  pub command : (c : ℕ) (w : W) → handed (stores.command c w).1 ≡ handed w
  pub command_request_hash : (c : ℕ) (w : W) → handed (stores.command_request_hash c w).1 ≡ handed w
  pub new_audit_id : (w : W) → handed (stores.new_audit_id w).1 ≡ handed w
  pub new_authorization_id : (w : W) → handed (stores.new_authorization_id w).1 ≡ handed w

module _ {W B A : Type 0} where
  pub some_or-Kept :
      (I : W → Type 0) (missing : B) (r : Result (Option A) B × W) → I r.1 → I (some_or missing r).1
  some_or-Kept I missing (ok (some a), w) i = i
  some_or-Kept I missing (ok none, w) i = i
  some_or-Kept I missing (err e, w) i = i

module _ {W B X : Type 0} {stores : MatterStores W B} {handed : W → X}
    (laws : MatterLaws stores handed) (s : X) where
  abbrev pub Kept : W → Type 0
  Kept w = handed w ≡ s

  pub projection_for-Kept :
      (c : CommandAggregate) (w : W) → Kept w → Kept (projection_for stores c w).1
  unfolding projection_for
  projection_for-Kept c w h =
      either-State Kept (not (is_replaceable c.envelope.payload)) (give none) _ w (λ _. h)
        (λ _. laws.matter_projection_for_target _ _ _ w ∙ h)

  cancel_prior-Kept :
      (slot : MatterDesiredCommandSlot) (now : ℕ) (w : W)
      → Kept w
      → Kept (cancel_prior stores slot now w).1
  unfolding cancel_prior
  cancel_prior-Kept slot now w h =
      chain-Kept Kept (some_or _ (stores.command slot.command_id w)) _
        (some_or-Kept Kept _ (stores.command slot.command_id w)
          (laws.command slot.command_id w ∙ h))
        (λ prior w1 i.
          chain-Kept Kept
            (attempt (λ _. stores.of_control prior_command_not_cancellable)
              (change_state (superseded_prior prior) cancelled now) w1)
            _ i (λ x w2 j. laws.new_audit_id w2 ∙ j))

  supersede-Kept :
      (current : Option MatterDesiredCommandSlot) (now : ℕ) (w : W)
      → Kept w
      → Kept (supersede stores current now w).1
  unfolding supersede supersede_slot
  supersede-Kept none now w h = h
  supersede-Kept (some slot) now w h = by_dispatch slot.dispatched_at
    where
      by_dispatch : (at : Option ℕ) → Kept (supersede_slot stores at slot now w).1
      by_dispatch none = cancel_prior-Kept slot now w h
      by_dispatch (some at) = h

  desired_state-Kept :
      (n : ℕ) (c : CommandAggregate) (now : ℕ) (w : W)
      → Kept w
      → Kept (desired_state stores n c now w).1
  unfolding desired_state
  desired_state-Kept n c now w h =
      chain-Kept Kept (attempt stores.of_state (new_revision n) w) _ h (λ r w1 i.
        chain-Kept Kept
          (attempt stores.of_control
            (or_missing unsupported_desired_state (desired_value c.envelope.payload)) w1)
          _ i (λ v w2 j. j))

  advance-Kept :
      (c : CommandAggregate) (now : ℕ) (p : StoredMatterProjection)
      (current : Option MatterDesiredCommandSlot) (w : W)
      → Kept w
      → Kept (advance stores c now p current w).1
  unfolding advance
  advance-Kept c now p current w h =
      chain-Kept Kept
        (attempt stores.of_control (or_missing revision_exhausted (next_revision current)) w) _ h
        (λ n w1 i1.
          chain-Kept Kept (desired_state stores n c now w1) _ (desired_state-Kept n c now w1 i1)
            (λ d w2 i2.
              chain-Kept Kept (attempt stores.of_state (advance_matter_desired_state p.state d) w2)
                _ i2
                (λ state w3 i3.
                  chain-Kept Kept
                    (attempt stores.of_control
                      (or_missing revision_exhausted (checked_suc p.revision)) w3)
                    _ i3
                    (λ r w4 i4.
                      chain-Kept Kept (supersede stores current now w4) _
                        (supersede-Kept current now w4 i4)
                        (λ older w5 i5.
                          chain-Kept Kept (stores.replace_matter_desired_state _ w5) _
                            (laws.replace_matter_desired_state _ w5 ∙ i5) (λ _ w6 i6. i6))))))

  register_once-Kept :
      (c : CommandAggregate) (now : ℕ) (w : W) → Kept w → Kept (register_once stores c now w).1
  unfolding register_once register_slot register_for
  register_once-Kept c now w h =
      chain-Kept Kept (projection_for stores c w) _ (projection_for-Kept c w h) registered
    where
      registered_slot :
          (p : StoredMatterProjection) (current : Option MatterDesiredCommandSlot) (w1 : W)
          → Kept w1
          → Kept (register_slot stores c now p current w1).1
      registered_slot p none w1 i = advance-Kept c now p none w1 i
      registered_slot p (some slot) w1 i =
          either-State Kept (slot.command_id == c.envelope.id) (give _)
            (advance stores c now p (some slot)) w1 (λ _. i)
            (λ _. advance-Kept c now p (some slot) w1 i)

      registered :
          (p : Option StoredMatterProjection) (w1 : W)
          → Kept w1
          → Kept (register_for stores c now p w1).1
      registered none w1 i = i
      registered (some p) w1 i =
          chain-Kept Kept (stores.matter_desired_slot p.projection_id w1) _
            (laws.matter_desired_slot p.projection_id w1 ∙ i) (registered_slot p)

  or_retry-Kept :
      (r : Result DesiredStateRegistration B × W) (retry : B → Call W B DesiredStateRegistration)
      → Kept r.1
      → ((e : B) (w : W) → Kept w → Kept (retry e w).1)
      → Kept (or_retry stores r retry).1
  or_retry-Kept (ok a, w) retry i go = i
  or_retry-Kept (err e, w) retry i go = go e w i

  pub register_attempts-Kept :
      (n : ℕ) (last : Option B) (c : CommandAggregate) (now : ℕ) (w : W)
      → Kept w
      → Kept (register_attempts stores n last c now w).1
  unfolding register_attempts
  register_attempts-Kept zero last c now w h = h
  register_attempts-Kept (suc n) last c now w h =
      or_retry-Kept (register_once stores c now w) (λ e. register_attempts stores n (some e) c now)
        (register_once-Kept c now w h) (λ e w1 i. register_attempts-Kept n (some e) c now w1 i)
