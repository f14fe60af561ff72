-- ===== src/Service/Runs.antt =====
-- The service in the house: a request that reverses the lamp, a recovery and an approved unlock.
use homemagic.Prelude.{◌↔◌, ℕ, ◌≡◌, refl, ok, some, [], ◌∷◌, false, Gives, lookup, ◌⊎◌, true}
use homemagic.Actor.{action_beq}
use homemagic.Capability.{schema, decimal, decimal_digits, is_blank, permits, new, rank}
use homemagic.Capability.Snapshot.{CapabilitySnapshot}
use homemagic.Command.{
  CommandAggregate, received, validated, receive, payload_schema, validate, validate_payload,
  allows_transition_to, is_terminal, is_terminal_state, transition as change_state,
}
use homemagic.Device.{DeviceRecord, freshness_at}
use homemagic.Freshness.{evaluate as evaluate_freshness, classify}
use homemagic.Lifecycle.{availability_state_beq}
use homemagic.Observation.{descriptor_beq}
use homemagic.Policy.{
  PolicyDecision, evaluate, denials, in_scope, scope_matches, is_exact, risk_reasons, grant_reasons,
  insert_if, insert,
}
use homemagic.Service.{
  audit as audit_entry, store, transition, reject, timeout, settle, confirm, acknowledge_in_time,
  acknowledge, answer, dispatch_committed,
}
use homemagic.Service.Approval.{Pending, Unlockable, approve_unlock-AtMostOne}
use homemagic.Service.Boundary.{committed, load_device, load_security, publish}
use homemagic.Service.Clearance.{Approved}
use homemagic.Service.Dispatching.{ControlLaws}
use homemagic.Service.Entry.{
  check_hash, hex, chosen_descriptor, hash_encoded, canonical_hash, envelope_of, continue_created,
  create, execute, cancel,
}
use homemagic.Service.Execution.{AtMostOne, Requested, execute-AtMostOne}
use homemagic.Service.HandedOver.{HandedOver, recover-HandedOver}
use homemagic.Service.Valid.{ValidTarget, validate_target-ValidTarget}
use homemagic.Service.Household.{
  lamp, resident, reverse_lamp, switch_off, open_door, lock_door, in_state, page,
}
use homemagic.Service.House.{at, given, lock_stores, house, lock_laws, house_laws}
use homemagic.Service.Matter.{is_replaceable}
use homemagic.Service.Matter.Registration.{
  projection_for, register_for, register_once, register_attempts, register_desired,
}
use homemagic.Service.Matter.Admission.{
  dispatch_write, commit_for, commit_dispatch, consume, authorization, authorize_until,
  authorize_owner, authorize_allowed, authorize_unlock, matter_control, commit, commit_slot,
}
use homemagic.Service.Matter.Committed.{
  sent_out, Commits, HasSlot, Recorded, commit_dispatch-Commits,
}
use homemagic.Service.Matter.Unlocking.{Authorized}
use homemagic.Service.Matter.Contract.{authorize_unlock-Commits, matter_control-ControlLaws}
use homemagic.Service.Ownership.{Owned, withdrawn, cancel-Owned}
use homemagic.Service.Recovery.{
  is_unlock, approval_input, redecide, resume_validated, in_time_or, recover_in, recover_one,
  recover_each, recover, follow_approval, authorize_approved, approve_on, approve_pending,
  approve_found, approve_unlock,
}
use homemagic.Service.Request.{
  policy_input, dispatch_directly, dispatch_admitted, publish_superseded, follow_admission,
  dispatch_controlled, dispatch, decide, authorize, continue_validated, continue_received, admit,
}
use homemagic.Service.Target.{
  requested_name, requested_descriptor, effective_payload, constraint_state, validate_target,
}

-- The lamp is on, so that it is switched off.
execute_reverses : given (execute house (resident 7) reverse_lamp 12 (at 12)).1 ≡ switch_off ∷ []
unfolding execute load_device requested_descriptor requested_name new is_blank envelope_of
    chosen_descriptor effective_payload freshness_at evaluate_freshness classify
    availability_state_beq schema decimal decimal_digits payload_schema receive create
    canonical_hash hash_encoded check_hash hex continue_created audit_entry publish
    continue_received continue_validated validate_target validate validate_payload constraint_state
    lookup descriptor_beq authorize load_security decide policy_input evaluate denials in_scope
    scope_matches is_exact risk_reasons grant_reasons insert_if insert action_beq permits admit
    transition change_state allows_transition_to store dispatch dispatch_controlled matter_control
    register_desired register_attempts register_once register_for projection_for is_replaceable
    publish_superseded commit_dispatch commit_for follow_admission dispatch_directly
    dispatch_committed answer acknowledge acknowledge_in_time confirm settle timeout reject rank
execute_reverses = refl

execute-AtMostOne_example :
    AtMostOne given
      (λ c.
        (device : DeviceRecord (CapabilitySnapshot ℕ) ℕ) × Requested house
          (resident 7)
          reverse_lamp
          12
          device
          c
        × Approved house 7 12 device c)
      []
      (execute house (resident 7) reverse_lamp 12 (at 12)).1
execute-AtMostOne_example = execute-AtMostOne house_laws (resident 7) reverse_lamp 12 (at 12)

-- The validated command is dispatched, and the dispatched one only confirmed.
recover_dispatches : given (recover house 20 (at 20)).1 ≡ switch_off ∷ []
unfolding recover recover_each recover_one recover_in in_time_or resume_validated load_device
    load_security redecide freshness_at evaluate_freshness classify availability_state_beq
    constraint_state schema decimal decimal_digits policy_input evaluate denials in_scope
    scope_matches is_exact risk_reasons grant_reasons insert_if insert action_beq permits transition
    change_state allows_transition_to store audit_entry dispatch dispatch_controlled matter_control
    register_desired register_attempts register_once register_for projection_for is_replaceable
    publish_superseded commit_dispatch commit_for follow_admission dispatch_directly
    dispatch_committed answer acknowledge acknowledge_in_time confirm settle timeout reject rank
recover_dispatches = refl

recover-HandedOver_example : HandedOver house 20 page [] (given (recover house 20 (at 20)).1)
unfolding is_terminal is_terminal_state
recover-HandedOver_example = recover-HandedOver house_laws 20 (at 20) page refl (refl, (refl, tt))

approve_opens : given (approve_unlock house (resident 8) 30 14 (at 14)).1 ≡ open_door ∷ []
unfolding approve_unlock approve_found approve_pending load_security load_device approve_on
    freshness_at evaluate_freshness classify availability_state_beq schema decimal decimal_digits
    approval_input evaluate denials in_scope scope_matches is_exact risk_reasons grant_reasons
    insert_if insert action_beq permits authorize_approved matter_control authorize_unlock
    authorize_allowed projection_for is_replaceable authorize_owner authorize_until authorization
    dispatch_write change_state allows_transition_to audit_entry consume follow_approval
    dispatch_admitted publish dispatch_committed answer acknowledge acknowledge_in_time confirm
    settle timeout transition store rank
approve_opens = refl

approve_unlock-AtMostOne_example :
    AtMostOne given
      (λ c.
        ((house.stores.command 30 (at 14)).0 ≡ ok (some c))
        × Pending 14 c
        × Unlockable house 8 14 c)
      []
      (approve_unlock house (resident 8) 30 14 (at 14)).1
approve_unlock-AtMostOne_example = approve_unlock-AtMostOne house_laws (resident 8) 30 14 (at 14)

cancel-Owned_example :
    Gives
      (λ d.
        (c : CommandAggregate) × Owned house 7 30 c
        × ((c.state ≡ received) ⊎ (c.state ≡ validated))
        × (is_terminal c ≡ false)
        × (d ≡ withdrawn c 15))
      (cancel house 7 30 15 (at 15))
cancel-Owned_example = cancel-Owned house 7 30 15 (at 15)

abbrev locking : CommandAggregate
locking = in_state lock_door validated

-- The door is locked without an approval: the command has the slot and is no unlock.
commit_dispatch_commits : commit_dispatch lock_stores locking 14 (at 14) ≡ (
  ok (committed (sent_out locking 14) (audit_entry 14 (sent_out locking 14) (some validated))),
  at 14,
)
unfolding commit_dispatch commit_for commit_slot commit projection_for schema decimal decimal_digits
    is_replaceable dispatch_write change_state allows_transition_to audit_entry
commit_dispatch_commits = refl

commit_dispatch-Commits_example :
    Gives
      (Commits locking 14 (λ entry.
        (p : ℕ) × HasSlot lock_stores locking p
        × (is_unlock lock_door.payload ≡ false)
        × Recorded lock_stores locking 14 p entry))
      (commit_dispatch lock_stores locking 14 (at 14))
commit_dispatch-Commits_example = commit_dispatch-Commits lock_stores locking 14 (at 14)

abbrev opening : CommandAggregate
opening = in_state open_door validated

abbrev approved : PolicyDecision
approved = record { policy_version = 1; allowed = true; reasons = []; evaluated_at = 14 }

-- The door is opened with the approval of a resident.
authorize_unlock_commits :
    (authorize_unlock lock_stores (resident 8) opening approved 14 (at 14)).0
    ≡ ok (committed (sent_out opening 14) (audit_entry 14 (sent_out opening 14) (some validated)))
unfolding authorize_unlock authorize_allowed authorize_owner authorize_until authorization consume
    projection_for schema decimal decimal_digits is_replaceable dispatch_write change_state
    allows_transition_to audit_entry
authorize_unlock_commits = refl

authorize_unlock-Commits_example :
    Gives
      (Commits opening 14 (λ entry.
        (p : ℕ) × HasSlot lock_stores opening p
        × (approved.allowed ≡ true)
        × (is_unlock open_door.payload ≡ true)
        × Authorized lock_stores (resident 8) opening 14 p entry))
      (authorize_unlock lock_stores (resident 8) opening approved 14 (at 14))
authorize_unlock-Commits_example =
    authorize_unlock-Commits lock_stores (resident 8) opening approved 14 (at 14)

matter_control-ControlLaws_example : ControlLaws (matter_control lock_stores) given
matter_control-ControlLaws_example = matter_control-ControlLaws lock_laws

validate_target-ValidTarget_example :
    (validate_target (in_state switch_off received) lamp 12 ≡ ok tt)
    ↔ ValidTarget (in_state switch_off received) lamp 12
validate_target-ValidTarget_example =
    validate_target-ValidTarget (in_state switch_off received) lamp 12
