-- ===== src/Service/Kept.antt =====
-- A property of the state that the calls of the services keep, but for the dispatch of the adapter, is
-- kept by what the service does before and after that dispatch.
use homemagic.Prelude.{
  await-State, ℕ, some, leb, Result, ok, err, give, chain-State, either-State, Option, none,
}
use homemagic.Command.{
  CommandAggregate, CommandState, CommandErrorCode, CommandFailure, AdapterAcknowledgement,
  acknowledged, failed, transition as change_state,
}
use homemagic.Policy.{PolicyDecision}
use homemagic.Service.{
  audit, CommandAuditRecord, Services, repository, audit_publication, store, transition,
  CommandConfirmationOutcome, confirmed_by, pending, failed_by, reject, timeout, settle, confirm,
  acknowledge_in_time, acknowledge, fail, answer,
}

pub record ServicesKeep {W B : Type 0} (services : Services W B) (I : W → Type 0) : Type 0 where
  pub transition_command :
      (c : CommandAggregate) (v : ℕ) (a : CommandAuditRecord) (w : W)
      → I w
      → I (services.transition_command c v a w).1
  pub publish : (a : CommandAuditRecord) (w : W) → I w → I (services.publish a w).1
  pub observe : (c : CommandAggregate) (w : W) → I w → I (services.observe c w).1
  pub now : (w : W) → I w → I (services.now w).1
  pub new_audit_id : (w : W) → I w → I (services.new_audit_id w).1

module _ {W B : Type 0} {services : Services W B} {I : W → Type 0}
    (laws : ServicesKeep services I) where
  store-Kept : (c changed : CommandAggregate) (w : W) → I w → I (store services c changed w).1
  unfolding store
  store-Kept c changed w h =
      let (id, w1) = services.new_audit_id w in
      let entry = audit id changed (some c.state) in
      await-State I I repository (services.transition_command changed c.version entry w1) _
        (laws.transition_command changed c.version entry w1 (laws.new_audit_id w h)) (λ _ i. i)
        (λ _ w2 _ i.
          await-State I I audit_publication (services.publish entry w2) _ (laws.publish entry w2 i)
            (λ _ j. j) (λ _ _ _ j. j))

  pub transition-Kept :
      (c : CommandAggregate) (next : CommandState) (now : ℕ) (w : W)
      → I w
      → I (transition services c next now w).1
  unfolding transition
  transition-Kept c next now w h =
      await-State I I _ (change_state c next now, w) _ h (λ _ i. i)
        (λ changed w1 _ i. store-Kept c changed w1 i)

  pub reject-Kept :
      (c : CommandAggregate) (code : CommandErrorCode) (now : ℕ) (policy : Option PolicyDecision)
      (w : W)
      → I w
      → I (reject services c code now policy w).1
  unfolding reject
  reject-Kept c code now none w h = transition-Kept _ _ now w h
  reject-Kept c code now (some p) w h = transition-Kept _ _ now w h

  pub timeout-Kept : (c : CommandAggregate) (now : ℕ) (w : W) → I w → I (timeout services c now w).1
  unfolding timeout
  timeout-Kept c now w h = transition-Kept _ _ now w h

  settle-Kept :
      (c : CommandAggregate) (now : ℕ) (o : CommandConfirmationOutcome) (w : W)
      → I w
      → I (settle services c now o w).1
  unfolding settle
  settle-Kept c now (confirmed_by o) w h = transition-Kept _ _ now w h
  settle-Kept c now (failed_by f) w h = transition-Kept _ _ now w h
  settle-Kept c now pending w h =
      either-State I (leb c.envelope.deadline now) (timeout services c now) (give c) w
        (λ _. timeout-Kept c now w h) (λ _. h)

  pub confirm-Kept : (c : CommandAggregate) (now : ℕ) (w : W) → I w → I (confirm services c now w).1
  unfolding confirm
  confirm-Kept c now w h =
      await-State I I _ (services.observe c w) _ (laws.observe c w h) (λ _ i. i)
        (λ o w1 _ i. settle-Kept c now o w1 i)

  acknowledge_in_time-Kept :
      (c : CommandAggregate) (now : ℕ) (w : W) → I w → I (acknowledge_in_time services c now w).1
  unfolding acknowledge_in_time
  acknowledge_in_time-Kept c now w h =
      chain-State I I (transition services c acknowledged now w) _
        (transition-Kept c acknowledged now w h) (λ _ i. i)
        (λ d w1 _ i. confirm-Kept d _ _ (laws.now w1 i))

  pub answer-Kept :
      (c : CommandAggregate) (r : Result AdapterAcknowledgement CommandFailure) (w : W)
      → I w
      → I (answer services c r w).1
  unfolding answer acknowledge fail
  answer-Kept c (ok a) w h =
      let (now, w1) = services.now w in
      let c1 = record c { acknowledgement = some a } in
      either-State I (leb c.envelope.deadline now) (timeout services c1 now)
        (acknowledge_in_time services c1 now) w1 (λ _. timeout-Kept c1 now w1 (laws.now w h))
        (λ _. acknowledge_in_time-Kept c1 now w1 (laws.now w h))
  answer-Kept c (err f) w h = transition-Kept _ failed _ _ (laws.now w h)
