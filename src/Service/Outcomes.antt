-- ===== src/Service/Outcomes.antt =====
-- How the calls of the service end, whatever the services answer.
use homemagic.Command.{
  AdapterAcknowledgement, CommandFailure, CommandAggregate, CommandState, dispatched, acknowledged,
  confirmed, failed, timed_out, rejected, deadline_exceeded, CommandErrorCode, CommandEnvelope,
  allows_transition_to, saturating_suc, transition as change_state,
}
use homemagic.Policy.{PolicyDecision}
use homemagic.Prelude.{
  continue_with, lift_error, give, leb, if◌then◌else◌, sym, subst, Result, ok, err, ℕ, ◌≡◌, refl,
  ◌≢◌, true, none, some, Bool, false, Option,
}
use homemagic.Service.{
  CommandServiceError, invalid_transition, Services, Run, transition, repository, audit_publication,
  store, CommandConfirmationOutcome, confirmed_by, pending, failed_by, confirmation, timeout,
  settle, confirm, audit, acknowledge_in_time, acknowledge, fail, answer, dispatch_committed,
  reject,
}

-- An answer that is no report of an invalid transition, and that satisfies P if it is a result.
abbrev pub Gives : {A B : Type 0} → (A → Type 0) → Result A (CommandServiceError B) → Type 0
Gives P (ok a) = P a
Gives P (err e) = e ≢ invalid_transition

abbrev pub or_else : Option PolicyDecision → Option PolicyDecision → Option PolicyDecision
or_else none p = p
or_else (some q) p = some q

abbrev Anything : {A : Type 0} → A → Type 0
Anything a = Unit {0}

module _ {W B A C E : Type 0} where
  passes :
      (f : E → CommandServiceError B) (r : Result A E × W) (k : A → Run W B C) (P : C → Type 0)
      → ((e : E) → f e ≢ invalid_transition)
      → ((a : A) (w : W) → Gives P (k a w).0)
      → Gives P (continue_with (lift_error f r) k).0
  passes f (ok a, w) k P h g = g a w
  passes f (err e, w) k P h g = h e

module _ {W B A C : Type 0} where
  follows :
      (r : Result A (CommandServiceError B) × W) (k : A → Run W B C) (Q : A → Type 0)
      (P : C → Type 0)
      → Gives Q r.0
      → ((a : A) (w : W) → Q a → Gives P (k a w).0)
      → Gives P (continue_with r k).0
  follows (ok a, w) k Q P h g = g a w h
  follows (err e, w) k Q P h g = h

module _ {W B A : Type 0} where
  either :
      (b : Bool) (m n : Run W B A) (P : A → Type 0) (w : W)
      → Gives P (m w).0
      → Gives P (n w).0
      → Gives P ((if b then m else n) w).0
  either true m n P w h k = h
  either false m n P w h k = k

repository_other : {B : Type 0} (e : B) → repository e ≢ invalid_transition
repository_other e q = absurd (cc)

publication_other : {B : Type 0} (e : B) → audit_publication e ≢ invalid_transition
publication_other e q = absurd (cc)

confirmation_other : {B : Type 0} (e : B) → confirmation e ≢ invalid_transition
confirmation_other e q = absurd (cc)

-- What a command that ended in a state has on record.
abbrev pub Reason : CommandAggregate → CommandState → Type 0
Reason c acknowledged = c.acknowledgement ≢ none
Reason c confirmed = (c.acknowledgement ≢ none) × (c.confirmation ≢ none)
Reason c failed = c.failure ≢ none
Reason c timed_out = c.failure ≡ some (record { code = deadline_exceeded; detail = none })
Reason c _ = ⊥

abbrev pub Ended : CommandEnvelope → CommandAggregate → Type 0
Ended e c = (c.envelope ≡ e) × Reason c c.state

present : {A : Type 0} (a : A) → some a ≢ none
present a q = absurd (cc)

moved : CommandAggregate → CommandState → ℕ → CommandAggregate
moved c next now = record c { state = next; version = saturating_suc c.version; updated_at = now }

allowed :
    (c : CommandAggregate) (next : CommandState) (now : ℕ)
    → allows_transition_to c.state next ≡ true
    → change_state c next now ≡ ok (moved c next now)
unfolding change_state moved
allowed c next now h = rw h refl

module _ {W B : Type 0} (services : Services W B) where
  store-Gives :
      (c changed : CommandAggregate) (w : W) (P : CommandAggregate → Type 0)
      → P changed
      → Gives P (store services c changed w).0
  unfolding store
  store-Gives c changed w P k =
      let (id, w1) = services.new_audit_id w in
      let entry = audit id changed (some c.state) in
      passes repository (services.transition_command changed c.version entry w1)
        (λ _ w2.
          continue_with (lift_error audit_publication (services.publish entry w2))
            (λ _. give changed))
        P repository_other
        (λ _ w2.
          passes audit_publication (services.publish entry w2) (λ _. give changed) P
            publication_other (λ _ _. k))

  transition-Gives :
      (c : CommandAggregate) (next : CommandState) (now : ℕ) (w : W) (P : CommandAggregate → Type 0)
      → allows_transition_to c.state next ≡ true
      → P (moved c next now)
      → Gives P (transition services c next now w).0
  unfolding transition
  transition-Gives c next now w P h k =
      subst
        (λ r.
          Gives P
            (continue_with (lift_error (λ _. invalid_transition) (r, w)) (store services c)).0)
        (sym (allowed c next now h)) (store-Gives c (moved c next now) w P k)

  timeout-Ended :
      (c : CommandAggregate) (now : ℕ) (w : W)
      → allows_transition_to c.state timed_out ≡ true
      → Gives (Ended c.envelope) (timeout services c now w).0
  unfolding timeout moved
  timeout-Ended c now w h = transition-Gives _ timed_out now w (Ended c.envelope) h (refl, refl)

  settle-Ended :
      (c : CommandAggregate) (now : ℕ) (o : CommandConfirmationOutcome) (w : W)
      → c.state ≡ acknowledged
      → c.acknowledgement ≢ none
      → Gives (Ended c.envelope) (settle services c now o w).0
  unfolding settle moved allows_transition_to
  settle-Ended c now (confirmed_by o) w s a =
      transition-Gives _ confirmed now w (Ended c.envelope) (rw s refl) (refl, (a, present o))
  settle-Ended c now (failed_by f) w s a =
      transition-Gives _ failed now w (Ended c.envelope) (rw s refl) (refl, present f)
  settle-Ended c now pending w s a =
      let unchanged : Ended c.envelope c = (refl, subst (Reason c) (sym s) a) in
      either (leb c.envelope.deadline now) (timeout services c now) (give c) (Ended c.envelope) w
        (timeout-Ended c now w (rw s refl)) unchanged

  confirm-Ended :
      (c : CommandAggregate) (now : ℕ) (w : W)
      → c.state ≡ acknowledged
      → c.acknowledgement ≢ none
      → Gives (Ended c.envelope) (confirm services c now w).0
  unfolding confirm
  confirm-Ended c now w s a =
      passes confirmation (services.observe c w) (settle services c now) (Ended c.envelope)
        confirmation_other (λ o w'. settle-Ended c now o w' s a)

  acknowledge_in_time-Ended :
      (c : CommandAggregate) (now : ℕ) (w : W)
      → c.state ≡ dispatched
      → c.acknowledgement ≢ none
      → Gives (Ended c.envelope) (acknowledge_in_time services c now w).0
  unfolding acknowledge_in_time moved allows_transition_to
  acknowledge_in_time-Ended c now w s a =
      let Q : CommandAggregate → Type 0 =
        λ d. (d.state ≡ acknowledged) × (d.acknowledgement ≢ none) × (d.envelope ≡ c.envelope) in
      follows (transition services c acknowledged now w)
        (λ d w1. confirm services d (services.now w1).0 (services.now w1).1) Q (Ended c.envelope)
        (transition-Gives c acknowledged now w Q (rw s refl) (refl, a, refl))
        (λ d w1 (t, b, e).
          subst
            (λ x. Gives (Ended x) (confirm services d (services.now w1).0 (services.now w1).1).0) e
            (confirm-Ended d (services.now w1).0 (services.now w1).1 t b))

  acknowledge-Ended :
      (c : CommandAggregate) (a : AdapterAcknowledgement) (w : W)
      → c.state ≡ dispatched
      → Gives (Ended c.envelope) (acknowledge services c a w).0
  unfolding acknowledge allows_transition_to
  acknowledge-Ended c a w s =
      let (now, w1) = services.now w in
      let c1 = record c { acknowledgement = some a } in
      either (leb c.envelope.deadline now) (timeout services c1 now)
        (acknowledge_in_time services c1 now) (Ended c.envelope) w1
        (timeout-Ended c1 now w1 (rw s refl)) (acknowledge_in_time-Ended c1 now w1 s (present a))

  answer-Ended :
      (c : CommandAggregate) (r : Result AdapterAcknowledgement CommandFailure) (w : W)
      → c.state ≡ dispatched
      → Gives (Ended c.envelope) (answer services c r w).0
  unfolding answer fail moved allows_transition_to
  answer-Ended c (ok a) w s = acknowledge-Ended c a w s
  answer-Ended c (err f) w s =
      let (now, w1) = services.now w in
      transition-Gives _ failed now w1 (Ended c.envelope) (rw s refl) (refl, present f)

  -- Once a dispatched command is given to the adapter, and whatever the adapter, the store, the
  -- confirmation and the clock answer, the service never attempts a transition that the state
  -- machine refuses. A command that it returns has the same envelope and is acknowledged or
  -- confirmed, with the acknowledgement and the confirmation on record, or failed, with the failure
  -- on record, or timed out with the failure deadline_exceeded.
  pub dispatch_committed-Ended :
      (c : CommandAggregate) (w : W)
      → c.state ≡ dispatched
      → Gives (Ended c.envelope) (dispatch_committed services c w).0
  unfolding dispatch_committed
  dispatch_committed-Ended c w s = let (r, w1) = services.send c.envelope w in answer-Ended c r w1 s

  -- A command that is received or validated is rejected without attempting a transition that the
  -- state machine refuses; what is returned has the same envelope, the state rejected and the given
  -- code as its failure, and keeps its policy decision unless a new one is given.
  reject-Gives :
      (c : CommandAggregate) (code : CommandErrorCode) (now : ℕ) (policy : Option PolicyDecision)
      (w : W)
      → allows_transition_to c.state rejected ≡ true
      → Gives
          (λ d.
            (d.envelope ≡ c.envelope)
            × (d.state ≡ rejected)
            × (d.failure ≡ some (record { code = code; detail = none }))
            × (d.policy ≡ or_else policy c.policy))
          (reject services c code now policy w).0
  unfolding reject moved
  reject-Gives c code now none w h = transition-Gives _ rejected now w _ h (refl, refl, refl, refl)
  reject-Gives c code now (some p) w h =
      transition-Gives _ rejected now w _ h (refl, refl, refl, refl)
