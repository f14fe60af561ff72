-- ===== src/Service/Dispatching.antt =====
-- What a dispatch hands to the adapter.
use homemagic.Prelude.{
  ok, Gives-result, await-Gives, Text, ℕ, ◌≡◌, ap, ◌∙◌, ◌⊎◌, inr, some, List, ◌∷◌, arith, leb,
  chain-State, await-State, either-State, refl, inl, false, Option, none, lift_error-State,
}
use homemagic.Command.{
  CommandEnvelope, CommandAggregate, CommandState, dispatched, transition as change_state,
}
use homemagic.Actor.{Actor}
use homemagic.Policy.{PolicyDecision}
use homemagic.Service.{
  audit, CommandAuditRecord, repository, Services, audit_publication, store, transition,
  dispatch_committed, timeout,
}
use homemagic.Service.Boundary.{
  Stores, committed, CommandDispatchControl, CommandService, publish, DesiredStateRegistration,
  managed, MatterDispatchAdmission, superseded, awaiting_unlock_authorization, ActorSecurity,
}
use homemagic.Service.Handed.{
  ServicesLaws, dispatch_committed-once, Still, transition-Still, timeout-Still,
}
use homemagic.Service.Request.{
  dispatch_directly, dispatch_admitted, publish_superseded, follow_admission, dispatch_controlled,
  dispatch,
}

-- The repositories, the limits and the identities hand nothing to the adapter, and what is stored of
-- an actor is found by its identity.
pub record StoresLaws {W B F J : Type 0} (stores : Stores W B F J)
    (handed : W → List CommandEnvelope) : Type 0 where
  pub load : (w : W) → handed (stores.load w).1 ≡ handed w
  pub actor_security : (a : ℕ) (w : W) → handed (stores.actor_security a w).1 ≡ handed w
  pub create_command :
      (c : CommandAggregate) (h : Text) (a : CommandAuditRecord) (w : W)
      → handed (stores.create_command c h a w).1 ≡ handed w
  pub command : (c : ℕ) (w : W) → handed (stores.command c w).1 ≡ handed w
  pub recoverable_commands : (n : ℕ) (w : W) → handed (stores.recoverable_commands n w).1 ≡ handed w
  pub try_acquire : (a d n : ℕ) (w : W) → handed (stores.try_acquire a d n w).1 ≡ handed w
  pub release : (d : ℕ) (w : W) → handed (stores.release d w) ≡ handed w
  pub new_command_id : (w : W) → handed (stores.new_command_id w).1 ≡ handed w
  pub same_actor :
      (a : ℕ) (w : W) (x : ActorSecurity)
      → (stores.actor_security a w).0 ≡ ok (some x)
      → x.actor.id ≡ a

-- A dispatch control hands nothing to the adapter either, and it commits the command it is given,
-- with its envelope.
pub record ControlLaws {W B : Type 0} (control : CommandDispatchControl W B)
    (handed : W → List CommandEnvelope) : Type 0 where
  pub register_desired :
      (c : CommandAggregate) (n : ℕ) (w : W) → handed (control.register_desired c n w).1 ≡ handed w
  pub commit_dispatch :
      (c : CommandAggregate) (n : ℕ) (w : W) → handed (control.commit_dispatch c n w).1 ≡ handed w
  pub authorize_unlock :
      (approver : Actor) (c : CommandAggregate) (p : PolicyDecision) (n : ℕ) (w : W)
      → handed (control.authorize_unlock approver c p n w).1 ≡ handed w
  pub committed_same :
      (c d : CommandAggregate) (a : CommandAuditRecord) (n : ℕ) (w : W)
      → (control.commit_dispatch c n w).0 ≡ ok (committed d a)
      → d.envelope ≡ c.envelope
  pub authorized_same :
      (approver : Actor) (c d : CommandAggregate) (p : PolicyDecision) (a : CommandAuditRecord)
      (n : ℕ) (w : W)
      → (control.authorize_unlock approver c p n w).0 ≡ ok (committed d a)
      → d.envelope ≡ c.envelope

pub record ServiceLaws {W B F J : Type 0} (service : CommandService W B F J)
    (handed : W → List CommandEnvelope) : Type 0 where
  pub services : ServicesLaws service.services handed
  pub stores : StoresLaws service.stores handed
  pub control :
      (c : CommandDispatchControl W B) → service.dispatch_control ≡ some c → ControlLaws c handed

change_state-envelope :
    (c d : CommandAggregate) (next : CommandState) (now : ℕ)
    → change_state c next now ≡ ok d
    → d.envelope ≡ c.envelope
unfolding change_state
change_state-envelope c d next now h = ground arith

module _ {W B : Type 0} (services : Services W B) where
  -- A stored transition keeps the envelope.
  pub transition-envelope :
      (c d : CommandAggregate) (next : CommandState) (now : ℕ) (w w1 : W)
      → transition services c next now w ≡ (ok d, w1)
      → d.envelope ≡ c.envelope
  unfolding transition store
  transition-envelope c d next now w w1 =
      let Same : CommandAggregate → Type 0 = λ x. x.envelope ≡ c.envelope in
      Gives-result Same (transition services c next now w) (
        await-Gives Same _ (change_state c next now, w) (store services c)
          (λ x w2 e.
            let (id, w3) = services.new_audit_id w2 in
            let entry = audit id x (some c.state) in
            await-Gives Same repository (services.transition_command x c.version entry w3) _
              (λ _ w4 _.
                await-Gives Same audit_publication (services.publish entry w4) _
                  (λ _ _ _. change_state-envelope c x next now (ap (λ z. z.0) e)))))

module _ {W : Type 0} (handed : W → List CommandEnvelope) where
  -- Nothing has been handed to the adapter beyond s, or only e, for the reason P.
  abbrev pub Outcome : CommandEnvelope → Type 0 → List CommandEnvelope → W → Type 0
  Outcome e P s w = (handed w ≡ s) ⊎ (P × (handed w ≡ e ∷ s))

module _ {W B F J : Type 0} {service : CommandService W B F J} {handed : W → List CommandEnvelope}
    (laws : ServiceLaws service handed) where
  publish_superseded-Still :
      {s : List CommandEnvelope} (r : DesiredStateRegistration) (w : W)
      → handed w ≡ s
      → handed (publish_superseded service r w).1 ≡ s
  unfolding publish_superseded publish
  publish_superseded-Still DesiredStateRegistration.unmanaged w h = h
  publish_superseded-Still (managed projection revision none) w h = h
  publish_superseded-Still {s} (managed projection revision (some entry)) w h =
      lift_error-State (Still laws.services s) audit_publication (service.services.publish entry w)
        (laws.services.publish entry w ∙ h)

module _ {W B F J : Type 0} {service : CommandService W B F J} {handed : W → List CommandEnvelope}
    (laws : ServiceLaws service handed) {e : CommandEnvelope} {P : Type 0}
    {s : List CommandEnvelope} where
  handed_over :
      (c : CommandAggregate) (w : W)
      → c.envelope ≡ e
      → P
      → handed w ≡ s
      → Outcome handed e P s (dispatch_committed service.services c w).1
  handed_over c w q p h =
      let tail : c.envelope ∷ handed w ≡ e ∷ s = λ i. q i ∷ h i in
      inr (p, dispatch_committed-once laws.services c w ∙ tail)

  dispatch_directly-Outcome :
      (c : CommandAggregate) (now : ℕ) (w : W)
      → c.envelope ≡ e
      → P
      → handed w ≡ s
      → Outcome handed e P s (dispatch_directly service c now w).1
  unfolding dispatch_directly
  dispatch_directly-Outcome c now w q p h =
      chain-State (Still laws.services s) (Outcome handed e P s)
        (transition service.services c dispatched now w) _
        (transition-Still laws.services c dispatched now w h) (λ _ i. inl i)
        (λ d w1 t i.
          handed_over d w1 (transition-envelope service.services c d dispatched now w w1 t ∙ q) p i)

  pub dispatch_admitted-Outcome :
      (c : CommandAggregate) (entry : CommandAuditRecord) (w : W)
      → c.envelope ≡ e
      → P
      → handed w ≡ s
      → Outcome handed e P s (dispatch_admitted service c entry w).1
  unfolding dispatch_admitted publish
  dispatch_admitted-Outcome c entry w q p h =
      await-State (Still laws.services s) (Outcome handed e P s) audit_publication
        (service.services.publish entry w) _ (laws.services.publish entry w ∙ h) (λ _ i. inl i)
        (λ _ w1 _ i. handed_over c w1 q p i)

  follow_admission-Outcome :
      (c : CommandAggregate) (now : ℕ) (m : MatterDispatchAdmission) (w : W)
      → c.envelope ≡ e
      → ((d : CommandAggregate) (a : CommandAuditRecord)
          → m ≡ committed d a
          → d.envelope ≡ c.envelope)
      → P
      → handed w ≡ s
      → Outcome handed e P s (follow_admission service c now m w).1
  unfolding follow_admission
  follow_admission-Outcome c now MatterDispatchAdmission.unmanaged w q same p h =
      dispatch_directly-Outcome c now w q p h
  follow_admission-Outcome c now (committed d a) w q same p h =
      dispatch_admitted-Outcome d a w (same d a refl ∙ q) p h
  follow_admission-Outcome c now (superseded d) w q same p h = inl h
  follow_admission-Outcome c now awaiting_unlock_authorization w q same p h = inl h

  dispatch_controlled-Outcome :
      (control : Option (CommandDispatchControl W B)) (c : CommandAggregate) (now : ℕ) (w : W)
      → ((x : CommandDispatchControl W B) → control ≡ some x → ControlLaws x handed)
      → c.envelope ≡ e
      → P
      → handed w ≡ s
      → Outcome handed e P s (dispatch_controlled service control c now w).1
  unfolding dispatch_controlled
  dispatch_controlled-Outcome none c now w ls q p h = dispatch_directly-Outcome c now w q p h
  dispatch_controlled-Outcome (some x) c now w ls q p h =
      let l = ls x refl in
      await-State (Still laws.services s) (Outcome handed e P s) repository
        (x.register_desired c now w) _ (l.register_desired c now w ∙ h) (λ _ i. inl i)
        (λ r w1 _ i.
          chain-State (Still laws.services s) (Outcome handed e P s)
            (publish_superseded service r w1) _ (publish_superseded-Still laws r w1 i)
            (λ _ j. inl j)
            (λ _ w2 _ j.
              await-State (Still laws.services s) (Outcome handed e P s) repository
                (x.commit_dispatch c now w2) _ (l.commit_dispatch c now w2 ∙ j) (λ _ k. inl k)
                (λ m w3 t k.
                  follow_admission-Outcome c now m w3 q
                    (λ d a g. l.committed_same c d a now w2 (ap (λ z. z.0) t ∙ ap ok g)) p k)))

  pub dispatch-Outcome :
      (c : CommandAggregate) (now : ℕ) (w : W)
      → c.envelope ≡ e
      → (leb c.envelope.deadline now ≡ false → P)
      → handed w ≡ s
      → Outcome handed e P s (dispatch service c now w).1
  unfolding dispatch
  dispatch-Outcome c now w q p h =
      either-State (Outcome handed e P s) (leb c.envelope.deadline now)
        (timeout service.services c now)
        (dispatch_controlled service service.dispatch_control c now) w
        (λ _. inl (timeout-Still laws.services c now w h))
        (λ late.
          dispatch_controlled-Outcome service.dispatch_control c now w laws.control q (p late) h)
