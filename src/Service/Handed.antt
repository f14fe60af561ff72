-- ===== src/Service/Handed.antt =====
-- What the service hands to the adapter, as a list that the state of the outside world keeps: the
-- calls that leave it alone.
use homemagic.Prelude.{ℕ, ◌≡◌, ◌∙◌, List, ◌∷◌, Option}
use homemagic.Command.{CommandEnvelope, CommandAggregate, CommandState, CommandErrorCode}
use homemagic.Policy.{PolicyDecision}
use homemagic.Service.Kept.{
  ServicesKeep, transition-Kept, reject-Kept, timeout-Kept, confirm-Kept, answer-Kept,
}
use homemagic.Service.{
  CommandAuditRecord, Services, transition, reject, timeout, confirm, dispatch_committed,
}

-- Of the services, only the adapter's dispatch hands an envelope to the adapter.
pub record ServicesLaws {W B : Type 0} (services : Services W B) (handed : W → List CommandEnvelope)
    : Type 0 where
  pub transition_command :
      (c : CommandAggregate) (v : ℕ) (a : CommandAuditRecord) (w : W)
      → handed (services.transition_command c v a w).1 ≡ handed w
  pub publish : (a : CommandAuditRecord) (w : W) → handed (services.publish a w).1 ≡ handed w
  pub send : (e : CommandEnvelope) (w : W) → handed (services.send e w).1 ≡ e ∷ handed w
  pub observe : (c : CommandAggregate) (w : W) → handed (services.observe c w).1 ≡ handed w
  pub now : (w : W) → handed (services.now w).1 ≡ handed w
  pub new_audit_id : (w : W) → handed (services.new_audit_id w).1 ≡ handed w

module _ {W B : Type 0} {services : Services W B} {handed : W → List CommandEnvelope}
    (laws : ServicesLaws services handed) where
  -- The list is s.
  abbrev pub Still : List CommandEnvelope → W → Type 0
  Still s w = handed w ≡ s

  still : (s : List CommandEnvelope) → ServicesKeep services (Still s)
  still s = record {
    transition_command = λ c v a w h. laws.transition_command c v a w ∙ h;
    publish = λ a w h. laws.publish a w ∙ h;
    observe = λ c w h. laws.observe c w ∙ h;
    now = λ w h. laws.now w ∙ h;
    new_audit_id = λ w h. laws.new_audit_id w ∙ h;
  }

  pub transition-Still :
      {s : List CommandEnvelope} (c : CommandAggregate) (next : CommandState) (now : ℕ) (w : W)
      → Still s w
      → Still s (transition services c next now w).1
  transition-Still {s} = transition-Kept (still s)

  pub reject-Still :
      {s : List CommandEnvelope} (c : CommandAggregate) (code : CommandErrorCode) (now : ℕ)
      (policy : Option PolicyDecision) (w : W)
      → Still s w
      → Still s (reject services c code now policy w).1
  reject-Still {s} = reject-Kept (still s)

  pub timeout-Still :
      {s : List CommandEnvelope} (c : CommandAggregate) (now : ℕ) (w : W)
      → Still s w
      → Still s (timeout services c now w).1
  timeout-Still {s} = timeout-Kept (still s)

  pub confirm-Still :
      {s : List CommandEnvelope} (c : CommandAggregate) (now : ℕ) (w : W)
      → Still s w
      → Still s (confirm services c now w).1
  confirm-Still {s} = confirm-Kept (still s)

  -- A dispatch hands the envelope of its command over once.
  pub dispatch_committed-once :
      (c : CommandAggregate) (w : W)
      → handed (dispatch_committed services c w).1 ≡ c.envelope ∷ handed w
  unfolding dispatch_committed
  dispatch_committed-once c w =
      let (r, w1) = services.send c.envelope w in
      answer-Kept (still _) c r w1 (laws.send c.envelope w)
