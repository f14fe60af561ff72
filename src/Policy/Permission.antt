-- ===== src/Policy/Permission.antt =====
-- What the policy permits, stated without the order in which the code tests it.
use homemagic.Prelude.{Bool-cases, ◌≡◌, refl, sym, ◌∙◌, ◌↔◌, inl, inr, true, ◌||◌, not, List, arith}
use homemagic.Actor.{
  ActorKind, user, CommandAction, approve_unlock, action_beq, ActorGrant, action_beq_iff,
}
use homemagic.Policy.{PolicyInput, is_user, evaluate}
use homemagic.Policy.Covers.{Permitted, any-covers}
use homemagic.Policy.Collected.{allowed-covers, tests_iff}

interactive_iff :
    (a : CommandAction) (k : ActorKind)
    → ((not (action_beq a approve_unlock) || is_user k) ≡ true) ↔ (a ≡ approve_unlock → k ≡ user)
interactive_iff a k = elim (Bool-cases (action_beq a approve_unlock)) [
  | inl e ↦
      rw e ((λ h _. ground arith), (λ f. ground (arith, f ((action_beq_iff a approve_unlock).0 e))))
  | inr e ↦ rw e ((λ h q. cc ((action_beq_iff a approve_unlock).1 q)), (λ f. refl))
]

-- The policy allows a request exactly when it is permitted: the actor is enabled, and a user if it
-- approves an unlock; some enabled grant of this actor names the action, covers the target and the
-- risk, and is one for exactly this capability if the risk is a security risk; at a mechanical risk
-- the state is fresh and the constraints are available; and neither the actor's rate nor the
-- device's slots are exhausted.
pub evaluate-Permitted :
    (i : PolicyInput) (grants : List ActorGrant)
    → ((evaluate i grants).allowed ≡ true) ↔ Permitted i grants
evaluate-Permitted i grants =
    let c = allowed-covers i grants in
    let a = any-covers i grants in
    let u = interactive_iff i.action i.actor.kind in
    (
      (λ h.
          let t = (tests_iff i grants).0 (sym c ∙ h) in
          record {
            actor_enabled = t.0;
            interactive = u.0 t.1;
            granted = a.0 t.2;
            observed = λ m. (t.3 m).0;
            constrained = λ m. (t.3 m).1;
            rate = t.4;
            slot = t.5;
          }),
      (λ p.
          c
          ∙ (tests_iff i grants).1 (
            p.actor_enabled,
            u.1 p.interactive,
            a.1 p.granted,
            (λ m. (p.observed m, p.constrained m)),
            p.rate,
            p.slot,
          )),
    )
