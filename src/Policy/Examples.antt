-- ===== src/Policy/Examples.antt =====
-- The policy at concrete inputs: an agent that locks a door by an exact grant.
use homemagic.Capability.{security, permits}
use homemagic.Actor.{Actor, agent, execute, capability, installation, ActorGrant, action_beq}
use homemagic.Freshness.{fresh}
use homemagic.Prelude.{is_empty, text, ◌≡◌, refl, ◌↔◌, true, false, [], ◌∷◌}
use homemagic.Policy.{
  ConstraintState, CapacityState, PolicyInput, security_exact_grant_required, allowed_by_grant,
  insert_if, scope_matches, in_scope, is_exact, risk_reasons, grant_reasons, denials, evaluate,
}
use homemagic.Policy.Covers.{Permitted}
use homemagic.Policy.Permission.{evaluate-Permitted}
use homemagic.Policy.Explanation.{only_denials, evaluate_explains, evaluate_more_grants}

abbrev butler : Actor
butler = record {
  id = 7;
  installation_id = 1;
  kind = agent;
  name = text "Butler";
  enabled = true;
  created_at = 0;
}

abbrev lock_request : PolicyInput
lock_request = record {
  actor = butler;
  action = execute;
  device_id = 20;
  endpoint_id = text "main";
  schema = text "access_control.v1";
  risk = security;
  spaces = [];
  freshness = fresh;
  constraint = ConstraintState.available;
  rate_capacity = CapacityState.available;
  device_capacity = CapacityState.available;
  dry_run = false;
  evaluated_at = 100;
}

abbrev exact_grant : ActorGrant
exact_grant = record {
  id = 50;
  actor_id = 7;
  actions = execute ∷ [];
  scope = capability 20 (text "main") (text "access_control.v1");
  maximum_risk = security;
  enabled = true;
}

abbrev broad_grant : ActorGrant
broad_grant = record exact_grant { scope = installation 1 }

abbrev IsAllowed : Type 0
IsAllowed = (evaluate lock_request (exact_grant ∷ [])).allowed ≡ true

allowed_lem : IsAllowed
unfolding evaluate denials in_scope scope_matches is_exact grant_reasons risk_reasons insert_if
    action_beq permits
allowed_lem = refl

-- A broad grant does not do for a security risk.
refused : (evaluate lock_request (broad_grant ∷ [])).reasons ≡ security_exact_grant_required ∷ []
unfolding evaluate denials in_scope scope_matches is_exact grant_reasons risk_reasons insert_if
    action_beq permits
refused = refl

evaluate-Permitted_example :
    ((evaluate lock_request (exact_grant ∷ [])).allowed ≡ true)
    ↔ Permitted lock_request (exact_grant ∷ [])
evaluate-Permitted_example = evaluate-Permitted lock_request (exact_grant ∷ [])

evaluate_explains_example :
    let d = evaluate lock_request (exact_grant ∷ []) in
    (d.allowed ≡ true → d.reasons ≡ allowed_by_grant ∷ [])
    × (d.allowed ≡ false → (is_empty d.reasons ≡ false) × (only_denials d.reasons ≡ true))
evaluate_explains_example = evaluate_explains lock_request (exact_grant ∷ [])

evaluate_more_grants_example :
    (evaluate lock_request (exact_grant ∷ broad_grant ∷ [])).allowed ≡ true
evaluate_more_grants_example =
    evaluate_more_grants lock_request (exact_grant ∷ []) (broad_grant ∷ []) allowed_lem
