-- ===== src/Policy.antt =====
-- crates/homemagic-application/src/policy.rs, the deterministic default-deny command policy, with
-- its input and its decision from crates/homemagic-domain/src/command.rs.
mod Reasons
pub mod Covers
mod Collected
pub mod Permission
mod Explanation
mod Examples
use homemagic.Prelude.{
  ltb, nat_beq, if◌then◌else◌, filter, any, is_empty, ◌==◌, nat_eq, Text, text_eq, contains, ℕ,
  Bool, true, false, ◌&&◌, not, List, [], ◌∷◌,
}
use homemagic.Capability.{RiskClass, observe, comfort, mechanical, security, permits}
use homemagic.Actor.{
  ActorKind, user, Actor, CommandAction, approve_unlock, action_beq, GrantScope, installation,
  space, device, capability, ActorGrant,
}
use homemagic.Freshness.{FreshnessState, fresh}

pub data ConstraintState : Type 0 where
  available unavailable : ConstraintState

pub data CapacityState : Type 0 where
  available exhausted : CapacityState

pub record PolicyInput : Type 0 where
  pub actor : Actor
  pub action : CommandAction
  pub device_id : ℕ
  pub endpoint_id : Text
  pub schema : Text
  pub risk : RiskClass
  pub spaces : List ℕ
  pub freshness : FreshnessState
  pub constraint : ConstraintState
  pub rate_capacity : CapacityState
  pub device_capacity : CapacityState
  pub dry_run : Bool
  pub evaluated_at : ℕ

pub data PolicyReason : Type 0 where
  actor_disabled no_matching_grant risk_exceeds_grant mechanical_grant_required : PolicyReason
  security_exact_grant_required interactive_user_required state_not_fresh : PolicyReason
  constraint_unavailable rate_limit_exceeded device_concurrency_exceeded : PolicyReason
  allowed_by_grant : PolicyReason

-- The place of a reason in the declaration, by which the derived order compares.
abbrev pub reason_code : PolicyReason → ℕ
reason_code actor_disabled = 0
reason_code no_matching_grant = 1
reason_code risk_exceeds_grant = 2
reason_code mechanical_grant_required = 3
reason_code security_exact_grant_required = 4
reason_code interactive_user_required = 5
reason_code state_not_fresh = 6
reason_code constraint_unavailable = 7
reason_code rate_limit_exceeded = 8
reason_code device_concurrency_exceeded = 9
reason_code allowed_by_grant = 10

-- A `BTreeSet` of reasons is the list of its members in increasing order.
unfoldable pub insert : PolicyReason → List PolicyReason → List PolicyReason
insert r [] = r ∷ []
insert r (q ∷ qs) =
    let later = q ∷ insert r qs in
    if ltb (reason_code r) (reason_code q)
    then r ∷ q ∷ qs
    else if nat_beq (reason_code r) (reason_code q)
    then q ∷ qs
    else later

-- `if test { reasons.insert(reason); }`
unfoldable pub insert_if : Bool → PolicyReason → List PolicyReason → List PolicyReason
unfolding insert
insert_if test r reasons = if test then insert r reasons else reasons

pub record PolicyDecision : Type 0 where
  pub policy_version : ℕ
  pub allowed : Bool
  pub reasons : List PolicyReason
  pub evaluated_at : ℕ

abbrev pub policy_version : ℕ
policy_version = 1

-- scope_matches
unfoldable pub scope_matches : GrantScope → PolicyInput → Bool
scope_matches (installation installation_id) i = installation_id == i.actor.installation_id
scope_matches (space space_id) i = contains space_id i.spaces
scope_matches (device device_id) i = device_id == i.device_id
scope_matches (capability device_id endpoint_id schema) i =
    device_id == i.device_id && endpoint_id == i.endpoint_id && schema == i.schema

-- The filters that make `scoped`.
unfoldable pub in_scope : PolicyInput → ActorGrant → Bool
in_scope i g =
    g.actor_id == i.actor.id
    && g.enabled
    && any (λ a. action_beq a i.action) g.actions
    && scope_matches g.scope i

-- The test for an exact capability grant.
unfoldable pub is_exact : PolicyInput → GrantScope → Bool
is_exact i (capability device_id endpoint_id schema) =
    device_id == i.device_id && endpoint_id == i.endpoint_id && schema == i.schema
is_exact i (installation _) = false
is_exact i (space _) = false
is_exact i (device _) = false

abbrev pub is_fresh : FreshnessState → Bool
is_fresh fresh = true
is_fresh _ = false

abbrev pub is_available : ConstraintState → Bool
is_available ConstraintState.available = true
is_available unavailable = false

abbrev pub is_exhausted : CapacityState → Bool
is_exhausted CapacityState.available = false
is_exhausted exhausted = true

abbrev pub is_user : ActorKind → Bool
is_user user = true
is_user _ = false

-- The `match input.risk`.
unfoldable pub risk_reasons :
    PolicyInput → List ActorGrant → RiskClass → List PolicyReason → List PolicyReason
risk_reasons i risk_matched observe reasons = reasons
risk_reasons i risk_matched comfort reasons = reasons
risk_reasons i risk_matched mechanical reasons =
    insert_if (not (is_available i.constraint)) constraint_unavailable (
      insert_if (not (is_fresh i.freshness)) state_not_fresh
        (insert_if (is_empty risk_matched) mechanical_grant_required reasons))
risk_reasons i risk_matched security reasons =
    insert_if (not (any (λ g. is_exact i g.scope) risk_matched)) security_exact_grant_required
      reasons

-- The `if scoped.is_empty() … else if risk_matched.is_empty() …`.
unfoldable pub grant_reasons :
    List ActorGrant → List ActorGrant → List PolicyReason → List PolicyReason
grant_reasons scoped risk_matched reasons =
    if is_empty scoped
    then insert no_matching_grant reasons
    else if is_empty risk_matched
    then insert risk_exceeds_grant reasons
    else reasons

abbrev pub scoped_grants : PolicyInput → List ActorGrant → List ActorGrant
scoped_grants i grants = filter (in_scope i) grants

abbrev pub risk_matched_grants : PolicyInput → List ActorGrant → List ActorGrant
risk_matched_grants i grants = filter (λ g. permits g.maximum_risk i.risk) (scoped_grants i grants)

-- The reasons against the request, in the order in which `evaluate` collects them.
unfoldable pub denials : PolicyInput → List ActorGrant → List PolicyReason
denials i grants =
    let disabled = insert_if (not i.actor.enabled) actor_disabled [] in
    let interactive =
      insert_if (action_beq i.action approve_unlock && not (is_user i.actor.kind))
        interactive_user_required disabled in
    let granted =
      grant_reasons (scoped_grants i grants) (risk_matched_grants i grants) interactive in
    let risky = risk_reasons i (risk_matched_grants i grants) i.risk granted in
    let rated = insert_if (is_exhausted i.rate_capacity) rate_limit_exceeded risky in
    insert_if (is_exhausted i.device_capacity) device_concurrency_exceeded rated

-- PolicyEvaluator::evaluate
unfoldable pub evaluate : PolicyInput → List ActorGrant → PolicyDecision
evaluate i grants =
    let reasons = denials i grants in
    let allowed = is_empty reasons && not (is_empty (risk_matched_grants i grants)) in
    record {
      policy_version = policy_version;
      allowed = allowed;
      reasons = insert_if allowed allowed_by_grant reasons;
      evaluated_at = i.evaluated_at;
    }
