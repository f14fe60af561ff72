-- ===== src/Policy/Covers.antt =====
-- What it means that a grant covers a request, and the tests that decide it.
use homemagic.Prelude.{
  nat_beq_iff, any, Any, any_iff, Any-map, ◌==◌, nat_eq, text_beq_iff, text_eq, contains, ℕ, ◌≤◌,
  ◌≡◌, ◌↔◌, Bool, true, ◌&&◌, List, [], ◌∷◌, arith,
}
use homemagic.Capability.{RiskClass, observe, comfort, mechanical, security, permits, rank}
use homemagic.Actor.{
  user, CommandAction, approve_unlock, action_beq, GrantScope, installation, space, device,
  capability, ActorGrant, action_beq_iff,
}
use homemagic.Freshness.{fresh}
use homemagic.Policy.{
  ConstraintState, CapacityState, PolicyInput, scope_matches, in_scope, is_exact,
}

abbrev pub ScopeCovers : GrantScope → PolicyInput → Type 0
ScopeCovers (installation x) i = x ≡ i.actor.installation_id
ScopeCovers (space x) i = Any (λ s. s ≡ x) i.spaces
ScopeCovers (device x) i = x ≡ i.device_id
ScopeCovers (capability x y s) i = (x ≡ i.device_id) × (y ≡ i.endpoint_id) × (s ≡ i.schema)

-- A security risk wants a grant for exactly the endpoint and the schema.
abbrev pub ExactEnough : RiskClass → GrantScope → Type 0
ExactEnough security (capability x y s) = Unit {0}
ExactEnough security _ = ⊥
ExactEnough _ _ = Unit {0}

pub record Covers (i : PolicyInput) (g : ActorGrant) : Type 0 where
  pub holder : g.actor_id ≡ i.actor.id
  pub in_force : g.enabled ≡ true
  pub action : Any (λ a. a ≡ i.action) g.actions
  pub scope : ScopeCovers g.scope i
  pub risk : rank i.risk ≤ rank g.maximum_risk
  pub exact : ExactEnough i.risk g.scope

pub record Permitted (i : PolicyInput) (grants : List ActorGrant) : Type 0 where
  pub actor_enabled : i.actor.enabled ≡ true
  pub interactive : i.action ≡ approve_unlock → i.actor.kind ≡ user
  pub granted : Any (Covers i) grants
  pub observed : i.risk ≡ mechanical → i.freshness ≡ fresh
  pub constrained : i.risk ≡ mechanical → i.constraint ≡ ConstraintState.available
  pub rate : i.rate_capacity ≡ CapacityState.available
  pub slot : i.device_capacity ≡ CapacityState.available

abbrev pub exact_enough : PolicyInput → RiskClass → GrantScope → Bool
exact_enough i security s = is_exact i s
exact_enough i _ s = true

-- The test of `Covers`, put together from the tests of the code.
unfoldable pub covers : PolicyInput → ActorGrant → Bool
covers i g = in_scope i g && permits g.maximum_risk i.risk && exact_enough i i.risk g.scope

contains_iff : (x : ℕ) (xs : List ℕ) → (contains x xs ≡ true) ↔ Any (λ s. s ≡ x) xs
contains_iff x [] = ((λ e. absurd (cc)), (λ a. absurd a))
contains_iff x (y ∷ ys) = ground (arith, contains_iff x ys)

acts_iff :
    (a : CommandAction) (as' : List CommandAction)
    → (any (λ b. action_beq b a) as' ≡ true) ↔ Any (λ b. b ≡ a) as'
acts_iff a [] = ((λ e. absurd (cc)), (λ h. absurd h))
acts_iff a (b ∷ bs) = ground (arith, action_beq_iff b a, acts_iff a bs)

scope_matches_iff :
    (s : GrantScope) (i : PolicyInput) → (scope_matches s i ≡ true) ↔ ScopeCovers s i
unfolding scope_matches
scope_matches_iff (installation x) i = ground arith
scope_matches_iff (space x) i = contains_iff x i.spaces
scope_matches_iff (device x) i = ground arith
scope_matches_iff (capability x y s) i =
    ground (arith, text_beq_iff y i.endpoint_id, text_beq_iff s i.schema)

-- An exact scope is the capability scope that covers the target.
exact_enough_iff :
    (r : RiskClass) (s : GrantScope) (i : PolicyInput)
    → scope_matches s i ≡ true
    → (exact_enough i r s ≡ true) ↔ ExactEnough r s
unfolding scope_matches is_exact
exact_enough_iff observe s i h = ground arith
exact_enough_iff comfort s i h = ground arith
exact_enough_iff mechanical s i h = ground arith
exact_enough_iff security s i h = ground arith

permits_iff : (m r : RiskClass) → (permits m r ≡ true) ↔ (rank r ≤ rank m)
unfolding permits
permits_iff m r = ground arith

-- The parts of the test, as equations.
abbrev Passes : PolicyInput → ActorGrant → Type 0
Passes i g =
    ((g.actor_id == i.actor.id) ≡ true)
    × (g.enabled ≡ true)
    × (any (λ b. action_beq b i.action) g.actions ≡ true)
    × (scope_matches g.scope i ≡ true)
    × (permits g.maximum_risk i.risk ≡ true)
    × (exact_enough i i.risk g.scope ≡ true)

six :
    (a b c d e f : Bool)
    → (((a && b && c && d) && e && f) ≡ true)
      ↔ ((a ≡ true) × (b ≡ true) × (c ≡ true) × (d ≡ true) × (e ≡ true) × (f ≡ true))
six a b c d e f = ground arith

covers-Passes : (i : PolicyInput) (g : ActorGrant) → (covers i g ≡ true) ↔ Passes i g
unfolding covers in_scope
covers-Passes i g = six _ _ _ _ _ _

Passes-iff : (i : PolicyInput) (g : ActorGrant) → Passes i g ↔ Covers i g
Passes-iff i g = (
  (λ (a, b, c, d, e, f). record {
    holder = (nat_beq_iff _ _).0 a;
    in_force = b;
    action = (acts_iff i.action g.actions).0 c;
    scope = (scope_matches_iff g.scope i).0 d;
    risk = (permits_iff g.maximum_risk i.risk).0 e;
    exact = (exact_enough_iff i.risk g.scope i d).0 f;
  }),
  (λ h.
      let d = (scope_matches_iff g.scope i).1 h.scope in
      (
        (nat_beq_iff _ _).1 h.holder,
        h.in_force,
        (acts_iff i.action g.actions).1 h.action,
        d,
        (permits_iff g.maximum_risk i.risk).1 h.risk,
        (exact_enough_iff i.risk g.scope i d).1 h.exact,
      )),
)

covers_iff : (i : PolicyInput) (g : ActorGrant) → (covers i g ≡ true) ↔ Covers i g
covers_iff i g = (
  (λ e. (Passes-iff i g).0 ((covers-Passes i g).0 e)),
  (λ h. (covers-Passes i g).1 ((Passes-iff i g).1 h)),
)

pub any-covers :
    (i : PolicyInput) (gs : List ActorGrant) → (any (covers i) gs ≡ true) ↔ Any (Covers i) gs
any-covers i gs = (
  (λ e. Any-map gs (λ g. (covers_iff i g).0) ((any_iff (covers i) gs).0 e)),
  (λ a. (any_iff (covers i) gs).1 (Any-map gs (λ g. (covers_iff i g).1) a)),
)
