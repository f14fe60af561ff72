-- ===== src/Policy/Collected.antt =====
-- The reasons that the evaluation collects, and one conjunction of tests.
use homemagic.Freshness.{FreshnessState, fresh}
use homemagic.Prelude.{
  filter, any, is_empty, is_empty-filter, any-filter, ◌≡◌, refl, sym, ap, ◌∙◌, Bool, true, false,
  ◌&&◌, ◌||◌, not, List, [], ◌∷◌, arith, ◌↔◌,
}
use homemagic.Capability.{RiskClass, observe, comfort, mechanical, security, permits}
use homemagic.Actor.{approve_unlock, action_beq, ActorGrant}
use homemagic.Policy.{
  ConstraintState, CapacityState, PolicyInput, PolicyReason, actor_disabled, no_matching_grant,
  risk_exceeds_grant, interactive_user_required, insert_if, in_scope, is_exact, is_fresh,
  is_available, is_exhausted, is_user, risk_reasons, grant_reasons, scoped_grants,
  risk_matched_grants, denials, evaluate,
}
use homemagic.Policy.Reasons.{is_empty-insert, is_empty-insert_if}
use homemagic.Policy.Covers.{exact_enough, covers}

-- The tests on the input alone.
abbrev pub sound_input : PolicyInput → RiskClass → Bool
sound_input i mechanical = is_fresh i.freshness && is_available i.constraint
sound_input i _ = true

-- What the grants that cover the risk must show.
abbrev sufficient : PolicyInput → RiskClass → List ActorGrant → Bool
sufficient i security risk_matched = any (λ g. is_exact i g.scope) risk_matched
sufficient i _ risk_matched = not (is_empty risk_matched)

not-not : (b : Bool) → not (not b) ≡ b
not-not b = ground arith

filter_of_empty {ℓ} :
    {A : Type ℓ} (p : A → Bool) (xs : List A) → is_empty xs ≡ true → is_empty (filter p xs) ≡ true
filter_of_empty p [] h = refl
filter_of_empty p (x ∷ xs) h = absurd (cc)

any_of_empty {ℓ} : {A : Type ℓ} (p : A → Bool) (xs : List A) → is_empty xs ≡ true → any p xs ≡ false
any_of_empty p [] h = refl
any_of_empty p (x ∷ xs) h = absurd (cc)

any-ext {ℓ} :
    {A : Type ℓ} (p q : A → Bool) (xs : List A) → ((x : A) → p x ≡ q x) → any p xs ≡ any q xs
any-ext p q [] h = refl
any-ext p q (x ∷ xs) h = ground (arith, h x, any-ext p q xs h)

abbrev covering : PolicyInput → RiskClass → ActorGrant → Bool
covering i r g = in_scope i g && (permits g.maximum_risk i.risk && exact_enough i r g.scope)

passing :
    (i : PolicyInput) (gs : List ActorGrant)
    → not (is_empty (risk_matched_grants i gs))
      ≡ any (λ g. in_scope i g && (permits g.maximum_risk i.risk && true)) gs
passing i gs =
    ap not (is_empty-filter _ (scoped_grants i gs) ∙ ap not (any-filter (in_scope i) _ gs))
    ∙ not-not _
    ∙ any-ext _ _ gs (λ g. ground arith)

-- The grants that the two filters leave suffice exactly when one grant passes every test.
any-covering :
    (i : PolicyInput) (r : RiskClass) (gs : List ActorGrant)
    → any (covering i r) gs ≡ sufficient i r (risk_matched_grants i gs)
any-covering i security gs = sym (
    any-filter (λ g. permits g.maximum_risk i.risk) (λ g. is_exact i g.scope) (scoped_grants i gs)
    ∙ any-filter (in_scope i) (λ g. permits g.maximum_risk i.risk && is_exact i g.scope) gs)
any-covering i observe gs = sym (passing i gs)
any-covering i comfort gs = sym (passing i gs)
any-covering i mechanical gs = sym (passing i gs)

covers_lem : (i : PolicyInput) (g : ActorGrant) → covers i g ≡ covering i i.risk g
unfolding covers
covers_lem i g = ground arith

any-covers-sufficient :
    (i : PolicyInput) (gs : List ActorGrant)
    → any (covers i) gs ≡ sufficient i i.risk (risk_matched_grants i gs)
any-covers-sufficient i gs = any-ext _ _ gs (covers_lem i) ∙ any-covering i i.risk gs

pub is_empty-grant_reasons :
    (sc rm : List ActorGrant) (rs : List PolicyReason)
    → is_empty (grant_reasons sc rm rs) ≡ (not (is_empty sc) && not (is_empty rm) && is_empty rs)
unfolding grant_reasons
is_empty-grant_reasons sc rm rs =
    ground (arith, is_empty-insert no_matching_grant rs, is_empty-insert risk_exceeds_grant rs)

-- With a grant that suffices, the grants and the risk give no reason against the request exactly
-- when the input itself is sound.
no_denial :
    (i : PolicyInput) (r : RiskClass) (p : ActorGrant → Bool) (sc : List ActorGrant)
    (rs : List PolicyReason)
    → (is_empty (risk_reasons i (filter p sc) r (grant_reasons sc (filter p sc) rs))
        && not (is_empty (filter p sc)))
      ≡ (is_empty rs && sufficient i r (filter p sc) && sound_input i r)
unfolding risk_reasons
no_denial i observe p sc rs =
    ground (arith, is_empty-grant_reasons sc (filter p sc) rs, filter_of_empty p sc)
no_denial i comfort p sc rs =
    ground (arith, is_empty-grant_reasons sc (filter p sc) rs, filter_of_empty p sc)
no_denial i mechanical p sc rs =
    rw (is_empty-insert_if, is_empty-insert_if, is_empty-insert_if)
      (ground (arith, is_empty-grant_reasons sc (filter p sc) rs, filter_of_empty p sc))
no_denial i security p sc rs = rw is_empty-insert_if (
    ground (
      arith,
      is_empty-grant_reasons sc (filter p sc) rs,
      filter_of_empty p sc,
      any_of_empty (λ g. is_exact i g.scope) (filter p sc),
    ))

-- `allowed` as one conjunction of tests, from the tests whose failures are collected.
pub allowed-covers :
    (i : PolicyInput) (grants : List ActorGrant)
    → (evaluate i grants).allowed ≡ (
        i.actor.enabled
        && (not (action_beq i.action approve_unlock) || is_user i.actor.kind)
        && any (covers i) grants
        && sound_input i i.risk
        && not (is_exhausted i.rate_capacity)
        && not (is_exhausted i.device_capacity))
unfolding evaluate denials
allowed-covers i grants =
    let disabled = insert_if (not i.actor.enabled) actor_disabled [] in
    let interactive =
      insert_if (action_beq i.action approve_unlock && not (is_user i.actor.kind))
        interactive_user_required disabled in
    rw (is_empty-insert_if, is_empty-insert_if)
      (ground (
        arith,
        no_denial i i.risk (λ g. permits g.maximum_risk i.risk) (scoped_grants i grants)
            interactive,
        is_empty-insert_if (not i.actor.enabled) actor_disabled [],
        is_empty-insert_if (action_beq i.action approve_unlock && not (is_user i.actor.kind))
            interactive_user_required disabled,
        any-covers-sufficient i grants,
      ))

sound_iff :
    (i : PolicyInput) (r : RiskClass)
    → (sound_input i r ≡ true)
      ↔ (r ≡ mechanical → (i.freshness ≡ fresh) × (i.constraint ≡ ConstraintState.available))
sound_iff i mechanical = (
  (λ h _. (fresh_of i.freshness (ground arith), available_of i.constraint (ground arith))),
  (λ f. let (p, q) = f refl in rw (p, q)),
)
  where
    fresh_of : (f : FreshnessState) → is_fresh f ≡ true → f ≡ fresh
    fresh_of f h = ground arith

    available_of : (c : ConstraintState) → is_available c ≡ true → c ≡ ConstraintState.available
    available_of c h = ground arith
sound_iff i observe = ((λ h e. cc), (λ f. refl))
sound_iff i comfort = ((λ h e. cc), (λ f. refl))
sound_iff i security = ((λ h e. cc), (λ f. refl))

-- The conjunction of tests, test by test.
pub tests_iff :
    (i : PolicyInput) (grants : List ActorGrant)
    → ((i.actor.enabled
          && (not (action_beq i.action approve_unlock) || is_user i.actor.kind)
          && any (covers i) grants
          && sound_input i i.risk
          && not (is_exhausted i.rate_capacity)
          && not (is_exhausted i.device_capacity))
        ≡ true)
      ↔ ((i.actor.enabled ≡ true)
          × ((not (action_beq i.action approve_unlock) || is_user i.actor.kind) ≡ true)
          × (any (covers i) grants ≡ true)
          × (i.risk ≡ mechanical
              → (i.freshness ≡ fresh) × (i.constraint ≡ ConstraintState.available))
          × (i.rate_capacity ≡ CapacityState.available)
          × (i.device_capacity ≡ CapacityState.available))
tests_iff i grants =
    let (to, from) = sound_iff i i.risk in
    (
      (λ h. (
        ground arith,
        ground arith,
        ground arith,
        to (ground arith),
        ground arith,
        ground arith,
      )),
      (λ (a, b, c, d, e, f). let g = from d in ground arith),
    )
