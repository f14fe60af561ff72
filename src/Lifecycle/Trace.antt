-- ===== src/Lifecycle/Trace.antt =====
-- What a history of triggers says of the lifecycle that it ends in.
use homemagic.Prelude.{ok, ◌≡◌, refl, ◌↔◌, arith}
use homemagic.Lifecycle.{
  DeviceLifecycle, candidate, enrolled, stale, removed, LifecycleTrigger, enroll, mark_stale,
  rediscover, remove, transition,
}

-- The documented table of accepted triggers, as a relation.
pub data Edge : DeviceLifecycle → LifecycleTrigger → DeviceLifecycle → Type 0 where
  enrolls : Edge candidate enroll enrolled
  discards : Edge candidate remove removed
  ages : Edge enrolled mark_stale stale
  sees_again : Edge enrolled rediscover enrolled
  drops : Edge enrolled remove removed
  returns : Edge stale rediscover enrolled
  drops_stale : Edge stale remove removed
  restores : Edge removed rediscover enrolled

ruleset edges = (enrolls, discards, ages, sees_again, drops, returns, drops_stale, restores)

Edge-of : {s s' : DeviceLifecycle} {t : LifecycleTrigger} → transition s t ≡ ok s' → Edge s t s'
unfolding transition
Edge-of h = grind (arith, edges)

transition_of :
    {s s' : DeviceLifecycle} {t : LifecycleTrigger} → Edge s t s' → transition s t ≡ ok s'
unfolding transition
transition_of enrolls = refl
transition_of discards = refl
transition_of ages = refl
transition_of sees_again = refl
transition_of drops = refl
transition_of returns = refl
transition_of drops_stale = refl
transition_of restores = refl

-- A trigger is accepted, with a given new lifecycle, exactly along an edge of the documented table.
transition-Edge :
    (s s' : DeviceLifecycle) (t : LifecycleTrigger) → (transition s t ≡ ok s') ↔ Edge s t s'
transition-Edge s s' t = (Edge-of, transition_of)
