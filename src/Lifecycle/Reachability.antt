-- ===== src/Lifecycle/Reachability.antt =====
-- Histories of triggers, the accepted and the refused ones.
use homemagic.Prelude.{
  Bool-cases, any, ◌≡◌, refl, ◌↔◌, inl, inr, Bool, true, false, List, [], ◌∷◌, arith,
}
use homemagic.Lifecycle.{
  DeviceLifecycle, candidate, LifecycleTrigger, enroll, remove, apply_trigger, run,
}

-- The triggers that decide on a candidate.
abbrev pub decides : LifecycleTrigger → Bool
decides enroll = true
decides remove = true
decides _ = false

abbrev is_candidate : DeviceLifecycle → Bool
is_candidate candidate = true
is_candidate _ = false

apply_trigger-known :
    (s : DeviceLifecycle) (t : LifecycleTrigger)
    → is_candidate s ≡ false
    → is_candidate (apply_trigger s t) ≡ false
unfolding apply_trigger
apply_trigger-known s t h = ground arith

run-known :
    (s : DeviceLifecycle) (ts : List LifecycleTrigger)
    → is_candidate s ≡ false
    → is_candidate (run s ts) ≡ false
unfolding run
run-known s [] h = h
run-known s (t ∷ ts) h = run-known (apply_trigger s t) ts (apply_trigger-known s t h)

decides-known :
    (t : LifecycleTrigger) → decides t ≡ true → is_candidate (apply_trigger candidate t) ≡ false
unfolding apply_trigger
decides-known t h = ground arith

undecided-same : (t : LifecycleTrigger) → decides t ≡ false → apply_trigger candidate t ≡ candidate
unfolding apply_trigger
undecided-same t h = ground arith

stays : (ts : List LifecycleTrigger) → any decides ts ≡ false → run candidate ts ≡ candidate
unfolding run
stays [] h = refl
stays (t ∷ ts) h = rw (undecided-same t (ground arith)) (stays ts (ground arith))

leaves :
    (ts : List LifecycleTrigger) → any decides ts ≡ true → is_candidate (run candidate ts) ≡ false
unfolding run
leaves [] h = cc
leaves (t ∷ ts) h = elim (Bool-cases (decides t)) [
  | inl d ↦ run-known (apply_trigger candidate t) ts (decides-known t d)
  | inr n ↦ rw (undecided-same t n) (leaves ts (ground arith))
]

-- A candidate stays one exactly as long as the history neither enrolls nor removes it, whatever
-- else was tried, and no later trigger makes it a candidate again.
pub run-candidate :
    (ts : List LifecycleTrigger) → (run candidate ts ≡ candidate) ↔ (any decides ts ≡ false)
run-candidate ts = elim (Bool-cases (any decides ts)) [
  | inl d ↦ ((λ e. ground (arith, leaves ts d)), (λ e. cc))
  | inr n ↦ ((λ e. n), (λ e. stays ts n))
]
