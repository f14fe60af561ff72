-- ===== src/Lifecycle/Examples.antt =====
-- The lifecycle at concrete inputs.
use homemagic.Prelude.{any, ◌≡◌, refl, ◌↔◌, false, none, [], ◌∷◌}
use homemagic.Lifecycle.{
  candidate, mark_stale, rediscover, unknown, unknown_at, change_availability, run,
}
use homemagic.Lifecycle.Reachability.{decides, run-candidate}

run-candidate_example :
    (run candidate (mark_stale ∷ rediscover ∷ []) ≡ candidate)
    ↔ (any decides (mark_stale ∷ rediscover ∷ []) ≡ false)
run-candidate_example = run-candidate (mark_stale ∷ rediscover ∷ [])

-- A known reason keeps the instant at which it began.
unchanged : change_availability (unknown_at 5) unknown 9 none ≡ unknown_at 5
unfolding change_availability unknown_at
unchanged = refl
