-- ===== src/Freshness/Examples.antt =====
-- Freshness at concrete inputs.
use homemagic.Lifecycle.{AvailabilityState}
use homemagic.Prelude.{
  ℤ, pos, negsuc, ℕ, ◌+◌, ◌*◌, ◌≤◌, ◌<◌, ◌≡◌, refl, ◌≢◌, ◌↔◌, Option, none, some, arith,
}
use homemagic.Freshness.{
  offline, stale, FreshnessPolicy, fresh, new, nanos_per_second, evaluate, stale_at, offline_at,
}
use homemagic.Freshness.Thresholds.{AddsSeconds, evaluate_thresholds}

abbrev half_minute : FreshnessPolicy
half_minute = record { stale_after_seconds = pos 30; offline_after_seconds = pos 120 }

-- An addition with no upper bound, which is none below zero.
abbrev add_unbounded : ℕ → ℤ → Option ℕ
add_unbounded at (pos s) = some (at + s * nanos_per_second)
add_unbounded at (negsuc s) = none

add_unbounded-AddsSeconds : AddsSeconds add_unbounded
add_unbounded-AddsSeconds at s r h = ground arith

online≢sleeping : AvailabilityState.online ≢ AvailabilityState.sleeping
online≢sleeping e = cc

evaluate_thresholds_example :
    let f = evaluate half_minute (some 5) AvailabilityState.online 30000000005 in
    ((f ≡ fresh) ↔ (30000000005 < 30000000005))
    × ((f ≡ stale) ↔ ((30000000005 ≤ 30000000005) × (30000000005 < 120000000005)))
    × ((f ≡ offline) ↔ (120000000005 ≤ 30000000005))
unfolding new stale_at offline_at
evaluate_thresholds_example =
    evaluate_thresholds add_unbounded add_unbounded-AddsSeconds (pos 30) (pos 120) half_minute
      AvailabilityState.online 5 30000000005 30000000005 120000000005 refl online≢sleeping refl refl
