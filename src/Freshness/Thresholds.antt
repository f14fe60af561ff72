-- ===== src/Freshness/Thresholds.antt =====
-- When a success stops being fresh.
use homemagic.Lifecycle.{AvailabilityState, availability_state_beq_iff}
use homemagic.Prelude.{
  ℤ, pos, ◌<ℤ◌, ok, ℕ, ◌+◌, ◌*◌, ◌≤◌, ◌<◌, ◌≡◌, ◌≢◌, ◌↔◌, Option, none, some, arith, negsuc,
}
use homemagic.Freshness.{
  FreshnessPolicy, FreshnessState, unknown, fresh, stale, offline, sleeping, new, nanos_per_second,
  elapsed_seconds, classify, evaluate, stale_at, offline_at,
}

-- How far a state has aged.
abbrev pub age : FreshnessState → ℕ
age fresh = 0
age stale = 1
age offline = 2
age unknown = 0
age sleeping = 0

-- `new` accepts exactly the thresholds with 0 < stale < offline, and keeps them.
new_iff :
    (s o : ℤ) (p : FreshnessPolicy)
    → (new s o ≡ ok p)
      ↔ ((pos 0 <ℤ s) × (s <ℤ o) × (p.stale_after_seconds ≡ s) × (p.offline_after_seconds ≡ o))
unfolding new
new_iff s o p = ground arith

classify_mono : (p : FreshnessPolicy) (a b : ℕ) → a ≤ b → age (classify p a) ≤ age (classify p b)
unfolding classify
classify_mono p a b h = ground arith

-- While nothing new is observed, time passing never makes a device fresher: its age, from fresh
-- over stale to offline, does not fall.
age-evaluate_mono :
    (p : FreshnessPolicy) (success : Option ℕ) (a : AvailabilityState) (now later : ℕ)
    → now ≤ later
    → age (evaluate p success a now) ≤ age (evaluate p success a later)
unfolding evaluate
age-evaluate_mono p none a now later h = ground arith
age-evaluate_mono p (some last) a now later h =
    let m : elapsed_seconds now last ≤ elapsed_seconds later last = omega arith in
    ground (arith, classify_mono p (elapsed_seconds now last) (elapsed_seconds later last))

classify_valid :
    (s o e : ℕ) (p : FreshnessPolicy)
    → p.stale_after_seconds ≡ pos s
    → p.offline_after_seconds ≡ pos o
    → s < o
    → ((classify p e ≡ fresh) ↔ (e < s))
      × ((classify p e ≡ stale) ↔ ((s ≤ e) × (e < o)))
      × ((classify p e ≡ offline) ↔ (o ≤ e))
unfolding classify
classify_valid s o e p hs ho h = ground arith

evaluate_awake :
    (p : FreshnessPolicy) (a : AvailabilityState) (last now : ℕ)
    → a ≢ AvailabilityState.sleeping
    → evaluate p (some last) a now ≡ classify p (elapsed_seconds now last)
unfolding evaluate
evaluate_awake p a last now awake =
    ground (arith, availability_state_beq_iff a AvailabilityState.sleeping)

-- Thresholds in whole seconds of age, and as instants.
shift :
    (s o t u last now : ℕ) (f : FreshnessState)
    → 0 < s
    → s < o
    → t ≡ last + s * nanos_per_second
    → u ≡ last + o * nanos_per_second
    → ((f ≡ fresh) ↔ (elapsed_seconds now last < s))
      × ((f ≡ stale) ↔ ((s ≤ elapsed_seconds now last) × (elapsed_seconds now last < o)))
      × ((f ≡ offline) ↔ (o ≤ elapsed_seconds now last))
    → ((f ≡ fresh) ↔ (now < t))
      × ((f ≡ stale) ↔ ((t ≤ now) × (now < u)))
      × ((f ≡ offline) ↔ (u ≤ now))
shift s o t u last now f ps po et eu (a, b, c) = (
  ((λ e. omega (arith, a.0 e)), (λ l. a.1 (omega arith))),
  (
    (λ e. (omega (arith, (b.0 e).0), omega (arith, (b.0 e).1))),
    (λ l. b.1 (omega arith, omega arith)),
  ),
  ((λ e. omega (arith, c.0 e)), (λ l. c.1 (omega arith))),
)

-- What the calendar library documents of `checked_add_signed` at a non-negative count of seconds:
-- a result is the sum.
abbrev pub AddsSeconds : (ℕ → ℤ → Option ℕ) → Type 0
AddsSeconds add = (at s r : ℕ) → add at (pos s) ≡ some r → r ≡ at + s * nanos_per_second

module _ (add : ℕ → ℤ → Option ℕ) (adds : AddsSeconds add) where
  -- For a policy that `new` accepts and a device that does not sleep, the announced instants
  -- `stale_at` and `offline_at`, where they are representable, are exactly those at which
  -- `evaluate` changes: fresh before the first, stale from it on, offline from the second on.
  pub evaluate_thresholds :
      (s o : ℤ) (p : FreshnessPolicy) (a : AvailabilityState) (last now t u : ℕ)
      → new s o ≡ ok p
      → a ≢ AvailabilityState.sleeping
      → stale_at add p (some last) ≡ some t
      → offline_at add p (some last) ≡ some u
      → ((evaluate p (some last) a now ≡ fresh) ↔ (now < t))
        × ((evaluate p (some last) a now ≡ stale) ↔ ((t ≤ now) × (now < u)))
        × ((evaluate p (some last) a now ≡ offline) ↔ (u ≤ now))
  unfolding stale_at offline_at
  evaluate_thresholds (pos s) (pos o) p a last now t u h awake ht hu =
      let v = (new_iff (pos s) (pos o) p).0 h in
      let ht' : add last (pos s) ≡ some t = rw v.2 at ht in
      let hu' : add last (pos o) ≡ some u = rw v.3 at hu in
      let es = adds last s t ht' in
      let eo = adds last o u hu' in
      rw (evaluate_awake p a last now awake) (
        shift s o t u last now (classify p (elapsed_seconds now last)) (omega arith) (omega arith)
          es eo (classify_valid s o (elapsed_seconds now last) p v.2 v.3 (omega arith)))
  evaluate_thresholds (pos s) (negsuc o) p a last now t u h awake ht hu =
      absurd (omega (arith, (new_iff (pos s) (negsuc o) p).0 h))
  evaluate_thresholds (negsuc s) o p a last now t u h awake ht hu =
      absurd (omega (arith, (new_iff (negsuc s) o p).0 h))
