-- ===== src/Limits/Window.antt =====
-- The sliding window of requests and the slots of a device, step by step.
use homemagic.Prelude.{
  ltb, if◌then◌else◌, length, ℕ, ◌+◌, ◌≤◌, ◌≡◌, List, [], ◌∷◌, ◌++◌, arith, Bool-cases,
  length-append, ◌-◌, inl, inr,
}
use homemagic.Policy.{CapacityState, exhausted}
use homemagic.Limits.{pop_expired, admit}

-- How many instants lie in the window that ends at `now`.
unfoldable pub recent : ℕ → ℕ → List ℕ → ℕ
recent now w [] = 0
recent now w (t ∷ ts) = (if ltb now (t + w) then 1 else 0) + recent now w ts

recent-append :
    (now w : ℕ) (xs ys : List ℕ) → recent now w (xs ++ ys) ≡ recent now w xs + recent now w ys
unfolding recent
recent-append now w [] ys = omega arith
recent-append now w (x ∷ xs) ys = omega (arith, recent-append now w xs ys)

pub recent-le-length : (now w : ℕ) (xs : List ℕ) → recent now w xs ≤ length xs
unfolding recent
recent-le-length now w [] = omega arith
recent-le-length now w (x ∷ xs) = ground (arith, recent-le-length now w xs)

recent_mono : (now later w : ℕ) (xs : List ℕ) → now ≤ later → recent later w xs ≤ recent now w xs
unfolding recent
recent_mono now later w [] h = omega arith
recent_mono now later w (x ∷ xs) h = ground (arith, recent_mono now later w xs h)

-- What is popped lies outside the window.
recent-pop_expired :
    (cutoff now w : ℕ) (q : List ℕ)
    → cutoff + w ≤ now
    → recent now w q ≤ recent now w (pop_expired cutoff q)
unfolding recent pop_expired
recent-pop_expired cutoff now w [] h = omega arith
recent-pop_expired cutoff now w (t ∷ ts) h = ground (arith, recent-pop_expired cutoff now w ts h)

length-pop_expired : (cutoff : ℕ) (q : List ℕ) → length (pop_expired cutoff q) ≤ length q
unfolding pop_expired
length-pop_expired cutoff [] = omega arith
length-pop_expired cutoff (t ∷ ts) = ground (arith, length-pop_expired cutoff ts)

-- From now on the admitted requests in the window are at most those that the queue still holds, and
-- the queue is within the limit.
pub record Bounded (limit now w : ℕ) (admitted queue : List ℕ) : Type 0 where
  pub covered : (later : ℕ) → now ≤ later → recent later w admitted ≤ recent later w queue
  pub within : length queue ≤ limit

-- The history of one actor after a request that was admitted, or not.
abbrev pub note : CapacityState → ℕ → List ℕ → List ℕ
note CapacityState.available now admitted = admitted ++ now ∷ []
note exhausted now admitted = admitted

pub admit-Bounded :
    (limit now then' w : ℕ) (admitted queue : List ℕ)
    → now ≤ then'
    → w ≤ then'
    → Bounded limit now w admitted queue
    → let (queue', rate) = admit limit then' (pop_expired (then' - w) queue) in
      Bounded limit then' w (note rate then' admitted) queue'
unfolding admit
admit-Bounded limit now then' w admitted queue h hw b =
    elim (Bool-cases (ltb (length (pop_expired (then' - w) queue)) limit)) [
      | inl room ↦
          rw (room, admit)
            (record {
              covered = λ later hl. omega (
                arith,
                recent-append later w admitted (then' ∷ []),
                recent-append later w (pop_expired (then' - w) queue) (then' ∷ []),
                b.covered later (omega arith),
                recent-pop_expired (then' - w) later w queue (omega arith),
              );
              within = ground (arith, length-append (pop_expired (then' - w) queue) (then' ∷ []));
            })
      | inr full ↦
          rw (full, admit)
            (record {
              covered = λ later hl. omega (
                arith,
                b.covered later (omega arith),
                recent-pop_expired (then' - w) later w queue (omega arith),
              );
              within = omega (arith, length-pop_expired (then' - w) queue, b.within);
            })
    ]

pub later-Bounded :
    {limit now later w : ℕ} {admitted queue : List ℕ}
    → now ≤ later
    → Bounded limit now w admitted queue
    → Bounded limit later w admitted queue
later-Bounded h b = record { covered = λ k hk. b.covered k (omega arith); within = b.within }
