-- ===== src/Command/Versions.antt =====
-- Histories of transition attempts on a command, the refused ones among them.
use homemagic.Prelude.{
  ok, err, ℕ, ◌+◌, ◌≤◌, ◌<◌, ◌≡◌, ◌↔◌, ◌⊎◌, Bool, true, false, List, [], ◌∷◌, arith, Bool-cases,
  Any, refl, inl, inr,
}
use homemagic.Command.{
  CommandEnvelope, CommandState, received, validated, dispatched, acknowledged, confirmed, failed,
  allows_transition_to, CommandAggregate, receive, u64_max, transition,
}

unfoldable pub attempt : CommandAggregate → CommandState × ℕ → CommandAggregate
attempt c (next, at) = elim (transition c next at) [ ok c' ↦ c' | err _ ↦ c ]

unfoldable pub attempts : CommandAggregate → List (CommandState × ℕ) → CommandAggregate
attempts c [] = c
attempts c (t ∷ ts) = attempts (attempt c t) ts

-- How far a state is from receipt.
abbrev pub depth : CommandState → ℕ
depth received = 0
depth validated = 1
depth dispatched = 2
depth acknowledged = 3
depth _ = 4

-- Whether a transition is accepted, as a count.
unfoldable pub accepted_one : CommandAggregate → CommandState × ℕ → ℕ
unfolding transition
accepted_one c (next, at) = elim (transition c next at) [ ok _ ↦ 1 | err _ ↦ 0 ]

-- How many of the attempts are accepted.
unfoldable pub accepted : CommandAggregate → List (CommandState × ℕ) → ℕ
unfolding accepted_one attempt
accepted c [] = 0
accepted c (t ∷ ts) = accepted_one c t + accepted (attempt c t) ts

attempt-depth :
    (c : CommandAggregate) (t : CommandState × ℕ)
    → c.version ≤ depth c.state
    → (attempt c t).version ≤ depth (attempt c t).state
unfolding attempt transition
attempt-depth c (next, at) h = ground arith

attempts-depth :
    (c : CommandAggregate) (ts : List (CommandState × ℕ))
    → c.version ≤ depth c.state
    → (attempts c ts).version ≤ depth (attempts c ts).state
unfolding attempts
attempts-depth c [] h = h
attempts-depth c (t ∷ ts) h = attempts-depth (attempt c t) ts (attempt-depth c t h)

depth_bound : (s : CommandState) → depth s ≤ 4
depth_bound s = ground arith

attempt-version :
    (c : CommandAggregate) (t : CommandState × ℕ)
    → c.version ≤ depth c.state
    → (attempt c t).version ≡ c.version + accepted_one c t
unfolding attempt accepted_one transition
attempt-version c (next, at) h = ground (arith, depth_bound c.state)

version-accepted :
    (c : CommandAggregate) (ts : List (CommandState × ℕ))
    → c.version ≤ depth c.state
    → (attempts c ts).version ≡ c.version + accepted c ts
unfolding attempts accepted
version-accepted c [] h = omega arith
version-accepted c (t ∷ ts) h =
    omega (arith, attempt-version c t h, version-accepted (attempt c t) ts (attempt-depth c t h))

-- The version of a command is the number of the transitions that were accepted since its receipt, it
-- is at most the depth of the state that the command is in, and at most four.
pub attempts-version :
    (e : CommandEnvelope) (ts : List (CommandState × ℕ))
    → ((attempts (receive e) ts).version ≡ accepted (receive e) ts)
      × ((attempts (receive e) ts).version ≤ depth (attempts (receive e) ts).state)
      × ((attempts (receive e) ts).version ≤ 4)
unfolding receive
attempts-version e ts =
    let h = attempts-depth (receive e) ts (omega arith) in
    (
      omega (arith, version-accepted (receive e) ts (omega arith)),
      h,
      omega (arith, h, depth_bound (attempts (receive e) ts).state),
    )

-- A transition is accepted exactly along an allowed edge; it then counts one version up, sets the
-- state and the time, and changes nothing else.
transition_iff :
    (c c' : CommandAggregate) (next : CommandState) (at : ℕ)
    → c.version < u64_max
    → (transition c next at ≡ ok c') ↔ (
        (allows_transition_to c.state next ≡ true)
        × (c' ≡ record c { state = next; version = c.version + 1; updated_at = at }))
unfolding transition
transition_iff c c' next at h = ground arith

-- The states in which the adapter may have been called.
abbrev pub after_dispatch : CommandState → Bool
after_dispatch dispatched = true
after_dispatch acknowledged = true
after_dispatch confirmed = true
after_dispatch failed = true
after_dispatch _ = false

abbrev past_validation : CommandState → Bool
past_validation validated = true
past_validation s = after_dispatch s

attempt_validated :
    (c : CommandAggregate) (t : CommandState × ℕ)
    → past_validation (attempt c t).state ≡ true
    → (past_validation c.state ≡ true) ⊎ (t.0 ≡ validated)
unfolding attempt transition
attempt_validated c (next, at) h = ground arith

attempt_dispatched :
    (c : CommandAggregate) (t : CommandState × ℕ)
    → after_dispatch (attempt c t).state ≡ true
    → (after_dispatch c.state ≡ true) ⊎ ((t.0 ≡ dispatched) × (past_validation c.state ≡ true))
unfolding attempt transition
attempt_dispatched c (next, at) h = ground arith

dispatched_later :
    (c : CommandAggregate) (ts : List (CommandState × ℕ))
    → after_dispatch (attempts c ts).state ≡ true
    → (after_dispatch c.state ≡ true) ⊎ Any (λ t. t.0 ≡ dispatched) ts
unfolding attempts
dispatched_later c [] h = inl h
dispatched_later c (t ∷ ts) h = elim (dispatched_later (attempt c t) ts h) [
  | inl a ↦ ground (arith, attempt_dispatched c t a)
  | inr later ↦ inr (inr later)
]

-- Some attempt to validate is followed by an attempt to dispatch.
abbrev pub ValidatedThenDispatched : List (CommandState × ℕ) → Type 0
ValidatedThenDispatched [] = ⊥
ValidatedThenDispatched (t ∷ ts) =
    ((t.0 ≡ validated) × Any (λ u. u.0 ≡ dispatched) ts) ⊎ ValidatedThenDispatched ts

after-past : (s : CommandState) → after_dispatch s ≡ true → past_validation s ≡ true
after-past s h = ground arith

first :
    (c : CommandAggregate) (t : CommandState × ℕ)
    → past_validation c.state ≡ false
    → past_validation (attempt c t).state ≡ true
    → t.0 ≡ validated
first c t n p = ground (arith, attempt_validated c t p)

second :
    (c : CommandAggregate) (t : CommandState × ℕ) (ts : List (CommandState × ℕ))
    → past_validation c.state ≡ false
    → (after_dispatch (attempt c t).state ≡ true) ⊎ Any (λ u. u.0 ≡ dispatched) ts
    → Any (λ u. u.0 ≡ dispatched) ts
second c t ts n (inr a) = a
second c t ts n (inl a) = elim (attempt_dispatched c t a) [
  | inl b ↦ absurd (cc (after-past c.state b))
  | inr b ↦ absurd (cc b.1)
]

ordered :
    (c : CommandAggregate) (ts : List (CommandState × ℕ))
    → past_validation c.state ≡ false
    → after_dispatch (attempts c ts).state ≡ true
    → ValidatedThenDispatched ts
unfolding attempts
ordered c [] n h = absurd (cc (after-past c.state h))
ordered c (t ∷ ts) n h = elim (Bool-cases (past_validation (attempt c t).state)) [
  | inl p ↦ inl (first c t n p, second c t ts n (dispatched_later (attempt c t) ts h))
  | inr q ↦ inr (ordered (attempt c t) ts q h)
]

-- No command is dispatched, acknowledged, confirmed or failed unless it was validated first and
-- dispatched after that.
pub dispatch_needs_validation :
    (e : CommandEnvelope) (ts : List (CommandState × ℕ))
    → after_dispatch (attempts (receive e) ts).state ≡ true
    → ValidatedThenDispatched ts
unfolding receive
dispatch_needs_validation e ts h = ordered (receive e) ts refl h
