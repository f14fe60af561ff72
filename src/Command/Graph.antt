-- ===== src/Command/Graph.antt =====
-- The command state machine as a graph.
use homemagic.Prelude.{◌≡◌, ◌↔◌, true, false, Bool-cases, inl, inr, arith}
use homemagic.Command.{
  CommandState, is_terminal_state, allows_transition_to, received, validated, dispatched, confirmed,
}

-- A state that a non-terminal state may go to.
abbrev successor : CommandState → CommandState
successor received = validated
successor validated = dispatched
successor _ = confirmed

has_successor :
    (s : CommandState) → is_terminal_state s ≡ false → allows_transition_to s (successor s) ≡ true
unfolding is_terminal_state allows_transition_to
has_successor s h = ground arith

no_successor : (s t : CommandState) → is_terminal_state s ≡ true → allows_transition_to s t ≡ false
unfolding is_terminal_state allows_transition_to
no_successor s t h = ground arith

-- A state is terminal exactly if no transition leads out of it.
terminal-no_successor :
    (s : CommandState)
    → (is_terminal_state s ≡ true) ↔ ((t : CommandState) → allows_transition_to s t ≡ false)
terminal-no_successor s = (
  (λ h t. no_successor s t h),
  (λ f. elim (Bool-cases (is_terminal_state s)) [
    | inl h ↦ h
    | inr h ↦ absurd (cc (f (successor s), has_successor s h))
  ]),
)
