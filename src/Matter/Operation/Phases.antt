-- ===== src/Matter/Operation/Phases.antt =====
-- How the phases of an operation follow one another.
use homemagic.Prelude.{ℕ, ◌≤◌, ◌<◌, ◌≡◌, refl, true, false, arith}
use homemagic.Matter.Operation.{
  MatterOperationKind, create_fabric, commission_node, cancel_commissioning, remove_node,
  export_fabric, restore_fabric, repair_subscription, MatterOperationPhase, requested,
  creating_fabric, validating_setup, discovering, establishing_session, commissioning, projecting,
  subscribing, cancelling, removing_node, cleaning_secrets, exporting, restoring, loading_fabric,
  reading_gap, cancelled, failed, repair_required, is_terminal, is_requested, phase_allowed,
  valid_step, valid_transition,
}

-- How far a phase is from the request, in the longest operation that has it.
abbrev pub depth : MatterOperationPhase → ℕ
depth requested = 0
depth creating_fabric = 1
depth validating_setup = 1
depth discovering = 2
depth establishing_session = 3
depth commissioning = 4
depth projecting = 5
depth subscribing = 6
depth cancelling = 1
depth removing_node = 1
depth cleaning_secrets = 2
depth exporting = 1
depth restoring = 1
depth loading_fabric = 2
depth reading_gap = 1
depth _ = 7

pub depth_bound : (p : MatterOperationPhase) → depth p ≤ 7
depth_bound p = ground arith

-- A phase that a kind may step to is one of its phases, and lies deeper.
abbrev Advances : MatterOperationKind → MatterOperationPhase → MatterOperationPhase → Type 0
Advances k from to =
    (depth from < depth to) × (phase_allowed k to ≡ true) × (is_requested to ≡ false)

valid_step-Advances :
    (k : MatterOperationKind) (from to : MatterOperationPhase)
    → valid_step k from to ≡ true
    → Advances k from to
unfolding valid_step phase_allowed
valid_step-Advances create_fabric from to h = ground arith
valid_step-Advances commission_node from to h = ground arith
valid_step-Advances cancel_commissioning from to h = ground arith
valid_step-Advances remove_node from to h = ground arith
valid_step-Advances export_fabric from to h = ground arith
valid_step-Advances restore_fabric from to h = ground arith
valid_step-Advances repair_subscription from to h = ground arith

nonterminal-depth : (p : MatterOperationPhase) → is_terminal p ≡ false → depth p < 7
unfolding is_terminal
nonterminal-depth p h = ground arith

-- A transition out of a phase that is not terminal leads deeper, to a phase of the same kind.
pub valid_transition-Advances :
    (k : MatterOperationKind) (from to : MatterOperationPhase)
    → is_terminal from ≡ false
    → valid_transition k from to ≡ true
    → Advances k from to
unfolding valid_transition
valid_transition-Advances k from failed t h =
    (nonterminal-depth from t, unfold phase_allowed in refl, refl)
valid_transition-Advances k from repair_required t h =
    (nonterminal-depth from t, unfold phase_allowed in refl, refl)
valid_transition-Advances k from cancelled t h =
    (nonterminal-depth from t, unfold phase_allowed in refl, refl)
valid_transition-Advances k from to t h = valid_step-Advances k from to h
