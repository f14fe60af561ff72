-- ===== src/Matter/Operation/Examples.antt =====
-- Matter operations at concrete inputs.
use homemagic.Prelude.{ok, ℕ, ◌≤◌, ◌≡◌, refl, true, List, [], ◌∷◌}
use homemagic.Matter.Operation.{
  export_fabric, MatterOperationPhase, requested, exporting, completed, cancelled, is_terminal,
  fabric, MatterOperation, new, is_cancellable, valid_transition, transition, validate_persisted,
}
use homemagic.Matter.Operation.Persisted.{attempt, attempts, attempts-persistable}

abbrev export_request : MatterOperation
export_request = record {
  id = 1;
  kind = export_fabric;
  target = fabric 2;
  phase = requested;
  revision = 1;
  created_at = 10;
  updated_at = 10;
}

abbrev exporting_now : MatterOperation
exporting_now = record export_request { phase = exporting; revision = 2; updated_at = 12 }

abbrev history : List (MatterOperationPhase × ℕ)
history = (exporting, 12) ∷ (cancelled, 13) ∷ (completed, 11) ∷ (completed, 14) ∷ []

history_ends : (attempts (new 1 export_fabric (fabric 2) 10) history).phase ≡ completed
unfolding attempts attempt transition valid_transition is_terminal new
history_ends = refl

attempts-persistable_example :
    let o = attempts (new 1 export_fabric (fabric 2) 10) history in
    (validate_persisted o ≡ ok tt)
    × (o.revision ≤ 8)
    × (o.phase ≡ cancelled → is_cancellable o.kind ≡ true)
attempts-persistable_example = attempts-persistable 1 export_fabric (fabric 2) 10 history
