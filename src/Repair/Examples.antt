-- ===== src/Repair/Examples.antt =====
-- Repairs at concrete inputs.
use homemagic.Prelude.{text, ◌≤◌, ◌≡◌, refl, true, false, none, some, [], ◌∷◌}
use homemagic.Repair.{
  credentials_missing, open_repair, resolved, RepairRecord, new, is_open, resolve,
}
use homemagic.Repair.Closing.{resolves, dismisses, apply, requests, instant, apply_final}

abbrev missing : RepairRecord
missing = record {
  id = 4;
  device_id = some 20;
  kind = credentials_missing;
  summary = text "Configure";
  created_at = 10;
  status = open_repair;
  closed_at = none;
}

abbrev fixed : RepairRecord
fixed = record missing { status = resolved; closed_at = some 12 }

new_lem : new 4 (some 20) credentials_missing (text "Configure") 10 ≡ missing
unfolding new
new_lem = refl

apply_final_example :
    (is_open missing.status ≡ true)
    × (missing.created_at ≤ instant (resolves 12))
    × (fixed.closed_at ≡ some (instant (resolves 12)))
    × (is_open fixed.status ≡ false)
    × (requests fixed (dismisses 13 ∷ resolves 14 ∷ []) ≡ fixed)
unfolding apply resolve
apply_final_example = apply_final missing fixed (resolves 12) (dismisses 13 ∷ resolves 14 ∷ []) refl
