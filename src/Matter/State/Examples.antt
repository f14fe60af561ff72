-- ===== src/Matter/State/Examples.antt =====
-- Projected states at concrete inputs.
use homemagic.Prelude.{ok, err, is_ok, ◌≡◌, refl, ◌↔◌, true, none, some}
use homemagic.Matter.State.{
  position_percent, zero_revision, new_revision, MatterDesiredState, unknown, fresh, confirmed,
  MatterProjectedState, check_confirmation, new,
}
use homemagic.Matter.State.Consistency.{Confirms, Converges, new-Confirms}

abbrev half_open : MatterDesiredState
half_open = record {
  revision = record { value = 3 };
  value = position_percent 50;
  requested_at = 20;
}

abbrev reached : MatterProjectedState
reached = record {
  projection_id = 1;
  desired = some half_open;
  reported = none;
  confirmed_revision = some (record { value = 3 });
  freshness = fresh;
  convergence = confirmed;
  uncertainty = none;
}

new-Confirms_example :
    (new 1 (some half_open) none (some (record { value = 3 })) fresh confirmed none ≡ ok reached)
    ↔ (Confirms (some half_open) (some (record { value = 3 }))
        × Converges confirmed (some half_open) (some (record { value = 3 }))
        × (reached ≡ reached))
new-Confirms_example =
    new-Confirms 1 (some half_open) none (some (record { value = 3 })) fresh confirmed none reached

zero_rejected : new_revision 0 ≡ err zero_revision
unfolding new_revision
zero_rejected = refl

without_desired_state : is_ok (new 1 none none none unknown confirmed none) ≡ true
unfolding new check_confirmation
without_desired_state = refl
