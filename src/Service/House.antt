-- ===== src/Service/House.antt =====
-- The services of a house with a lamp and a door lock: the state is a clock and the list of the
-- envelopes that the adapter was given, and the stores answer from fixed data.
use homemagic.Prelude.{
  nat_beq, if◌then◌else◌, ok, Text, text, ℕ, zero, suc, ◌+◌, refl, subst, true, none, some, List,
  [], ◌∷◌,
}
use homemagic.Command.{CommandEnvelope, validated}
use homemagic.Freshness.{default_policy}
use homemagic.Matter.State.{MatterConvergence, MatterStateFreshness}
use homemagic.Policy.{CapacityState}
use homemagic.Service.{Services, confirmed_by}
use homemagic.Service.Boundary.{CommandService, Stores, created}
use homemagic.Service.Dispatching.{ControlLaws, ServiceLaws}
use homemagic.Service.Matter.{MatterStores, StoredMatterProjection, consumed}
use homemagic.Service.Matter.Admission.{matter_control}
use homemagic.Service.Matter.Registering.{MatterLaws}
use homemagic.Service.Matter.Contract.{matter_control-ControlLaws}
use homemagic.Service.Household.{lamp, door, resident, grants, open_door, in_state, page}

abbrev pub House : Type 0
House = ℕ × List CommandEnvelope

-- The house at an instant, with nothing given.
abbrev pub at : ℕ → House
at now = (now, [])

abbrev pub given : House → List CommandEnvelope
given w = w.1

abbrev house_services : Services House ℕ
house_services = record {
  transition_command = λ c v a w. (ok tt, w);
  publish = λ a w. (ok tt, w);
  send = λ e w. (ok (record { acknowledged_at = w.0; code = text "ok" }), (w.0 + 5, e ∷ w.1));
  observe = λ c w. (ok (confirmed_by (record { confirmed_at = w.0; observation_at = w.0 })), w);
  now = λ w. (w.0, w);
  new_audit_id = λ w. (w.0, w);
}

abbrev house_stores : Stores House ℕ ℕ ℕ
house_stores = record {
  load = λ w. (ok (lamp ∷ door ∷ []), w);
  actor_security =
      λ a w. (ok (some (record { actor = resident a; credential = none; grants = grants a })), w);
  create_command = λ c h a w. (ok (created c), w);
  command = λ c w. (ok (some (in_state open_door validated)), w);
  actor_commands = λ a n w. (ok [], w);
  command_audit = λ c a n w. (ok [], w);
  recoverable_commands = λ n w. (ok page, w);
  try_acquire = λ a d n w. (
    record { rate = CapacityState.available; device = CapacityState.available; permit = true },
    w,
  );
  release = λ d w. w;
  new_command_id = λ w. (w.0, w);
  to_vec = λ r. ok [];
  digest = λ bytes. some_digest;
}
  where
    repeat : ℕ → List ℕ
    repeat zero = []
    repeat (suc n) = 171 ∷ repeat n

    some_digest : List ℕ
    some_digest = repeat 32

-- The projection of the door lock, with the slot of the pending unlock.
abbrev pub lock_stores : MatterStores House ℕ
lock_stores = record {
  matter_projection_for_target =
      λ d e c w. (ok (if nat_beq d 21 then some (lock_projection e c) else none), w);
  matter_desired_slot = λ p w. (
    ok (
        some (record {
          projection_id = p;
          desired_revision = 4;
          command_id = 30;
          dispatched_at = none;
          updated_at = 12;
        })),
    w,
  );
  replace_matter_desired_state = λ x w. (ok tt, w);
  record_matter_dispatch = λ x w. (ok tt, w);
  create_unlock_authorization = λ x w. (ok tt, w);
  authorize_and_record_unlock_dispatch = λ i x w. (ok consumed, w);
  command = λ c w. (ok none, w);
  command_request_hash = λ c w. (ok (some (text "hash")), w);
  new_audit_id = λ w. (w.0, w);
  new_authorization_id = λ w. (w.0, w);
  of_control = λ e. 1;
  of_state = λ e. 2;
}
  where
    lock_projection : Text → Text → StoredMatterProjection
    lock_projection endpoint_id capability_schema = record {
      installation_id = 1;
      fabric_id = 1;
      node_id = 2;
      endpoint_number = 1;
      projection_id = 5;
      device_id = 21;
      endpoint_id = endpoint_id;
      capability_schema = capability_schema;
      projection_revision = 1;
      state = record {
        projection_id = 5;
        desired = none;
        reported = none;
        confirmed_revision = none;
        freshness = MatterStateFreshness.unknown;
        convergence = MatterConvergence.no_desired_state;
        uncertainty = none;
      };
      revision = 1;
      updated_at = 12;
    }

abbrev pub house : CommandService House ℕ ℕ ℕ
house = record {
  services = house_services;
  stores = house_stores;
  dispatch_control = some (matter_control lock_stores);
  freshness = default_policy;
}

pub lock_laws : MatterLaws lock_stores given
lock_laws = record {
  matter_projection_for_target = λ d e c w. refl;
  matter_desired_slot = λ p w. refl;
  replace_matter_desired_state = λ x w. refl;
  record_matter_dispatch = λ x w. refl;
  create_unlock_authorization = λ x w. refl;
  authorize_and_record_unlock_dispatch = λ i x w. refl;
  command = λ c w. refl;
  command_request_hash = λ c w. refl;
  new_audit_id = λ w. refl;
  new_authorization_id = λ w. refl;
}

pub house_laws : ServiceLaws house given
house_laws = record {
  services = record {
    transition_command = λ c v a w. refl;
    publish = λ a w. refl;
    send = λ e w. refl;
    observe = λ c w. refl;
    now = λ w. refl;
    new_audit_id = λ w. refl;
  };
  stores = record {
    load = λ w. refl;
    actor_security = λ a w. refl;
    create_command = λ c h a w. refl;
    command = λ c w. refl;
    recoverable_commands = λ n w. refl;
    try_acquire = λ a d n w. refl;
    release = λ d w. refl;
    new_command_id = λ w. refl;
    same_actor = λ a w x e. cc;
  };
  control = λ c e. subst (λ x. ControlLaws x given) (cc) (matter_control-ControlLaws lock_laws);
}
