-- ===== src/Reconciliation/Rounds.antt =====
-- crates/homemagic-application/src/reconciliation.rs: the loop over the candidates.
use homemagic.Prelude.{
  nat_beq, if◌then◌else◌, length, Result, ok, err, ◌>>=◌, text, ℕ, ◌+◌, not, none, some, List, [],
  ◌∷◌, ◌++◌, map,
}
use homemagic.Repair.{identity_collision, new as new_repair, RepairRecord}
use homemagic.Repository.Upserts.{find}
use homemagic.Event.{CausationMetadata}
use homemagic.Device.{DiscoveryCandidate, DeviceRecord}
use homemagic.Reconciliation.{
  Library, ReconciliationError, missing_device, ReconciliationOutcome, Progress, system_causation,
  native_get, insert_record, start,
}
use homemagic.Reconciliation.Record.{update_record, enroll_new}

module _ {P J : Type 0} (lib : Library P J) where
  -- identity_collision
  unfoldable pub collision : ℕ → DiscoveryCandidate P J → ℕ → RepairRecord
  unfolding new_repair
  collision n c conflicting =
      new_repair (lib.repair_id n) (some conflicting)
        (identity_collision c.integration_id c.snapshot.native_id
          (conflicting ∷ c.snapshot.id ∷ []))
        (text "Integration-native identity collision requires operator review") c.discovered_at

  -- `repairs.push(identity_collision(...)); continue`
  unfoldable pub collide : Progress P J → DiscoveryCandidate P J → ℕ → Progress P J
  unfolding collision
  collide l c conflicting = record l {
    repairs = l.repairs ++ collision (length l.repairs) c conflicting ∷ [];
  }

  -- The branch for a candidate with a record, and its part for one with the same identity.
  unfoldable pub update_known :
      Progress P J
      → DiscoveryCandidate P J
      → CausationMetadata
      → DeviceRecord P J
      → Result (Progress P J) ReconciliationError
  unfolding update_record
  update_known l c causation r = do
    (r', events) ← update_record lib r c causation l.events
    ok (record l {
      records = insert_record r' l.records;
      changed = if lib.record_beq r' r then l.changed else insert_record r' l.changed;
      events = events;
      accepted = l.accepted + 1;
    })

  unfoldable pub meet_known :
      Progress P J
      → DiscoveryCandidate P J
      → CausationMetadata
      → DeviceRecord P J
      → Result (Progress P J) ReconciliationError
  unfolding collide update_known
  meet_known l c causation r =
      if not (nat_beq r.snapshot.id c.snapshot.id)
      then ok (collide l c r.snapshot.id)
      else update_known l c causation r

  unfoldable pub meet_new :
      Progress P J
      → DiscoveryCandidate P J
      → CausationMetadata
      → Result (Progress P J) ReconciliationError
  unfolding enroll_new
  meet_new l c causation = do
    (r, events) ← enroll_new lib c causation l.events
    ok (record l {
      records = insert_record r l.records;
      native_index = ((c.integration_id, c.snapshot.native_id), r.snapshot.id) ∷ l.native_index;
      changed = insert_record r l.changed;
      events = events;
      accepted = l.accepted + 1;
    })

  -- A candidate whose identity is the derived one.
  unfoldable pub meet :
      Progress P J
      → DiscoveryCandidate P J
      → CausationMetadata
      → Result (Progress P J) ReconciliationError
  unfolding native_get find meet_known meet_new
  meet l c causation = elim (native_get c.integration_id c.snapshot.native_id l.native_index) [
    | none ↦ meet_new l c causation
    | some id ↦ elim (find (λ e. e.0) id l.records) [
      | none ↦ err missing_device
      | some (_, r) ↦ meet_known l c causation r
    ]
  ]

  -- One round of the loop.
  unfoldable pub round :
      CausationMetadata
      → Progress P J
      → DiscoveryCandidate P J
      → Result (Progress P J) ReconciliationError
  unfolding collide meet
  round causation l c =
      let l' = record l { repairs = l.repairs ++ c.repairs } in
      let expected = lib.from_integration c.integration_id c.snapshot.native_id in
      if not (nat_beq c.snapshot.id expected)
      then ok (collide l' c expected)
      else meet l' c causation

  unfoldable pub rounds :
      CausationMetadata
      → Progress P J
      → List (DiscoveryCandidate P J)
      → Result (Progress P J) ReconciliationError
  unfolding round
  rounds causation l [] = ok l
  rounds causation l (c ∷ cs) = do l' ← round causation l c; rounds causation l' cs

  -- reconcile, with the fresh correlation identity as an argument.
  unfoldable pub reconcile :
      ℕ
      → List (DeviceRecord P J)
      → List (DiscoveryCandidate P J)
      → Result (ReconciliationOutcome P J) ReconciliationError
  unfolding start rounds
  reconcile correlation_id existing candidates = do
    l ← rounds (system_causation correlation_id) (start existing) candidates
    ok (record {
      devices = map (λ e. e.1) l.changed;
      events = l.events;
      repairs = l.repairs;
      accepted = l.accepted;
    })
