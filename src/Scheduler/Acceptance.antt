-- ===== src/Scheduler/Acceptance.antt =====
-- The acceptance of an occurrence, of a version or of another one.
use homemagic.Repository.{saturating_add}
use homemagic.Prelude.{
  continue_with, Gives, continue_with-Gives, chain-Gives, Gives-map, ℕ, suc, ◌≤◌, ◌≡◌, ap, true,
  false, List, arith,
}
use homemagic.Automation.{
  AutomationRunMode, single, restart, queued, parallel, AutomationOccurrenceState,
}
use homemagic.Scheduler.{AutomationOccurrence, ActiveAutomationVersion, Services, AutomationTimer}
use homemagic.Scheduler.Admission.{Key, key_beq, count, increment, occurrence_key}
use homemagic.Scheduler.Recovery.{Run, cancel_for_restart}
use homemagic.Scheduler.Settlement.{Pass, start_run, make_room, move_occurrence}
use homemagic.Scheduler.Live.{key_beq_iff, live_runs, AllRemain, cancel_for_restart-AllLeft}
use homemagic.Scheduler.Capacity.{
  room, IsWithin, count-increment, Belongs, one, Added, start_run-Added,
}

module _ {W B : Type 0} (services : Services W B) where
  module _ (timers : List AutomationTimer) (o : AutomationOccurrence) (now : ℕ) (k : Key)
      (a b : ℕ) where
    pub make_room-other :
        (m : AutomationRunMode) (p : Pass) (w : W)
        → key_beq (occurrence_key o) k ≡ false
        → IsWithin k a b p
        → Gives (IsWithin k a b) (make_room services m timers o now p w)
    unfolding make_room
    make_room-other restart p w n h =
        continue_with-Gives (λ e. AllRemain (occurrence_key o) k p.active_runs e.0) (IsWithin k a b)
          (cancel_for_restart services timers o now p.active_runs 0 w) _
          (cancel_for_restart-AllLeft services timers o now k p.active_runs 0 w)
          (λ (runs, c) w1 q. ground (arith, count-increment (occurrence_key o) k 0 p.active_counts))
    make_room-other single p w n h = h
    make_room-other (queued c) p w n h = h
    make_room-other (parallel c) p w n h = h

    pub make_room-own :
        (m : AutomationRunMode) (p : Pass) (w : W)
        → key_beq (occurrence_key o) k ≡ true
        → IsWithin k a b p
        → Gives
            (IsWithin k (room m (count k p.active_counts)) b)
            (make_room services m timers o now p w)
    unfolding make_room room
    make_room-own restart p w n h =
        continue_with-Gives (λ e. AllRemain (occurrence_key o) k p.active_runs e.0) (IsWithin k 0 b)
          (cancel_for_restart services timers o now p.active_runs 0 w) _
          (cancel_for_restart-AllLeft services timers o now k p.active_runs 0 w)
          (λ (runs, c) w1 q.
            let same = ap (λ j. live_runs j runs) ((key_beq_iff (occurrence_key o) k).0 n) in
            ground (arith, count-increment (occurrence_key o) k 0 p.active_counts))
    make_room-own single p w n h = ground arith
    make_room-own (queued c) p w n h = ground arith
    make_room-own (parallel c) p w n h = ground arith

    -- The rest of an acceptance, when room is made.
    abbrev counted : Pass → Pass
    counted p = record p {
      active_counts = increment (occurrence_key o) p.active_counts;
      result = record (p.result) { accepted = saturating_add p.result.accepted 1 };
    }

    abbrev pub finish : ActiveAutomationVersion → Pass → Run services Pass
    finish v p w =
        continue_with
          (move_occurrence services (record o { state = AutomationOccurrenceState.accepted }) w)
          (λ _.
            start_run services v (record o { state = AutomationOccurrenceState.accepted }) now
              (counted p))

    Added-own :
        (v : ActiveAutomationVersion) (p p' : Pass) (c : ℕ)
        → key_beq (occurrence_key o) k ≡ true
        → IsWithin k c b p
        → suc c ≤ a
        → Added services v o now k (counted p) p'
        → IsWithin k a b p'
    unfolding one
    Added-own v p p' c n g l (x, y, z) =
        let i =
          count-increment (occurrence_key o) k (suc (count (occurrence_key o) p.active_counts))
            p.active_counts in
        let same = ap (λ j. count j p.active_counts) ((key_beq_iff (occurrence_key o) k).0 n) in
        let e = ap (count k) y in let f = ap (count k) z in ground arith

    Added-other :
        (v : ActiveAutomationVersion) (p p' : Pass)
        → key_beq (occurrence_key o) k ≡ false
        → IsWithin k a b p
        → Added services v o now k (counted p) p'
        → IsWithin k a b p'
    unfolding one
    Added-other v p p' n g (x, y, z) =
        let i =
          count-increment (occurrence_key o) k (suc (count (occurrence_key o) p.active_counts))
            p.active_counts in
        let e = ap (count k) y in let f = ap (count k) z in ground arith

    pub finish-own :
        (v : ActiveAutomationVersion) (p : Pass) (w : W) (c : ℕ)
        → key_beq (occurrence_key o) k ≡ true
        → Belongs services o
        → IsWithin k c b p
        → suc c ≤ a
        → Gives (IsWithin k a b) (finish v p w)
    unfolding one
    finish-own v p w c n h g l =
        let o' = record o { state = AutomationOccurrenceState.accepted } in
        chain-Gives (IsWithin k a b) (move_occurrence services o' w)
          (λ _. start_run services v o' now (counted p))
          (λ _ w1.
            Gives-map (Added services v o' now k (counted p)) (IsWithin k a b)
              (start_run services v o' now (counted p) w1) (λ p' q. Added-own v p p' c n g l q)
              (start_run-Added services v o' now k (counted p) w1 h))

    pub finish-other :
        (v : ActiveAutomationVersion) (p : Pass) (w : W)
        → key_beq (occurrence_key o) k ≡ false
        → Belongs services o
        → IsWithin k a b p
        → Gives (IsWithin k a b) (finish v p w)
    unfolding one
    finish-other v p w n h g =
        let o' = record o { state = AutomationOccurrenceState.accepted } in
        chain-Gives (IsWithin k a b) (move_occurrence services o' w)
          (λ _. start_run services v o' now (counted p))
          (λ _ w1.
            Gives-map (Added services v o' now k (counted p)) (IsWithin k a b)
              (start_run services v o' now (counted p) w1) (λ p' q. Added-other v p p' n g q)
              (start_run-Added services v o' now k (counted p) w1 h))
