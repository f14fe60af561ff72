-- ===== src/Scheduler/Live.antt =====
-- How many runs of a version are live, and what the steps of the recovery do to that number.
use homemagic.Prelude.{
  if◌then◌else◌, Bool-cases, length, give, await, Gives, continue_with-Gives, chain-Gives,
  either-Gives, ℕ, suc, ◌+◌, ◌≤◌, ◌≡◌, refl, ◌↔◌, inl, inr, true, false, List, [], ◌∷◌, ◌++◌, arith,
}
use homemagic.Automation.{is_terminal_run}
use homemagic.Scheduler.{
  AutomationOccurrence, AutomationRun, AutomationTimer, repository, Services, recovery_page,
}
use homemagic.Scheduler.Admission.{
  Key, key_beq, count, increment, run_key, occurrence_key, count_runs,
}
use homemagic.Scheduler.Recovery.{
  is_live, cancelled_run, cancelling_write, cancel_run, cancel_if_live, cancel_for_restart,
}

pub key_beq_iff : (j k : Key) → (key_beq j k ≡ true) ↔ (j ≡ k)
unfolding key_beq
key_beq_iff j k = ground arith

-- The runs of a version that are not terminal.
unfoldable pub live_runs : Key → List AutomationRun → ℕ
live_runs k [] = 0
live_runs k (r ∷ rs) = let rest = live_runs k rs in if is_live k r then suc rest else rest

pub count-count_runs :
    (k : Key) (rs : List AutomationRun) (m : List (Key × ℕ))
    → count k (count_runs rs m) ≡ live_runs k rs + count k m
unfolding count count_runs live_runs
count-count_runs k [] m = omega arith
count-count_runs k (r ∷ rs) m =
    let h = count-count_runs k rs in
    elim (Bool-cases (is_terminal_run r.state)) [
      | inl t ↦ ground (arith, h m)
      | inr t ↦ ground (arith, h (increment (run_key r) m), key_beq_iff (run_key r) k)
    ]

pub live_runs-append :
    (k : Key) (rs : List AutomationRun) (r : AutomationRun)
    → live_runs k (rs ++ r ∷ []) ≡ (if is_live k r then suc (live_runs k rs) else live_runs k rs)
unfolding live_runs
live_runs-append k [] r = refl
live_runs-append k (q ∷ rs) r = ground (arith, live_runs-append k rs r)

-- What is left of a run, or of all, when version j is restarted.
abbrev Remains : Key → Key → AutomationRun → AutomationRun → Type 0
Remains j k r r' = (is_live j r' ≡ false) × (is_live k r' ≡ true → is_live k r ≡ true)

abbrev pub AllRemain : Key → Key → List AutomationRun → List AutomationRun → Type 0
AllRemain j k rs rs' = (live_runs j rs' ≡ 0) × (live_runs k rs' ≤ live_runs k rs)

module _ {W B : Type 0} (services : Services W B) where
  module _ (timers : List AutomationTimer) (o : AutomationOccurrence) (now : ℕ) (k : Key) where
    abbrev Left : AutomationRun → AutomationRun → Type 0
    Left r r' = Remains (occurrence_key o) k r r'

    cancel_run-Left :
        (r : AutomationRun) (w : W) → Gives (Left r) (cancel_run services timers o now r w)
    unfolding cancel_run is_terminal_run
    cancel_run-Left r w =
        chain-Gives (Left r) (await repository (services.automation_trace r.id recovery_page) w) _
          (λ trace w1.
            let write = cancelling_write services timers o now r (length trace) in
            chain-Gives (Left r) (await repository (services.commit_automation_step write) w1)
              (λ _. give (cancelled_run now r)) (λ _ w2. ground arith))

    cancel_if_live-Left :
        (r : AutomationRun) (n : ℕ) (w : W)
        → Gives (λ e. Left r e.0) (cancel_if_live services timers o now r n w)
    unfolding cancel_if_live
    cancel_if_live-Left r n w =
        let P : AutomationRun × ℕ → Type 0 = λ e. Left r e.0 in
        either-Gives P (is_live (occurrence_key o) r) _ _ w
          (λ b.
            continue_with-Gives (Left r) P (cancel_run services timers o now r w) _
              (cancel_run-Left r w) (λ r' w1 q. q))
          (λ b. (b, λ h. h))

    abbrev AllLeft : List AutomationRun → List AutomationRun × ℕ → Type 0
    AllLeft rs e = AllRemain (occurrence_key o) k rs e.0

    AllLeft-cons :
        (r r' : AutomationRun) (rs : List AutomationRun) (e : List AutomationRun × ℕ) (n : ℕ)
        → Left r r'
        → AllLeft rs e
        → AllLeft (r ∷ rs) (r' ∷ e.0, n)
    unfolding live_runs
    AllLeft-cons r r' rs e n q s = ground arith

    pub cancel_for_restart-AllLeft :
        (rs : List AutomationRun) (n : ℕ) (w : W)
        → Gives (AllLeft rs) (cancel_for_restart services timers o now rs n w)
    unfolding cancel_for_restart live_runs
    cancel_for_restart-AllLeft [] n w = ground arith
    cancel_for_restart-AllLeft (r ∷ rs) n w =
        continue_with-Gives (λ e. Left r e.0) (AllLeft (r ∷ rs))
          (cancel_if_live services timers o now r n w) _ (cancel_if_live-Left r n w)
          (λ (r', n') w1 q.
            continue_with-Gives (AllLeft rs) (AllLeft (r ∷ rs))
              (cancel_for_restart services timers o now rs n' w1) _
              (cancel_for_restart-AllLeft rs n' w1)
              (λ (rs', n'') w2 s. AllLeft-cons r r' rs (rs', n'') n'' q s))
