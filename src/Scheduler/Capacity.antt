-- ===== src/Scheduler/Capacity.antt =====
-- The limits of the run modes, which the recovery keeps.
use homemagic.Prelude.{
  if◌then◌else◌, give, await, Gives, continue_with-Gives, lift_error-Gives, chain-Gives, ℕ, suc,
  ◌+◌, ◌≤◌, ◌≡◌, refl, ap, Option, none, some, List, arith,
}
use homemagic.Automation.{AutomationRunMode, single, restart, queued, parallel}
use homemagic.Scheduler.{
  AutomationOccurrence, AutomationRun, ActiveAutomationVersion, repository, Services,
}
use homemagic.Scheduler.Admission.{
  accept, defer, admission, Key, key_beq, count, set_count, run_key, occurrence_key,
}
use homemagic.Scheduler.Recovery.{new_run, create_new_run, create_missing, create_run}
use homemagic.Scheduler.Settlement.{Pass, push_run, add_run, start_run}
use homemagic.Scheduler.Live.{live_runs, live_runs-append}

-- How many runs of a version may be live, and how many of its occurrences may wait.
unfoldable pub run_limit : AutomationRunMode → ℕ
run_limit single = 1
run_limit restart = 1
run_limit (queued capacity) = 1
run_limit (parallel maximum) = maximum

unfoldable pub waiting_limit : AutomationRunMode → ℕ
waiting_limit (queued capacity) = capacity
waiting_limit _ = 0

-- The count that is left when room is made.
unfoldable pub room : AutomationRunMode → ℕ → ℕ
room restart n = 0
room _ n = n

pub admission_accept :
    (m : AutomationRunMode) (a q : ℕ)
    → admission m a q ≡ accept
    → a ≤ run_limit m
    → suc (room m a) ≤ run_limit m
unfolding admission room run_limit
admission_accept m a q h l = ground arith

pub admission_defer :
    (m : AutomationRunMode) (a q : ℕ) → admission m a q ≡ defer → suc q ≤ waiting_limit m
unfolding admission waiting_limit
admission_defer m a q h = ground arith

-- The runs, counts and waiting occurrences of a version are bounded.
pub record IsWithin (k : Key) (a b : ℕ) (p : Pass) : Type 0 where
  pub live : live_runs k p.active_runs ≤ count k p.active_counts
  pub active : count k p.active_counts ≤ a
  pub waiting : count k p.queued_counts ≤ b

pub count-increment :
    (j k : Key) (n : ℕ) (m : List (Key × ℕ))
    → count k (set_count j n m) ≡ (if key_beq j k then n else count k m)
unfolding count
count-increment j k n m = refl

module _ {W B : Type 0} (services : Services W B) where
  -- A run that is stored under the identity of an occurrence is a run of its version.
  abbrev Found : AutomationOccurrence → Option AutomationRun → Type 0
  Found o none = Unit {0}
  Found o (some r) = run_key r ≡ occurrence_key o

  abbrev pub Belongs : AutomationOccurrence → Type 0
  Belongs o = (w : W) → Gives (Found o) (services.automation_run (services.from_occurrence o.id) w)

  module _ (v : ActiveAutomationVersion) (o : AutomationOccurrence) (now : ℕ) where
    abbrev IsOwn : AutomationRun → Type 0
    IsOwn r = run_key r ≡ occurrence_key o

    create_new_run-IsOwn : (w : W) → Gives IsOwn (create_new_run services v o now w)
    unfolding create_new_run
    create_new_run-IsOwn w =
        chain-Gives IsOwn
          (await repository (services.create_automation_run (new_run services v o now)) w)
          (λ _. give (new_run services v o now)) (λ _ w1. refl)

    create_missing-IsOwn :
        (f : Option AutomationRun) (w : W)
        → Found o f
        → Gives IsOwn (create_missing services f v o now w)
    unfolding create_missing
    create_missing-IsOwn none w q = create_new_run-IsOwn w
    create_missing-IsOwn (some r) w q = q

    create_run-IsOwn : Belongs o → (w : W) → Gives IsOwn (create_run services v o now w)
    unfolding create_run
    create_run-IsOwn h w =
        let found = services.automation_run (services.from_occurrence o.id) in
        continue_with-Gives (Found o) IsOwn (await repository found w)
          (λ f. create_missing services f v o now)
          (lift_error-Gives (Found o) repository (found w) (h w)) create_missing-IsOwn

    -- A run of another version changes nothing here.
    unfoldable pub one : Key → ℕ
    one k = if key_beq (occurrence_key o) k then 1 else 0

    abbrev pub Added : Key → Pass → Pass → Type 0
    Added k p p' =
        (live_runs k p'.active_runs ≤ live_runs k p.active_runs + one k)
        × (p'.active_counts ≡ p.active_counts)
        × (p'.queued_counts ≡ p.queued_counts)

    push_run-Added :
        (k : Key) (rs : List AutomationRun) (r : AutomationRun)
        → IsOwn r
        → live_runs k (push_run r rs) ≤ live_runs k rs + one k
    unfolding push_run one
    push_run-Added k rs r q =
        let own = ap (λ j. key_beq j k) q in ground (arith, live_runs-append k rs r)

    pub start_run-Added :
        (k : Key) (p : Pass) (w : W)
        → Belongs o
        → Gives (Added k p) (start_run services v o now p w)
    unfolding start_run
    start_run-Added k p w h =
        continue_with-Gives IsOwn (Added k p) (create_run services v o now w)
          (λ r. give (add_run r p)) (create_run-IsOwn h w)
          (λ r w1 q. (push_run-Added k p.active_runs r q, refl, refl))
