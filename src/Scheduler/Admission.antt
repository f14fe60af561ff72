-- ===== src/Scheduler/Admission.antt =====
-- crates/homemagic-application/src/automation_scheduler.rs: admission by run mode, and the counts of
-- runs and queued occurrences of each version.
use homemagic.Prelude.{
  ltb, nat_beq, if◌then◌else◌, ℕ, suc, Bool, ◌&&◌, Option, none, some, List, [], ◌∷◌,
}
use homemagic.Automation.{AutomationRunMode, single, restart, queued, parallel, is_terminal_run}
use homemagic.Scheduler.{AutomationRun, AutomationOccurrence, ActiveAutomationVersion}

pub data Admission : Type 0 where
  accept defer suppress : Admission

-- admission
unfoldable pub admission : AutomationRunMode → ℕ → ℕ → Admission
admission single active waiting = if nat_beq active 0 then accept else suppress
admission restart active waiting = accept
admission (queued capacity) active waiting =
    if nat_beq active 0 then accept else if ltb waiting capacity then defer else suppress
admission (parallel maximum) active waiting = if ltb active maximum then accept else suppress

-- An automation and its version, and a map from them to counts, of which the first entry holds.
abbrev pub Key : Type 0
Key = ℕ × ℕ

unfoldable pub key_beq : Key → Key → Bool
key_beq (a, v) (b, w) = nat_beq a b && nat_beq v w

-- `*counts.get(&key).unwrap_or(&0)`
unfoldable pub count : Key → List (Key × ℕ) → ℕ
count k [] = 0
count k ((j, n) ∷ m) = if key_beq j k then n else count k m

abbrev pub set_count : Key → ℕ → List (Key × ℕ) → List (Key × ℕ)
set_count k n m = (k, n) ∷ m

-- `*counts.entry(key).or_default() += 1`
abbrev pub increment : Key → List (Key × ℕ) → List (Key × ℕ)
increment k m = set_count k (suc (count k m)) m

abbrev pub run_key : AutomationRun → Key
run_key r = (r.automation_id, r.version)

abbrev pub occurrence_key : AutomationOccurrence → Key
occurrence_key o = (o.automation_id, o.version)

abbrev pub version_key : ActiveAutomationVersion → Key
version_key v = (v.automation_id, v.version)

-- The loop that counts the active runs.
unfoldable pub count_runs : List AutomationRun → List (Key × ℕ) → List (Key × ℕ)
count_runs [] m = m
count_runs (r ∷ rs) m =
    count_runs rs (if is_terminal_run r.state then m else increment (run_key r) m)

-- `active.iter().find(...)`
unfoldable pub find_version : Key → List ActiveAutomationVersion → Option ActiveAutomationVersion
find_version k [] = none
find_version k (v ∷ vs) = if key_beq (version_key v) k then some v else find_version k vs
