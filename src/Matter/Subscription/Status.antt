-- ===== src/Matter/Subscription/Status.antt =====
-- crates/homemagic-application/src/matter_subscription.rs, matter_subscription_status: the
-- diagnostic view of a stored subscription, and how it agrees with the planner.
use homemagic.Prelude.{
  leb, nat_beq, if◌then◌else◌, ℕ, ◌<◌, ◌≡◌, ◌⊎◌, Bool, true, false, ◌||◌, not, Option, none, some,
  List, arith,
}
use homemagic.Matter.Subscription.{
  MatterSubscriptionRecoveryPolicy, StoredMatterSubscriptionState, pending, established, stale,
  repair_required, StoredMatterSubscriptionRecovery, StoredMatterSubscription,
  MatterSubscriptionRecoveryAction, mark_stale, gap_read, resubscribe, wait_until, repair_needed,
  complete, from_stored, is_before,
}
use homemagic.Matter.Subscription.Steps.{Library, add_millis, allowed_at, next_action}

pub data MatterSubscriptionDiagnosticState : Type 0 where
  working late paused exhausted needs_repair : MatterSubscriptionDiagnosticState

pub data MatterSubscriptionRemediation : Type 0 where
  nothing wait_for_retry wait_for_sleepy_read : MatterSubscriptionRemediation
  request_gap_repair request_resubscribe : MatterSubscriptionRemediation
  retry_budget_exhausted explicit_repair_required : MatterSubscriptionRemediation

pub record MatterSubscriptionRecoveryStatus : Type 0 where
  pub state : MatterSubscriptionDiagnosticState
  pub remediation : MatterSubscriptionRemediation
  pub is_stale : Bool
  pub subscribe_attempts : ℕ
  pub maximum_subscribe_attempts : ℕ
  pub gap_reads : ℕ
  pub maximum_gap_reads : ℕ
  pub retry_at : Option ℕ
  pub next_gap_read_at : Option ℕ

abbrev pub is_established : StoredMatterSubscriptionState → Bool
is_established established = true
is_established _ = false

abbrev pub is_repair_required : StoredMatterSubscriptionState → Bool
is_repair_required repair_required = true
is_repair_required _ = false

-- The guidance that an action of the planner deserves, by whether it waits for a retry.
abbrev pub guidance : Option ℕ → MatterSubscriptionRecoveryAction → MatterSubscriptionRemediation
guidance (some _) (wait_until _) = wait_for_retry
guidance none (wait_until _) = wait_for_sleepy_read
guidance _ (gap_read _) = request_gap_repair
guidance _ (resubscribe _) = request_resubscribe
guidance _ repair_needed = explicit_repair_required
guidance _ (mark_stale _) = nothing
guidance _ complete = nothing

module _ (library : Library) where
  -- `next_gap_read_at`
  unfoldable pub next_gap_read : StoredMatterSubscriptionRecovery → Option ℕ
  next_gap_read r =
      if r.sleepy
      then elim r.last_gap_read_at [
        | none ↦ none
        | some last ↦ add_millis library last r.sleepy_read_interval_millis
      ]
      else none

  -- The chain of tests.
  unfoldable pub diagnose :
      StoredMatterSubscription
      → ℕ
      → Bool
      → MatterSubscriptionDiagnosticState × MatterSubscriptionRemediation
  unfolding next_gap_read
  diagnose stored now stale_now =
      let r = stored.recovery in
      if is_repair_required stored.state
        || (nat_beq r.maximum_subscribe_attempts 0
            || nat_beq r.maximum_gap_reads 0
            || nat_beq r.sleepy_read_interval_millis 0)
      then (needs_repair, explicit_repair_required)
      else if not stale_now
      then (working, nothing)
      else if leb r.maximum_subscribe_attempts r.subscribe_attempts
      then (exhausted, retry_budget_exhausted)
      else if is_before now r.retry_at
      then (paused, wait_for_retry)
      else if is_before now (next_gap_read r)
      then (paused, wait_for_sleepy_read)
      else if leb r.maximum_gap_reads r.gap_reads
      then (late, request_resubscribe)
      else (late, request_gap_repair)

  -- matter_subscription_status
  unfoldable pub matter_subscription_status :
      StoredMatterSubscription → ℕ → MatterSubscriptionRecoveryStatus
  unfolding diagnose
  matter_subscription_status stored now =
      let r = stored.recovery in
      let is_stale = not (is_established stored.state) || leb stored.stale_after now in
      let (state, remediation) = diagnose stored now is_stale in
      record {
        state = state;
        remediation = remediation;
        is_stale = is_stale;
        subscribe_attempts = r.subscribe_attempts;
        maximum_subscribe_attempts = r.maximum_subscribe_attempts;
        gap_reads = r.gap_reads;
        maximum_gap_reads = r.maximum_gap_reads;
        retry_at = r.retry_at;
        next_gap_read_at = next_gap_read r;
      }

  -- For a stored subscription that waits for its retry, or that has none to wait for and has gap
  -- reads left, with attempts left and a valid budget, the guidance names the action that the
  -- planner restored from it would take at that instant.
  pub status-next_action :
      (stored : StoredMatterSubscription) (selection : List ℕ) (minimum maximum now : ℕ)
      (policy : MatterSubscriptionRecoveryPolicy)
      → (stored.state ≡ pending) ⊎ (stored.state ≡ stale)
      → stored.recovery.subscribe_attempts < stored.recovery.maximum_subscribe_attempts
      → 0 < stored.recovery.sleepy_read_interval_millis
      → 0 < stored.recovery.maximum_gap_reads
      → (is_before now stored.recovery.retry_at ≡ true)
        ⊎ ((stored.recovery.retry_at ≡ none)
            × (stored.recovery.gap_reads < stored.recovery.maximum_gap_reads))
      → (matter_subscription_status stored now).remediation
        ≡ guidance stored.recovery.retry_at
            (next_action library (from_stored stored selection minimum maximum policy) now).0
  unfolding matter_subscription_status next_action from_stored allowed_at
  status-next_action stored selection minimum maximum now policy s a i g w = ground arith
