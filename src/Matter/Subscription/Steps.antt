-- ===== src/Matter/Subscription/Steps.antt =====
-- crates/homemagic-application/src/matter_subscription.rs: the next action of a recovery, its
-- outcome and the delay before a retry.
use homemagic.Prelude.{
  ltb, leb, nat_beq, if◌then◌else◌, Result, ok, err, ℕ, ◌+◌, ◌-◌, ◌*◌, ◌%◌, ◌^◌, min, Bool, false,
  ◌||◌, not, Option, none, some,
}
use homemagic.Matter.Subscription.{
  MatterSubscriptionRecoveryPolicy, MatterSubscriptionRequest, new_request,
  MatterSubscriptionRecoveryAction, mark_stale, gap_read, resubscribe, wait_until, repair_needed,
  complete, MatterSubscriptionRecoveryOutcome, stale_persisted, gap_read_completed, gap_read_failed,
  resubscribed, resubscribe_failed, RecoveryPhase, marking, reading, resubscribing, waiting,
  completed, broken, MatterSubscriptionRecovery, MatterSubscriptionRecoveryError,
  unexpected_outcome, saturating_suc8, u64_max, i64_max, is_before,
}

-- DateTime::checked_add_signed at a count of milliseconds, and the first eight bytes of the hash of
-- a subscription and an attempt.
pub record Library : Type 0 where
  pub checked_add_millis : ℕ → ℕ → Option ℕ
  pub digest : ℕ → ℕ → ℕ

abbrev pub unwrap_or : Option ℕ → ℕ → ℕ
unwrap_or none d = d
unwrap_or (some a) d = a

-- `request.map_or(RepairRequired, Resubscribe)`
abbrev pub request_action : Option MatterSubscriptionRequest → MatterSubscriptionRecoveryAction
request_action none = repair_needed
request_action (some r) = resubscribe r

-- The phase that next_action turns to: a wait that is over ends in a new attempt.
unfoldable pub resumed : RecoveryPhase → Option ℕ → ℕ → RecoveryPhase
resumed waiting retry_at now = if is_before now retry_at then waiting else resubscribing
resumed phase retry_at now = phase

module _ (library : Library) where
  unfoldable pub add_millis : ℕ → ℕ → Option ℕ
  add_millis time millis =
      if ltb i64_max millis then none else library.checked_add_millis time millis

  unfoldable pub deterministic_jitter : ℕ → ℕ → ℕ → ℕ
  deterministic_jitter subscription_id attempt maximum =
      if nat_beq maximum 0
      then 0
      else library.digest subscription_id attempt % min (maximum + 1) u64_max

  -- The delay that both functions below compute.
  unfoldable pub delay_millis : MatterSubscriptionRecoveryPolicy → ℕ → ℕ → ℕ
  unfolding deterministic_jitter
  delay_millis policy subscription_id attempt =
      let base = min (policy.base_delay_millis * 2 ^ min (attempt - 1) 31) u64_max in
      let jitter = deterministic_jitter subscription_id attempt policy.jitter_millis in
      min (min (base + jitter) u64_max) policy.maximum_delay_millis

  -- matter_subscription_retry_at
  unfoldable pub matter_subscription_retry_at :
      ℕ → ℕ → ℕ → MatterSubscriptionRecoveryPolicy → Option ℕ
  unfolding add_millis delay_millis
  matter_subscription_retry_at subscription_id attempt now policy =
      add_millis now (delay_millis policy subscription_id attempt)

  -- MatterSubscriptionRecovery::retry_delay_millis
  unfoldable pub retry_delay_millis : MatterSubscriptionRecovery → ℕ
  unfolding delay_millis
  retry_delay_millis m = delay_millis m.policy m.subscription_id m.subscribe_attempts

  -- The earliest instant of the next gap read of a sleepy device.
  unfoldable pub allowed_at : MatterSubscriptionRecovery → Option ℕ
  unfolding add_millis
  allowed_at m = elim m.last_gap_read_at [
    | none ↦ none
    | some last ↦ add_millis last m.policy.sleepy_read_interval_millis
  ]

  -- MatterSubscriptionRecovery::gap_read_allowed
  unfoldable pub gap_read_allowed : MatterSubscriptionRecovery → ℕ → Bool
  unfolding allowed_at
  gap_read_allowed m now =
      if leb m.policy.maximum_gap_reads m.gap_reads
      then false
      else not m.sleepy || not (is_before now (allowed_at m))

  -- The match of next_action on the phase.
  unfoldable pub action :
      RecoveryPhase → MatterSubscriptionRecovery → ℕ → MatterSubscriptionRecoveryAction
  unfolding gap_read_allowed new_request
  action marking m now = mark_stale m.loss_reason
  action reading m now =
      if gap_read_allowed m now
      then gap_read
          (record { fabric_id = m.fabric_id; node_id = m.node_id; selection = m.selection })
      else wait_until (unwrap_or (allowed_at m) now)
  action resubscribing m now = request_action (
      new_request m.subscription_id m.fabric_id m.node_id m.selection m.minimum_interval_millis
        m.maximum_interval_millis)
  action waiting m now = wait_until now
  action completed m now = complete
  action broken m now = repair_needed

  -- MatterSubscriptionRecovery::next_action, with the machine that it leaves.
  unfoldable pub next_action :
      MatterSubscriptionRecovery → ℕ → MatterSubscriptionRecoveryAction × MatterSubscriptionRecovery
  unfolding action resumed
  next_action m now =
      let phase = resumed m.phase m.retry_at now in
      let m' = record m { phase = phase } in
      elim phase [
        | waiting ↦ (wait_until (unwrap_or m.retry_at now), m')
        | other ↦ (action other m' now, m')
      ]

  -- The match of record_outcome.
  unfoldable pub settle :
      RecoveryPhase
      → MatterSubscriptionRecoveryOutcome
      → MatterSubscriptionRecovery
      → ℕ
      → Result MatterSubscriptionRecovery MatterSubscriptionRecoveryError
  unfolding retry_delay_millis add_millis
  settle marking stale_persisted m now = ok (record m { phase = reading })
  settle reading gap_read_completed m now = ok (record m {
    gap_reads = saturating_suc8 m.gap_reads;
    last_gap_read_at = some now;
    phase = resubscribing;
  })
  settle reading gap_read_failed m now = ok (record m {
    gap_reads = saturating_suc8 m.gap_reads;
    last_gap_read_at = some now;
    phase = resubscribing;
  })
  settle resubscribing resubscribed m now =
      ok (record m { gap_reads = 0; subscribe_attempts = 0; retry_at = none; phase = completed })
  settle resubscribing resubscribe_failed m now =
      let m' = record m { subscribe_attempts = saturating_suc8 m.subscribe_attempts } in
      if leb m.policy.maximum_subscribe_attempts m'.subscribe_attempts
      then ok (record m' { phase = broken })
      else ok (record m' { retry_at = add_millis now (retry_delay_millis m'); phase = waiting })
  settle _ _ m now = err unexpected_outcome

  -- MatterSubscriptionRecovery::record_outcome
  unfoldable pub record_outcome :
      MatterSubscriptionRecovery
      → MatterSubscriptionRecoveryOutcome
      → ℕ
      → Result MatterSubscriptionRecovery MatterSubscriptionRecoveryError
  unfolding settle
  record_outcome m outcome now = settle m.phase outcome m now
