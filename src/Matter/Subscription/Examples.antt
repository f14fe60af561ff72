-- ===== src/Matter/Subscription/Examples.antt =====
-- Recoveries at concrete inputs, with a calendar of milliseconds and no jitter.
use homemagic.Prelude.{
  length, ok, ℕ, ◌+◌, ◌*◌, ◌≤◌, ◌≡◌, refl, ◌≢◌, ◌⊎◌, inl, inr, true, none, some, List, [], ◌∷◌,
  arith,
}
use homemagic.Matter.Subscription.{
  report_gap, MatterSubscriptionRecoveryPolicy, new_policy, stale, StoredMatterSubscription,
  resubscribe, wait_until, MatterSubscriptionRecoveryOutcome, stale_persisted, gap_read_completed,
  resubscribe_failed, waiting, completed, broken, MatterSubscriptionRecovery, after_loss,
  from_stored, checkpoint,
}
use homemagic.Matter.Subscription.Steps.{Library, next_action, record_outcome, add_millis}
use homemagic.Matter.Subscription.Progress.{round, rounds, rounds-lost, next_action-lost}
use homemagic.Matter.Subscription.Status.{
  wait_for_sleepy_read, matter_subscription_status, guidance, status-next_action,
}

abbrev plain : Library
plain = record { checked_add_millis = λ t n. some (t + n * 1000000); digest = λ s a. 0 }

abbrev two_attempts : MatterSubscriptionRecoveryPolicy
two_attempts = record {
  maximum_subscribe_attempts = 2;
  maximum_gap_reads = 1;
  base_delay_millis = 500;
  maximum_delay_millis = 30000;
  jitter_millis = 250;
  sleepy_read_interval_millis = 60000;
}

two_attempts_valid : new_policy 2 1 500 30000 250 60000 ≡ ok two_attempts
unfolding new_policy
two_attempts_valid = refl

abbrev lost_reports : MatterSubscriptionRecovery
lost_reports = after_loss 4 5 6 (7 ∷ []) 0 1000 report_gap true none two_attempts

-- The machine after a gap read and a failed attempt, of which the delay is half a second.
abbrev paused_at : ℕ → MatterSubscriptionRecovery
paused_at now = record {
  subscription_id = 4;
  fabric_id = 5;
  node_id = 6;
  selection = 7 ∷ [];
  minimum_interval_millis = 0;
  maximum_interval_millis = 1000;
  loss_reason = report_gap;
  sleepy = true;
  last_gap_read_at = some 11;
  gap_reads = 1;
  subscribe_attempts = 1;
  retry_at = some (now + 500000000);
  phase = waiting;
  policy = two_attempts;
}

abbrev first_failure : List (ℕ × MatterSubscriptionRecoveryOutcome)
first_failure = (10, stale_persisted) ∷ (11, gap_read_completed) ∷ (12, resubscribe_failed) ∷ []

first_failure_lem : rounds plain lost_reports first_failure ≡ ok (paused_at 12)
unfolding rounds round record_outcome next_action after_loss
first_failure_lem = refl

rounds-lost_example :
    (3 ≤ 2 + 2)
    × ((paused_at 12).subscribe_attempts ≤ 2)
    × ((paused_at 12).gap_reads ≤ 1)
    × (length first_failure ≡ 2 + 2
        → ((paused_at 12).phase ≡ completed) ⊎ ((paused_at 12).phase ≡ broken))
rounds-lost_example =
    rounds-lost plain 4 5 6 (7 ∷ []) 0 1000 report_gap true none 2 1 500 30000 250 60000
      two_attempts two_attempts_valid (omega arith) first_failure (paused_at 12) first_failure_lem

waits : (next_action plain (paused_at 12) 20).0 ≡ wait_until 500000012
unfolding next_action
waits = refl

next_action-lost_example :
    (next_action plain (next_action plain (paused_at 12) 20).1 500000012).0 ≢ wait_until 30
next_action-lost_example =
    next_action-lost plain 4 5 6 (7 ∷ []) 0 1000 report_gap true none 2 1 500 30000 250 60000
      two_attempts two_attempts_valid (omega arith) first_failure (paused_at 12) 20 500000012
      500000012 30 first_failure_lem waits (omega arith)

abbrev stored_stale : StoredMatterSubscription
stored_stale = record {
  subscription_id = 4;
  fabric_id = 5;
  node_id = 6;
  state = stale;
  report_sequence = 3;
  stale_after = 9;
  recovery = checkpoint (paused_at 12);
  revision = 2;
  updated_at = 12;
}

status-next_action_example :
    (matter_subscription_status plain stored_stale 20).remediation
    ≡ guidance
        (some 500000012)
        (next_action plain (from_stored stored_stale (7 ∷ []) 0 1000 two_attempts) 20).0
unfolding checkpoint
status-next_action_example =
    status-next_action plain stored_stale (7 ∷ []) 0 1000 20 two_attempts (inr refl) (omega arith)
      (omega arith) (omega arith) (inl refl)

-- When the retry of a sleepy device is due, the planner subscribes, and the guidance still waits.
due_plan :
    (next_action plain (from_stored stored_stale (7 ∷ []) 0 1000 two_attempts) 500000012).0
    ≡ resubscribe (record {
      subscription_id = 4;
      fabric_id = 5;
      node_id = 6;
      selection = 7 ∷ [];
      minimum_interval_millis = 0;
      maximum_interval_millis = 1000;
    })
unfolding next_action from_stored checkpoint
due_plan = refl

due_guidance :
    (matter_subscription_status plain stored_stale 500000012).remediation ≡ wait_for_sleepy_read
unfolding matter_subscription_status checkpoint add_millis
due_guidance = refl
