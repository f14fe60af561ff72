-- ===== src/Matter/State.antt =====
-- crates/homemagic-domain/src/matter/state.rs: desired and reported state of a Matter projection.
-- Revisions are 64-bit and percents 8-bit numbers; instants and identities are numbers.
mod Consistency
mod Examples
use homemagic.Prelude.{
  ltb, nat_beq, if◌then◌else◌, Result, ok, err, ◌>>=◌, ◌>>◌, require, ℕ, Bool, true, false, not,
  Option, none, some,
}

-- MatterStateRevision, the number in a revision that `new_revision` accepts.
pub record MatterStateRevision : Type 0 where
  pub value : ℕ

pub data MatterLockState : Type 0 where
  locked unlocked not_fully_locked unknown_lock : MatterLockState

pub data MatterStateValue : Type 0 where
  on_off : Bool → MatterStateValue
  level_percent position_percent : ℕ → MatterStateValue
  lock : MatterLockState → MatterStateValue

pub data MatterStateError : Type 0 where
  zero_revision percent_out_of_range observation_after_receipt : MatterStateError
  confirmed_revision_ahead confirmation_without_desired_state : MatterStateError
  confirmed_convergence_mismatch desired_state_convergence_mismatch : MatterStateError

-- MatterStateRevision::new
unfoldable pub new_revision : ℕ → Result MatterStateRevision MatterStateError
new_revision value = if nat_beq value 0 then err zero_revision else ok (record { value = value })

-- MatterStateValue::validate
unfoldable pub validate : MatterStateValue → Result (Unit {0}) MatterStateError
validate (level_percent value) = require (not (ltb 100 value)) percent_out_of_range
validate (position_percent value) = require (not (ltb 100 value)) percent_out_of_range
validate _ = ok tt

pub record MatterDesiredState : Type 0 where
  pub revision : MatterStateRevision
  pub value : MatterStateValue
  pub requested_at : ℕ

-- MatterDesiredState::new
unfoldable pub new_desired :
    MatterStateRevision → MatterStateValue → ℕ → Result MatterDesiredState MatterStateError
unfolding validate
new_desired revision value requested_at = do
  validate value
  ok (record { revision = revision; value = value; requested_at = requested_at })

pub record MatterReportedState : Type 0 where
  pub value : MatterStateValue
  pub data_version : Option ℕ
  pub report_sequence : ℕ
  pub observed_at : ℕ
  pub received_at : ℕ

-- MatterReportedState::new
unfoldable pub new_reported :
    MatterStateValue → Option ℕ → ℕ → ℕ → ℕ → Result MatterReportedState MatterStateError
unfolding validate
new_reported value data_version report_sequence observed_at received_at = do
  validate value
  require (not (ltb received_at observed_at)) observation_after_receipt
  ok (record {
    value = value;
    data_version = data_version;
    report_sequence = report_sequence;
    observed_at = observed_at;
    received_at = received_at;
  })

pub data MatterStateFreshness : Type 0 where
  unknown fresh stale : MatterStateFreshness

pub data MatterConvergence : Type 0 where
  no_desired_state pending confirmed diverged indeterminate : MatterConvergence

pub data MatterStateUncertainty : Type 0 where
  subscription_lost report_gap read_failed : MatterStateUncertainty
  descriptor_changed in_flight_outcome_unknown : MatterStateUncertainty

pub record MatterProjectedState : Type 0 where
  pub projection_id : ℕ
  pub desired : Option MatterDesiredState
  pub reported : Option MatterReportedState
  pub confirmed_revision : Option MatterStateRevision
  pub freshness : MatterStateFreshness
  pub convergence : MatterConvergence
  pub uncertainty : Option MatterStateUncertainty

-- `confirmed > desired.revision`, on an optional confirmed revision.
abbrev pub ahead : Option MatterStateRevision → MatterStateRevision → Bool
ahead none r = false
ahead (some c) r = ltb r.value c.value

-- The first check of MatterProjectedState::new.
unfoldable pub check_confirmation :
    Option MatterDesiredState → Option MatterStateRevision → Result (Unit {0}) MatterStateError
unfolding validate
check_confirmation (some d) c = do
  validate d.value
  require (not (ahead c d.revision)) confirmed_revision_ahead
check_confirmation none (some c) = err confirmation_without_desired_state
check_confirmation none none = ok tt

-- `confirmed_revision != desired.map(|state| state.revision)`, negated.
abbrev pub same_revision : Option MatterStateRevision → Option MatterDesiredState → Bool
same_revision (some c) (some d) = nat_beq c.value d.revision.value
same_revision none none = true
same_revision _ _ = false

-- The checks of MatterProjectedState::new on the convergence.
abbrev pub check_convergence :
    MatterConvergence
    → Option MatterDesiredState
    → Option MatterStateRevision
    → Result (Unit {0}) MatterStateError
check_convergence confirmed d c = require (same_revision c d) confirmed_convergence_mismatch
check_convergence no_desired_state (some d) c = err desired_state_convergence_mismatch
check_convergence _ d c = ok tt

-- MatterProjectedState::new
unfoldable pub new :
    ℕ
    → Option MatterDesiredState
    → Option MatterReportedState
    → Option MatterStateRevision
    → MatterStateFreshness
    → MatterConvergence
    → Option MatterStateUncertainty
    → Result MatterProjectedState MatterStateError
unfolding check_confirmation
new projection_id desired reported confirmed_revision freshness convergence uncertainty = do
  check_confirmation desired confirmed_revision
  check_convergence convergence desired confirmed_revision
  ok (record {
    projection_id = projection_id;
    desired = desired;
    reported = reported;
    confirmed_revision = confirmed_revision;
    freshness = freshness;
    convergence = convergence;
    uncertainty = uncertainty;
  })
