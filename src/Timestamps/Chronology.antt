-- ===== src/Timestamps/Chronology.antt =====
-- Histories of reports on the timestamps of a device.
use homemagic.Prelude.{ok, err, ℕ, ◌≤◌, ◌<◌, ◌≡◌, ◌↔◌, Option, none, some, List, [], ◌∷◌, arith}
use homemagic.Timestamps.{
  DeviceTimestamps, TimestampError, first_seen_at, record_seen, record_success,
}

-- The latest success lies between the first and the latest observation.
abbrev pub InWindow : DeviceTimestamps → Option ℕ → Type 0
InWindow t none = Unit {0}
InWindow t (some at) = (t.first_seen ≤ at) × (at ≤ t.last_seen)

pub record IsChronological (t : DeviceTimestamps) : Type 0 where
  pub ordered : t.first_seen ≤ t.last_seen
  pub success : InWindow t t.last_success

-- What a device reports: that it was seen, or that it was read with success.
pub data Report : Type 0 where
  seen succeeded : ℕ → Report

unfoldable pub report : DeviceTimestamps → Report → DeviceTimestamps
report t (seen at) = elim (record_seen t at) [ ok t' ↦ t' | err _ ↦ t ]
report t (succeeded at) = elim (record_success t at) [ ok t' ↦ t' | err _ ↦ t ]

unfoldable pub reports : DeviceTimestamps → List Report → DeviceTimestamps
reports t [] = t
reports t (r ∷ rs) = reports (report t r) rs

report-IsChronological :
    (t : DeviceTimestamps) (r : Report) → IsChronological t → IsChronological (report t r)
unfolding report record_seen record_success
report-IsChronological t (seen at) v = ground arith
report-IsChronological t (succeeded at) v = ground arith

reports_keep :
    (t : DeviceTimestamps) (rs : List Report) → IsChronological t → IsChronological (reports t rs)
unfolding reports
reports_keep t [] v = v
reports_keep t (r ∷ rs) v = reports_keep (report t r) rs (report-IsChronological t r v)

-- From its first observation on, and whatever reports follow in whatever order, also refused ones,
-- a device's latest success lies between its first and its latest observation.
pub reports-IsChronological :
    (at : ℕ) (rs : List Report) → IsChronological (reports (first_seen_at at) rs)
unfolding first_seen_at
reports-IsChronological at rs = reports_keep (first_seen_at at) rs (ground arith)

-- Two reports leave the same timestamps in either order, so late delivery does no harm.
report_comm : (t : DeviceTimestamps) (r q : Report) → report (report t r) q ≡ report (report t q) r
unfolding report record_seen record_success
report_comm t (seen a) (seen b) = ground arith
report_comm t (seen a) (succeeded b) = ground arith
report_comm t (succeeded a) (seen b) = ground arith
report_comm t (succeeded a) (succeeded b) = ground arith

-- A report is refused exactly when it lies before the first observation; the refusal names both
-- instants.
record_success_error :
    (t : DeviceTimestamps) (at : ℕ) (e : TimestampError)
    → (record_success t at ≡ err e)
      ↔ ((at < t.first_seen) × (e.first_seen ≡ t.first_seen) × (e.attempted ≡ at))
unfolding record_success
record_success_error t at e = ground arith
