-- ===== src/Timestamps.antt =====
-- crates/homemagic-domain/src/lifecycle.rs, the first and latest observation of a device.
mod Chronology
mod Examples
use homemagic.Prelude.{ltb, if◌then◌else◌, Result, ok, err, ◌>>=◌, ◌>>◌, ℕ, max, Option, none, some}

pub record DeviceTimestamps : Type 0 where
  pub first_seen : ℕ
  pub last_seen : ℕ
  pub last_success : Option ℕ

pub record TimestampError : Type 0 where
  pub first_seen : ℕ
  pub attempted : ℕ

-- DeviceTimestamps::first_seen
unfoldable pub first_seen_at : ℕ → DeviceTimestamps
first_seen_at at = record { first_seen = at; last_seen = at; last_success = none }

-- DeviceTimestamps::validate
unfoldable pub validate : DeviceTimestamps → ℕ → Result (Unit {0}) TimestampError
validate t at =
    if ltb at t.first_seen
    then err (record { first_seen = t.first_seen; attempted = at })
    else ok tt

-- DeviceTimestamps::record_seen; on an error the receiver is as it was.
unfoldable pub record_seen : DeviceTimestamps → ℕ → Result DeviceTimestamps TimestampError
unfolding validate
record_seen t at = do validate t at; ok (record t { last_seen = max t.last_seen at })

abbrev pub latest : Option ℕ → ℕ → ℕ
latest none at = at
latest (some current) at = max current at

-- DeviceTimestamps::record_success
unfoldable pub record_success : DeviceTimestamps → ℕ → Result DeviceTimestamps TimestampError
unfolding record_seen
record_success t at = do
  t' ← record_seen t at
  ok (record t' { last_success = some (latest t'.last_success at) })
