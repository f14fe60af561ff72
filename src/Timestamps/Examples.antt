-- ===== src/Timestamps/Examples.antt =====
-- Timestamps at concrete inputs.
use homemagic.Prelude.{[], ◌∷◌}
use homemagic.Timestamps.{TimestampError, first_seen_at}
use homemagic.Timestamps.Chronology.{
  IsChronological, seen, succeeded, reports, reports-IsChronological,
}

reports-IsChronological_example :
    IsChronological (reports (first_seen_at 10) (succeeded 14 ∷ seen 3 ∷ seen 12 ∷ []))
reports-IsChronological_example = reports-IsChronological 10 (succeeded 14 ∷ seen 3 ∷ seen 12 ∷ [])

abbrev too_early : TimestampError
too_early = record { first_seen = 10; attempted = 3 }
