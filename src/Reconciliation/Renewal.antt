-- ===== src/Reconciliation/Renewal.antt =====
-- The record that a candidate leaves, and how an update or an enrollment is refused.
use homemagic.Prelude.{
  ◌≡◌, List, ok, arith, Result, map_err, >>=-ok, ℕ, err, ◌≢◌, min, inl, inr, >>=-err, map_err-err,
}
use homemagic.Lifecycle.{enrolled, online}
use homemagic.Timestamps.{
  record_seen, record_success, first_seen_at, TimestampError, DeviceTimestamps,
}
use homemagic.Event.{CausationMetadata, DomainEvent}
use homemagic.Device.{
  DiscoveryCandidate, DeviceRecord, transition as transition_record, replace_snapshot,
  candidate as candidate_record,
}
use homemagic.Reconciliation.{Library, ReconciliationError, refused_timestamp}
use homemagic.Reconciliation.Record.{
  bring_online, enroll_with, enroll_again, update_record, enroll_new,
}

module _ {P J : Type 0} where
  -- Enrolled, online and with what the candidate says of the device's native identity.
  pub record IsPresent (c : DiscoveryCandidate P J) (r : DeviceRecord P J) : Type 0 where
    pub lifecycle : r.lifecycle ≡ enrolled
    pub availability : r.availability.state ≡ online
    pub native_id : r.snapshot.native_id ≡ c.snapshot.native_id

  -- What an update leaves as it is.
  pub record IsKept (r r' : DeviceRecord P J) : Type 0 where
    pub id : r'.snapshot.id ≡ r.snapshot.id
    pub integration_id : r'.integration_id ≡ r.integration_id
    pub installation_id : r'.installation_id ≡ r.installation_id
    pub aliases : r'.aliases ≡ r.aliases
    pub spaces : r'.spaces ≡ r.spaces
    pub first_seen : r'.timestamps.first_seen ≡ r.timestamps.first_seen

abbrev seen_at : DeviceTimestamps → ℕ → Result DeviceTimestamps ReconciliationError
seen_at t at = map_err refused_timestamp (record_seen t at)

abbrev success_at : DeviceTimestamps → ℕ → Result DeviceTimestamps ReconciliationError
success_at t at = map_err refused_timestamp (record_success t at)

seen_at-first_seen :
    (t t' : DeviceTimestamps) (at : ℕ) → seen_at t at ≡ ok t' → t'.first_seen ≡ t.first_seen
unfolding record_seen
seen_at-first_seen t t' at h = ground arith

success_at-first_seen :
    (t t' : DeviceTimestamps) (at : ℕ) → success_at t at ≡ ok t' → t'.first_seen ≡ t.first_seen
unfolding record_success
success_at-first_seen t t' at h = ground arith

module _ {P J : Type 0} (lib : Library P J) where
  bring_online-IsKept :
      (r r' : DeviceRecord P J) (k : CausationMetadata) (ev ev' : List DomainEvent)
      → bring_online lib r k ev ≡ (r', ev')
      → (r'.availability.state ≡ online)
        × IsKept r r'
        × (r'.lifecycle ≡ r.lifecycle)
        × (r'.snapshot.native_id ≡ r.snapshot.native_id)
  unfolding bring_online
  bring_online-IsKept r r' k ev ev' h = ground arith

  enroll_again-IsKept :
      (r r' : DeviceRecord P J) (k : CausationMetadata) (ev ev' : List DomainEvent)
      → enroll_again lib r k ev ≡ ok (r', ev')
      → (r'.lifecycle ≡ enrolled) × IsKept r r' × (r'.snapshot.native_id ≡ r.snapshot.native_id)
  unfolding enroll_again enroll_with transition_record
  enroll_again-IsKept r r' k ev ev' h = ground arith

  -- An update that succeeds leaves the device present and keeps what the operator has set.
  pub update_record-IsKept :
      (r r' : DeviceRecord P J) (c : DiscoveryCandidate P J) (k : CausationMetadata)
      (ev ev' : List DomainEvent)
      → update_record lib r c k ev ≡ ok (r', ev')
      → IsPresent c r' × IsKept r r'
  unfolding update_record replace_snapshot
  update_record-IsKept r r' c k ev ev' h =
      let replaced = replace_snapshot lib.descriptor r c.snapshot in
      let (seen, a, h1) = >>=-ok (seen_at r.timestamps c.discovered_at) _ h in
      let (read, b, h2) = >>=-ok (success_at seen replaced.snapshot.observed_at) _ h1 in
      let timed = record replaced { timestamps = read } in
      let ((r1, ev1), d, h3) = >>=-ok (enroll_again lib timed k ev) _ h2 in
      let x = enroll_again-IsKept timed r1 k ev ev1 d in
      let y = bring_online-IsKept r1 r' k ev1 ev' (ground arith) in
      let f = seen_at-first_seen r.timestamps seen c.discovered_at a in
      let g = success_at-first_seen seen read c.snapshot.observed_at b in ground arith

module _ {P J : Type 0} (lib : Library P J) where
  -- A new candidate is always enrolled.
  pub enroll_new-ok :
      (c : DiscoveryCandidate P J) (k : CausationMetadata) (ev : List DomainEvent)
      (e : ReconciliationError)
      → enroll_new lib c k ev ≢ err e
  unfolding enroll_new transition_record record_success first_seen_at candidate_record
  enroll_new-ok c k ev e h = ground arith

  pub enroll_new-IsPresent :
      (r : DeviceRecord P J) (c : DiscoveryCandidate P J) (k : CausationMetadata)
      (ev ev' : List DomainEvent)
      → enroll_new lib c k ev ≡ ok (r, ev')
      → IsPresent c r × (r.snapshot.id ≡ c.snapshot.id) × (r.integration_id ≡ c.integration_id)
  unfolding enroll_new transition_record candidate_record
  enroll_new-IsPresent r c k ev ev' h =
      let (t, a, h') =
        >>=-ok
          (success_at (first_seen_at (min c.discovered_at c.snapshot.observed_at))
            c.snapshot.observed_at)
          _ h in
      ground arith

  enroll_again-ok :
      (r : DeviceRecord P J) (k : CausationMetadata) (ev : List DomainEvent)
      (e : ReconciliationError)
      → enroll_again lib r k ev ≢ err e
  unfolding enroll_again enroll_with transition_record
  enroll_again-ok r k ev e h = ground arith

  -- An update is refused for an instant before the first observation only.
  pub update_record-error :
      (r : DeviceRecord P J) (c : DiscoveryCandidate P J) (k : CausationMetadata)
      (ev : List DomainEvent) (e : ReconciliationError)
      → update_record lib r c k ev ≡ err e
      → (t : TimestampError) × (e ≡ refused_timestamp t)
  unfolding update_record replace_snapshot
  update_record-error r c k ev e h =
      let timed : DeviceTimestamps → DeviceRecord P J =
        λ read. record (replace_snapshot lib.descriptor r c.snapshot) { timestamps = read } in
      elim (>>=-err (seen_at r.timestamps c.discovered_at) _ h) [
        | inl a ↦ map_err-err refused_timestamp (record_seen r.timestamps c.discovered_at) a
        | inr (seen, _, h1) ↦ elim (>>=-err (success_at seen c.snapshot.observed_at) _ h1) [
          | inl b ↦ map_err-err refused_timestamp (record_success seen c.snapshot.observed_at) b
          | inr (read, _, h2) ↦ elim (>>=-err (enroll_again lib (timed read) k ev) _ h2) [
            | inl d ↦ absurd (enroll_again-ok (timed read) k ev e d)
            | inr (_, _, h3) ↦ absurd (cc)
          ]
        ]
      ]
