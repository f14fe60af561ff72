-- ===== src/Reconciliation/Failures.antt =====
-- With what a reconciliation can fail.
use homemagic.Prelude.{
  nat_beq, nat_beq_iff, Bool-cases, Option-cases, All, ok, err, >>=-ok, >>=-err, Text, ℕ, ◌≡◌, refl,
  sym, subst, ◌≢◌, ◌⊎◌, inl, inr, some, List, [], ◌∷◌, arith,
}
use homemagic.Event.{CausationMetadata}
use homemagic.Timestamps.{TimestampError}
use homemagic.Device.{DiscoveryCandidate, DeviceRecord}
use homemagic.Repository.Upserts.{All-insert_by}
use homemagic.Reconciliation.{
  Library, ReconciliationError, refused_timestamp, Progress, system_causation, native_get,
  insert_record, start,
}
use homemagic.Reconciliation.Record.{update_record, enroll_new}
use homemagic.Reconciliation.Rounds.{
  collide, update_known, meet_known, meet_new, meet, round, rounds, reconcile,
}
use homemagic.Reconciliation.Index.{native_get-cons}
use homemagic.Reconciliation.Steps.{
  taken, IsGenuine, known_id, kept_at, Step, collides, updates, enrolls, round-Step,
}
use homemagic.Reconciliation.Renewal.{enroll_new-ok, enroll_new-IsPresent, update_record-error}
use homemagic.Reconciliation.Linked.{IsDerived, IsKeyed, kept_at-insert, IsLinked, start-IsLinked}

module _ {P J : Type 0} (lib : Library P J) where
  kept_at-found :
      (l l' : Progress P J) (r : DeviceRecord P J) (id : ℕ)
      → l'.records ≡ insert_record r l.records
      → ((e : ℕ × DeviceRecord P J) × (kept_at id l ≡ some e)) ⊎ (r.snapshot.id ≡ id)
      → (e : ℕ × DeviceRecord P J) × (kept_at id l' ≡ some e)
  kept_at-found l l' r id e h =
      let f = kept_at-insert l l' r id e in
      let b = nat_beq_iff r.snapshot.id id in
      elim (Bool-cases (nat_beq r.snapshot.id id)) [
        | inl q ↦ ((r.snapshot.id, r), ground arith)
        | inr q ↦ elim h [ inl (o, w) ↦ (o, ground arith) | inr w ↦ absurd (ground arith) ]
      ]

  -- A new or renewed record is put in its place, and the index leads to it or to where it led.
  insert-IsLinked :
      (l l' : Progress P J) (r : DeviceRecord P J)
      → IsLinked lib l
      → l'.records ≡ insert_record r l.records
      → ((i : ℕ) (n : Text) (id : ℕ)
          → native_get i n l'.native_index ≡ some id
          → (native_get i n l.native_index ≡ some id)
            ⊎ ((id ≡ lib.from_integration i n) × (r.snapshot.id ≡ id)))
      → IsLinked lib l'
  insert-IsLinked l l' r v er ei = record {
    keyed =
        subst (All IsKeyed) (sym er)
          (All-insert_by (λ e. e.0) IsKeyed (r.snapshot.id, r) l.records refl v.keyed);
    indexed = λ i n id h. elim (ei i n id h) [
      | inl o ↦ let (d, e) = v.indexed i n id o in (d, kept_at-found l l' r id er (inl e))
      | inr (d, q) ↦ (d, kept_at-found l l' r id er (inr q))
    ];
  }

  collide-IsLinked :
      (l : Progress P J) (c : DiscoveryCandidate P J) (id : ℕ)
      → IsLinked lib l
      → IsLinked lib (collide lib (taken l c) c id)
  unfolding collide
  collide-IsLinked l c id v = record { keyed = v.keyed; indexed = v.indexed }

  update_known-IsLinked :
      (l l' : Progress P J) (c : DiscoveryCandidate P J) (k : CausationMetadata)
      (r : DeviceRecord P J)
      → IsLinked lib l
      → update_known lib (taken l c) c k r ≡ ok l'
      → IsLinked lib l'
  unfolding update_known
  update_known-IsLinked l l' c k r v h =
      let ((r', ev), e, e') = >>=-ok (update_record lib r c k l.events) _ h in
      insert-IsLinked l l' r' v (ground arith) (λ i n id g. inl (ground arith))

  meet_new-IsLinked :
      (l l' : Progress P J) (c : DiscoveryCandidate P J) (k : CausationMetadata)
      → IsLinked lib l
      → IsGenuine lib c
      → meet_new lib (taken l c) c k ≡ ok l'
      → IsLinked lib l'
  unfolding meet_new
  meet_new-IsLinked l l' c k v g h =
      let ((r, ev), e, e') = >>=-ok (enroll_new lib c k l.events) _ h in
      let (_, s, _) = enroll_new-IsPresent lib r c k l.events ev e in
      insert-IsLinked l l' r v (ground arith) (λ i n id q.
        let new = native_get-cons i n c.integration_id c.snapshot.native_id r.snapshot.id id in
        elim (new l.native_index (ground arith)) [ inl (a, b, d) ↦ inr (cc, a) | inr o ↦ inl o ])

  Step-IsLinked :
      (l l' : Progress P J) (c : DiscoveryCandidate P J) (k : CausationMetadata)
      → IsLinked lib l
      → Step lib k l c l'
      → IsLinked lib l'
  Step-IsLinked l l' c k v (collides id e) =
      subst (IsLinked lib) (sym e) (collide-IsLinked l c id v)
  Step-IsLinked l l' c k v (updates id e g i f s h) = update_known-IsLinked l l' c k e.1 v h
  Step-IsLinked l l' c k v (enrolls g i h) = meet_new-IsLinked l l' c k v g h

  abbrev pub IsTimestampError : ReconciliationError → Type 0
  IsTimestampError e = (t : TimestampError) × (e ≡ refused_timestamp t)

  update_known-error :
      (l : Progress P J) (c : DiscoveryCandidate P J) (k : CausationMetadata) (r : DeviceRecord P J)
      (e : ReconciliationError)
      → update_known lib l c k r ≡ err e
      → IsTimestampError e
  unfolding update_known
  update_known-error l c k r e h = elim (>>=-err (update_record lib r c k l.events) _ h) [
    | inl a ↦ update_record-error lib r c k l.events e a
    | inr (_, _, a) ↦ absurd (cc)
  ]

  meet_known-error :
      (l : Progress P J) (c : DiscoveryCandidate P J) (k : CausationMetadata) (r : DeviceRecord P J)
      (e : ReconciliationError)
      → meet_known lib l c k r ≡ err e
      → IsTimestampError e
  unfolding meet_known
  meet_known-error l c k r e h = elim (Bool-cases (nat_beq r.snapshot.id c.snapshot.id)) [
    | inl q ↦ update_known-error l c k r e (ground arith)
    | inr q ↦ absurd (ground arith)
  ]

  meet_new-ok :
      (l : Progress P J) (c : DiscoveryCandidate P J) (k : CausationMetadata)
      (e : ReconciliationError)
      → meet_new lib l c k ≢ err e
  unfolding meet_new
  meet_new-ok l c k e h = elim (>>=-err (enroll_new lib c k l.events) _ h) [
    | inl a ↦ enroll_new-ok lib c k l.events e a
    | inr (_, _, a) ↦ absurd (cc)
  ]

  meet-error :
      (l : Progress P J) (c : DiscoveryCandidate P J) (k : CausationMetadata)
      (e : ReconciliationError)
      → IsLinked lib l
      → meet lib (taken l c) c k ≡ err e
      → IsTimestampError e
  unfolding meet
  meet-error l c k e v h = elim (Option-cases (known_id lib l c)) [
    | inl n ↦ absurd (meet_new-ok (taken l c) c k e (cc))
    | inr (id, n) ↦
        let (_, (x, f)) = v.indexed c.integration_id c.snapshot.native_id id n in
        meet_known-error (taken l c) c k x.1 e (cc)
  ]

  round-error :
      (l : Progress P J) (c : DiscoveryCandidate P J) (k : CausationMetadata)
      (e : ReconciliationError)
      → IsLinked lib l
      → round lib k l c ≡ err e
      → IsTimestampError e
  unfolding round
  round-error l c k e v h =
      let expected = lib.from_integration c.integration_id c.snapshot.native_id in
      elim (Bool-cases (nat_beq c.snapshot.id expected)) [
        | inl q ↦ meet-error l c k e v (ground arith)
        | inr q ↦ absurd (ground arith)
      ]

  rounds-error :
      (cs : List (DiscoveryCandidate P J)) (l : Progress P J) (k : CausationMetadata)
      (e : ReconciliationError)
      → IsLinked lib l
      → rounds lib k l cs ≡ err e
      → IsTimestampError e
  unfolding rounds
  rounds-error [] l k e v h = absurd (cc)
  rounds-error (c ∷ cs) l k e v h = elim (>>=-err (round lib k l c) _ h) [
    | inl a ↦ round-error l c k e v a
    | inr (m, a, b) ↦ rounds-error cs m k e (Step-IsLinked l m c k v (round-Step lib k l c m a)) b
  ]

  -- When every kept record has the identity that is derived from its integration and native
  -- identity, reconciliation fails with nothing but a refused timestamp: the index never leads to a
  -- missing device, and no lifecycle transition is refused.
  pub reconcile_error :
      (k : ℕ) (existing : List (DeviceRecord P J)) (candidates : List (DiscoveryCandidate P J))
      (e : ReconciliationError)
      → All (IsDerived lib) existing
      → reconcile lib k existing candidates ≡ err e
      → (t : TimestampError) × (e ≡ refused_timestamp t)
  unfolding reconcile
  reconcile_error k existing candidates e d h =
      let causation = system_causation k in
      elim (>>=-err (rounds lib causation (start existing) candidates) _ h) [
        | inl a ↦
            rounds-error candidates (start existing) causation e (start-IsLinked lib existing d) a
        | inr (_, _, a) ↦ absurd (cc)
      ]
