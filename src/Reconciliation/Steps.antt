-- ===== src/Reconciliation/Steps.antt =====
-- The three ways in which a round of the reconciliation ends.
use homemagic.Prelude.{
  ok, ℕ, ◌≡◌, Option, none, some, ◌++◌, arith, nat_beq, nat_beq_iff, Bool-cases, Option-cases, inl,
  inr,
}
use homemagic.Event.{CausationMetadata}
use homemagic.Device.{DiscoveryCandidate, DeviceRecord}
use homemagic.Repository.Upserts.{find}
use homemagic.Reconciliation.{Library, Progress, native_get}
use homemagic.Reconciliation.Rounds.{collide, update_known, meet_known, meet_new, meet, round}

module _ {P J : Type 0} where
  -- The state when the repair records of a candidate are taken over.
  abbrev pub taken : Progress P J → DiscoveryCandidate P J → Progress P J
  taken l c = record l { repairs = l.repairs ++ c.repairs }

module _ {P J : Type 0} (lib : Library P J) where
  abbrev pub IsGenuine : DiscoveryCandidate P J → Type 0
  IsGenuine c = c.snapshot.id ≡ lib.from_integration c.integration_id c.snapshot.native_id

  abbrev pub known_id : Progress P J → DiscoveryCandidate P J → Option ℕ
  known_id l c = native_get c.integration_id c.snapshot.native_id l.native_index

module _ {P J : Type 0} where
  abbrev pub kept_at : ℕ → Progress P J → Option (ℕ × DeviceRecord P J)
  kept_at id l = find (λ e. e.0) id l.records

module _ {P J : Type 0} (lib : Library P J) (k : CausationMetadata) where
  pub data Step (l : Progress P J) (c : DiscoveryCandidate P J) (l' : Progress P J) : Type 0 where
    collides : (id : ℕ) → l' ≡ collide lib (taken l c) c id → Step l c l'
    updates :
        (id : ℕ) (e : ℕ × DeviceRecord P J)
        → IsGenuine lib c
        → known_id lib l c ≡ some id
        → kept_at id l ≡ some e
        → e.1.snapshot.id ≡ c.snapshot.id
        → update_known lib (taken l c) c k e.1 ≡ ok l'
        → Step l c l'
    enrolls :
        IsGenuine lib c
        → known_id lib l c ≡ none
        → meet_new lib (taken l c) c k ≡ ok l'
        → Step l c l'

  module _ (l : Progress P J) (c : DiscoveryCandidate P J) (l' : Progress P J) where
    known-Step :
        (id : ℕ) (e : ℕ × DeviceRecord P J)
        → IsGenuine lib c
        → known_id lib l c ≡ some id
        → kept_at id l ≡ some e
        → meet_known lib (taken l c) c k e.1 ≡ ok l'
        → Step l c l'
    unfolding meet_known
    known-Step id e g n f h = elim (Bool-cases (nat_beq e.1.snapshot.id c.snapshot.id)) [
      | inl q ↦ updates id e g n f ((nat_beq_iff e.1.snapshot.id c.snapshot.id).0 q) (ground arith)
      | inr q ↦ collides e.1.snapshot.id (ground arith)
    ]

    meet-Step : IsGenuine lib c → meet lib (taken l c) c k ≡ ok l' → Step l c l'
    unfolding meet
    meet-Step g h = elim (Option-cases (known_id lib l c)) [
      | inl n ↦ enrolls g n (cc)
      | inr (id, n) ↦ elim (Option-cases (kept_at id l)) [
        | inl f ↦ absurd (ground arith)
        | inr (e, f) ↦ known-Step id e g n f (cc)
      ]
    ]

    pub round-Step : round lib k l c ≡ ok l' → Step l c l'
    unfolding round
    round-Step h =
        let expected = lib.from_integration c.integration_id c.snapshot.native_id in
        elim (Bool-cases (nat_beq c.snapshot.id expected)) [
          | inl q ↦ meet-Step ((nat_beq_iff c.snapshot.id expected).0 q) (ground arith)
          | inr q ↦ collides expected (ground arith)
        ]
