-- ===== src/Reconciliation/Outcome.antt =====
-- How the outcome of a reconciliation accounts for the candidates.
use homemagic.Prelude.{
  length, length-append, ok, >>=-ok, ℕ, suc, ◌+◌, ◌≡◌, refl, sym, subst, List, [], ◌∷◌, arith,
}
use homemagic.Event.{CausationMetadata}
use homemagic.Device.{DiscoveryCandidate, DeviceRecord}
use homemagic.Reconciliation.{Library, ReconciliationOutcome, Progress, system_causation, start}
use homemagic.Reconciliation.Record.{update_record, enroll_new}
use homemagic.Reconciliation.Steps.{taken, Step, collides, updates, enrolls, round-Step}
use homemagic.Reconciliation.Rounds.{
  collision, collide, update_known, meet_new, round, rounds, reconcile,
}

module _ {P J : Type 0} where
  -- The repair records that the candidates bring along.
  abbrev pub brought : List (DiscoveryCandidate P J) → ℕ
  brought [] = 0
  brought (c ∷ cs) = length c.repairs + brought cs

  -- Candidates that are settled, and repair records.
  abbrev Accounted : ℕ → Progress P J → Type 0
  Accounted n l = l.accepted + length l.repairs ≡ n

module _ {P J : Type 0} (lib : Library P J) where
  update_known-Accounted :
      (n : ℕ) (l l' : Progress P J) (c : DiscoveryCandidate P J) (k : CausationMetadata)
      (r : DeviceRecord P J)
      → Accounted n l
      → update_known lib l c k r ≡ ok l'
      → Accounted (suc n) l'
  unfolding update_known
  update_known-Accounted n l l' c k r v h =
      let (p, e, e') = >>=-ok (update_record lib r c k l.events) _ h in ground arith

  meet_new-Accounted :
      (n : ℕ) (l l' : Progress P J) (c : DiscoveryCandidate P J) (k : CausationMetadata)
      → Accounted n l
      → meet_new lib l c k ≡ ok l'
      → Accounted (suc n) l'
  unfolding meet_new
  meet_new-Accounted n l l' c k v h =
      let (p, e, e') = >>=-ok (enroll_new lib c k l.events) _ h in ground arith

  collide-Accounted :
      (n : ℕ) (l : Progress P J) (c : DiscoveryCandidate P J) (id : ℕ)
      → Accounted n l
      → Accounted (suc n) (collide lib l c id)
  unfolding collide
  collide-Accounted n l c id v =
      omega (arith, length-append l.repairs (collision lib (length l.repairs) c id ∷ []))

  taken-Accounted :
      (n : ℕ) (l : Progress P J) (c : DiscoveryCandidate P J)
      → Accounted n l
      → Accounted (n + length c.repairs) (taken l c)
  taken-Accounted n l c v = omega (arith, length-append l.repairs c.repairs)

  Step-Accounted :
      (n : ℕ) (l l' : Progress P J) (c : DiscoveryCandidate P J) (k : CausationMetadata)
      → Accounted n l
      → Step lib k l c l'
      → Accounted (suc (n + length c.repairs)) l'
  Step-Accounted n l l' c k v (collides id e) =
      subst (Accounted _) (sym e) (collide-Accounted _ (taken l c) c id (taken-Accounted n l c v))
  Step-Accounted n l l' c k v (updates id e g i f s h) =
      update_known-Accounted _ (taken l c) l' c k e.1 (taken-Accounted n l c v) h
  Step-Accounted n l l' c k v (enrolls g i h) =
      meet_new-Accounted _ (taken l c) l' c k (taken-Accounted n l c v) h

  rounds-Accounted :
      (cs : List (DiscoveryCandidate P J)) (n : ℕ) (l l' : Progress P J) (k : CausationMetadata)
      → Accounted n l
      → rounds lib k l cs ≡ ok l'
      → Accounted (n + length cs + brought cs) l'
  unfolding rounds
  rounds-Accounted [] n l l' k v h = ground arith
  rounds-Accounted (c ∷ cs) n l l' k v h =
      let (m, e, e') = >>=-ok (round lib k l c) _ h in
      let w = Step-Accounted n l m c k v (round-Step lib k l c m e) in
      omega (arith, rounds-Accounted cs _ m l' k w e')

  -- After a successful reconciliation, the accepted candidates and the repair records are together as
  -- many as all candidates and the repair records that they bring along, so that each candidate that
  -- is not accepted adds one repair record.
  pub reconcile-accounts :
      (k : ℕ) (existing : List (DeviceRecord P J)) (candidates : List (DiscoveryCandidate P J))
      (o : ReconciliationOutcome P J)
      → reconcile lib k existing candidates ≡ ok o
      → o.accepted + length o.repairs ≡ length candidates + brought candidates
  unfolding reconcile start
  reconcile-accounts k existing candidates o h =
      let (l, e, e') = >>=-ok (rounds lib (system_causation k) (start existing) candidates) _ h in
      let w = rounds-Accounted candidates 0 (start existing) l (system_causation k) refl e in
      ground arith
