-- ===== src/Reconciliation/Presence.antt =====
-- The records that a reconciliation changes.
use homemagic.Prelude.{
  Bool-cases, All, Any, All-map, ok, >>=-ok, ℕ, ◌≡◌, refl, sym, ap, ◌∙◌, subst, inl, inr, List, [],
  ◌∷◌, map, arith,
}
use homemagic.Event.{CausationMetadata}
use homemagic.Lifecycle.{enrolled, online}
use homemagic.Device.{DiscoveryCandidate, DeviceRecord}
use homemagic.Repository.Upserts.{Above, IsAscending, All-insert_by, IsAscending-insert_by}
use homemagic.Reconciliation.{
  Library, ReconciliationOutcome, Progress, system_causation, insert_record, start,
}
use homemagic.Reconciliation.Record.{update_record, enroll_new}
use homemagic.Reconciliation.Rounds.{collide, update_known, meet_new, round, rounds, reconcile}
use homemagic.Reconciliation.Steps.{taken, IsGenuine, Step, collides, updates, enrolls, round-Step}
use homemagic.Reconciliation.Renewal.{update_record-IsKept, enroll_new-IsPresent}
use homemagic.Reconciliation.Linked.{IsKeyed, All-values}

module _ {P J : Type 0} (lib : Library P J) where
  -- One of the candidates names the device and has its derived identity.
  abbrev pub IsNamed : List (DiscoveryCandidate P J) → ℕ → Type 0
  IsNamed cs id = Any (λ c. IsGenuine lib c × (c.snapshot.id ≡ id)) cs

  abbrev pub IsReported : List (DiscoveryCandidate P J) → DeviceRecord P J → Type 0
  IsReported cs r =
      (r.lifecycle ≡ enrolled) × (r.availability.state ≡ online) × IsNamed cs r.snapshot.id

  IsGenuine-IsNamed :
      (cs : List (DiscoveryCandidate P J))
      → All (λ c. IsGenuine lib c → IsNamed cs c.snapshot.id) cs
  IsGenuine-IsNamed [] = tt
  IsGenuine-IsNamed (c ∷ cs) =
      ((λ g. inl (g, refl)), All-map cs (λ d f g. inr (f g)) (IsGenuine-IsNamed cs))

  module _ (all : List (DiscoveryCandidate P J)) where
    abbrev IsEntry : ℕ × DeviceRecord P J → Type 0
    IsEntry e = IsKeyed e × IsReported all e.1

    record IsSound (l : Progress P J) : Type 0 where
      ordered : IsAscending (λ (e : ℕ × DeviceRecord P J). e.0) l.changed
      entries : All IsEntry l.changed

    insert-IsSound :
        (l l' : Progress P J) (r : DeviceRecord P J)
        → IsSound l
        → IsReported all r
        → l'.changed ≡ insert_record r l.changed
        → IsSound l'
    insert-IsSound l l' r v p e =
        let key : ℕ × DeviceRecord P J → ℕ = λ e. e.0 in
        record {
          ordered =
              subst (IsAscending key) (sym e)
                (IsAscending-insert_by key (r.snapshot.id, r) l.changed v.ordered);
          entries =
              subst (All IsEntry) (sym e)
                (All-insert_by key IsEntry (r.snapshot.id, r) l.changed (refl, p) v.entries);
        }

    same-IsSound : (l l' : Progress P J) → IsSound l → l'.changed ≡ l.changed → IsSound l'
    same-IsSound l l' v e = record {
      ordered = subst (IsAscending (λ e. e.0)) (sym e) v.ordered;
      entries = subst (All IsEntry) (sym e) v.entries;
    }

    update_known-IsSound :
        (l l' : Progress P J) (c : DiscoveryCandidate P J) (k : CausationMetadata)
        (r : DeviceRecord P J)
        → IsSound l
        → IsNamed all c.snapshot.id
        → r.snapshot.id ≡ c.snapshot.id
        → update_known lib (taken l c) c k r ≡ ok l'
        → IsSound l'
    unfolding update_known
    update_known-IsSound l l' c k r v n s h =
        let ((r', ev), e, e') = >>=-ok (update_record lib r c k l.events) _ h in
        let (p, q) = update_record-IsKept lib r r' c k l.events ev e in
        let n' = subst (IsNamed all) (sym (q.id ∙ s)) n in
        elim (Bool-cases (lib.record_beq r' r)) [
          | inl b ↦ same-IsSound l l' v (ground arith)
          | inr b ↦ insert-IsSound l l' r' v (p.lifecycle, p.availability, n') (ground arith)
        ]

    meet_new-IsSound :
        (l l' : Progress P J) (c : DiscoveryCandidate P J) (k : CausationMetadata)
        → IsSound l
        → IsNamed all c.snapshot.id
        → meet_new lib (taken l c) c k ≡ ok l'
        → IsSound l'
    unfolding meet_new
    meet_new-IsSound l l' c k v n h =
        let ((r, ev), e, e') = >>=-ok (enroll_new lib c k l.events) _ h in
        let (p, s, _) = enroll_new-IsPresent lib r c k l.events ev e in
        let n' = subst (IsNamed all) (sym s) n in
        insert-IsSound l l' r v (p.lifecycle, p.availability, n') (ground arith)

    Step-IsSound :
        (l l' : Progress P J) (c : DiscoveryCandidate P J) (k : CausationMetadata)
        → IsSound l
        → (IsGenuine lib c → IsNamed all c.snapshot.id)
        → Step lib k l c l'
        → IsSound l'
    unfolding collide
    Step-IsSound l l' c k v n (collides id e) = same-IsSound l l' v (ap (λ m. m.changed) e)
    Step-IsSound l l' c k v n (updates id e g i f s h) =
        update_known-IsSound l l' c k e.1 v (n g) s h
    Step-IsSound l l' c k v n (enrolls g i h) = meet_new-IsSound l l' c k v (n g) h

    rounds-IsSound :
        (cs : List (DiscoveryCandidate P J)) (l l' : Progress P J) (k : CausationMetadata)
        → IsSound l
        → All (λ c. IsGenuine lib c → IsNamed all c.snapshot.id) cs
        → rounds lib k l cs ≡ ok l'
        → IsSound l'
    unfolding rounds
    rounds-IsSound [] l l' k v n h = same-IsSound l l' v (ground arith)
    rounds-IsSound (c ∷ cs) l l' k v (n, ns) h =
        let (m, a, b) = >>=-ok (round lib k l c) _ h in
        rounds-IsSound cs m l' k (Step-IsSound l m c k v n (round-Step lib k l c m a)) ns b

module _ {P J : Type 0} (lib : Library P J) where
  Above-values :
      (b : ℕ) (m : List (ℕ × DeviceRecord P J))
      → All IsKeyed m
      → Above (λ e. e.0) b m
      → Above (λ r. r.snapshot.id) b (map (λ e. e.1) m)
  Above-values b [] q h = tt
  Above-values b ((id, r) ∷ m) (q, qs) (a, h) =
      (ground arith, Above-values r.snapshot.id m qs (subst (λ k. Above (λ e. e.0) k m) q h))

  IsAscending-values :
      (m : List (ℕ × DeviceRecord P J))
      → All IsKeyed m
      → IsAscending (λ e. e.0) m
      → IsAscending (λ r. r.snapshot.id) (map (λ e. e.1) m)
  IsAscending-values [] q h = tt
  IsAscending-values ((id, r) ∷ m) (q, qs) h =
      Above-values r.snapshot.id m qs (subst (λ k. Above (λ e. e.0) k m) q h)

  -- The devices that a successful reconciliation gives out are in increasing order of their
  -- identities, so that none occurs twice. Each is enrolled and online, and a candidate whose
  -- identity is the derived one names it.
  pub reconcile-IsReported :
      (k : ℕ) (existing : List (DeviceRecord P J)) (candidates : List (DiscoveryCandidate P J))
      (o : ReconciliationOutcome P J)
      → reconcile lib k existing candidates ≡ ok o
      → IsAscending (λ r. r.snapshot.id) o.devices × All (IsReported lib candidates) o.devices
  unfolding reconcile start
  reconcile-IsReported k existing candidates o h =
      let causation = system_causation k in
      let (l, a, b) = >>=-ok (rounds lib causation (start existing) candidates) _ h in
      let v =
        rounds-IsSound lib candidates candidates (start existing) l causation
          (record { ordered = tt; entries = tt }) (IsGenuine-IsNamed lib candidates) a in
      let e : map (λ e. e.1) l.changed ≡ o.devices = ground arith in
      let keyed = All-map l.changed (λ e q. q.0) v.entries in
      (
        subst (IsAscending (λ r. r.snapshot.id)) e (IsAscending-values l.changed keyed v.ordered),
        subst (All (IsReported lib candidates)) e (
            All-values (IsReported lib candidates) l.changed
              (All-map l.changed (λ e q. q.1) v.entries)),
      )
