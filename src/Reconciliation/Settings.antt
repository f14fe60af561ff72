-- ===== src/Reconciliation/Settings.antt =====
-- What a reconciliation leaves as it is in the records of known devices.
use homemagic.Prelude.{
  nat_beq, nat_beq_iff, Bool-cases, All, All-map, ok, >>=-ok, ℕ, ◌≡◌, refl, sym, ap, ◌∙◌, subst,
  ◌≢◌, ◌⊎◌, inl, inr, none, some, List, [], ◌∷◌, map, arith,
}
use homemagic.Event.{CausationMetadata}
use homemagic.Device.{DiscoveryCandidate, DeviceRecord}
use homemagic.Repository.Upserts.{
  find, find_last, find-insert_by, All-insert_by, find-All, find-Member,
}
use homemagic.Reconciliation.{
  Library, ReconciliationOutcome, Progress, system_causation, native_get, insert_record,
  collect_records, start,
}
use homemagic.Reconciliation.Record.{update_record, enroll_new}
use homemagic.Reconciliation.Rounds.{collide, update_known, meet_new, round, rounds, reconcile}
use homemagic.Reconciliation.Index.{native_get-other, native_get-collected}
use homemagic.Reconciliation.Steps.{
  taken, IsGenuine, known_id, kept_at, Step, collides, updates, enrolls, round-Step,
}
use homemagic.Reconciliation.Renewal.{IsKept, update_record-IsKept, enroll_new-IsPresent}
use homemagic.Reconciliation.Linked.{
  IsDerived, IsKeyed, All-collect_records, All-values, kept_at-insert, start-IsLinked,
}

module _ {P J : Type 0} where
  find-collect_records :
      (k : ℕ) (rs : List (DeviceRecord P J)) (m : List (ℕ × DeviceRecord P J))
      → find (λ e. e.0) k (collect_records rs m) ≡ (elim (find_last (λ r. r.snapshot.id) k rs) [
        | none ↦ find (λ e. e.0) k m
        | some r ↦ some (r.snapshot.id, r)
      ])
  unfolding collect_records find_last
  find-collect_records k [] m = refl
  find-collect_records k (r ∷ rs) m = ground (
    arith,
    find-collect_records k rs (insert_record r m),
    find-insert_by (λ e. e.0) k (r.snapshot.id, r) m,
  )

  IsKept-trans : (r s t : DeviceRecord P J) → IsKept r s → IsKept s t → IsKept r t
  IsKept-trans r s t p q = ground arith

  IsKept-refl : (r : DeviceRecord P J) → IsKept r r
  IsKept-refl r = ground arith

module _ {P J : Type 0} (lib : Library P J) where
  -- A candidate with its derived identity that names the device has the device's integration and
  -- native identity.
  abbrev pub Agrees : DeviceRecord P J → DiscoveryCandidate P J → Type 0
  Agrees r c =
      IsGenuine lib c
      → c.snapshot.id ≡ r.snapshot.id
      → (c.integration_id ≡ r.integration_id) × (c.snapshot.native_id ≡ r.snapshot.native_id)

module _ {P J : Type 0} (lib : Library P J) (r0 : DeviceRecord P J) where
  abbrev Spares : ℕ × DeviceRecord P J → Type 0
  Spares e = e.1.snapshot.id ≡ r0.snapshot.id → IsKept r0 e.1

  record Spared (l : Progress P J) : Type 0 where
    keyed : All IsKeyed l.records
    kept : (e : ℕ × DeviceRecord P J) × (kept_at r0.snapshot.id l ≡ some e) × IsKept r0 e.1
    indexed :
        native_get r0.integration_id r0.snapshot.native_id l.native_index ≡ some r0.snapshot.id
    changed : All Spares l.changed

  IsKept-found :
      (l : Progress P J) (id : ℕ) (x : ℕ × DeviceRecord P J)
      → Spared l
      → kept_at id l ≡ some x
      → Spares x
  IsKept-found l id x v f s =
      let (kx, ix) = find-All (λ e. e.0) IsKeyed id l.records x v.keyed f in
      let (y, fy, py) = v.kept in
      let same : id ≡ r0.snapshot.id = sym ix ∙ kx ∙ s in
      let both : some y ≡ some x = sym fy ∙ ap (λ i. kept_at i l) (sym same) ∙ f in
      let xy : y ≡ x = cc in subst (λ z. IsKept r0 z.1) xy py

  insert-Spared :
      (l l' : Progress P J) (r : DeviceRecord P J)
      → Spared l
      → Spares (r.snapshot.id, r)
      → l'.records ≡ insert_record r l.records
      → native_get r0.integration_id r0.snapshot.native_id l'.native_index ≡ some r0.snapshot.id
      → (l'.changed ≡ l.changed) ⊎ (l'.changed ≡ insert_record r l.changed)
      → Spared l'
  insert-Spared l l' r v p er ei ec =
      let key : ℕ × DeviceRecord P J → ℕ = λ e. e.0 in
      let (y, fy, py) = v.kept in
      let f = kept_at-insert l l' r r0.snapshot.id er in
      let b = nat_beq_iff r.snapshot.id r0.snapshot.id in
      record {
        keyed =
            subst (All IsKeyed) (sym er)
              (All-insert_by key IsKeyed (r.snapshot.id, r) l.records refl v.keyed);
        kept = elim (Bool-cases (nat_beq r.snapshot.id r0.snapshot.id)) [
          | inl q ↦ ((r.snapshot.id, r), ground arith, p (b.0 q))
          | inr q ↦ (y, ground arith, py)
        ];
        indexed = ei;
        changed = elim ec [
          | inl e ↦ subst (All Spares) (sym e) v.changed
          | inr e ↦
              subst (All Spares) (sym e)
                (All-insert_by key Spares (r.snapshot.id, r) l.changed p v.changed)
        ];
      }

  update_known-Spared :
      (l l' : Progress P J) (c : DiscoveryCandidate P J) (k : CausationMetadata) (id : ℕ)
      (x : ℕ × DeviceRecord P J)
      → Spared l
      → kept_at id l ≡ some x
      → update_known lib (taken l c) c k x.1 ≡ ok l'
      → Spared l'
  unfolding update_known
  update_known-Spared l l' c k id x v f h =
      let ((r', ev), e, e') = >>=-ok (update_record lib x.1 c k l.events) _ h in
      let (_, q) = update_record-IsKept lib x.1 r' c k l.events ev e in
      let p : Spares (r'.snapshot.id, r') =
        λ s. IsKept-trans r0 x.1 r' (IsKept-found l id x v f (sym q.id ∙ s)) q in
      let i : l.native_index ≡ l'.native_index = ground arith in
      insert-Spared l l' r' v p (ground arith)
        (sym (ap (native_get r0.integration_id r0.snapshot.native_id) i) ∙ v.indexed)
        (elim (Bool-cases (lib.record_beq r' x.1)) [
          | inl b ↦ inl (ground arith)
          | inr b ↦ inr (ground arith)
        ])

  fresh-differs :
      (l : Progress P J) (c : DiscoveryCandidate P J)
      → Spared l
      → Agrees lib r0 c
      → IsGenuine lib c
      → known_id lib l c ≡ none
      → c.snapshot.id ≢ r0.snapshot.id
  fresh-differs l c v a g n q =
      let (b, d) = a g q in
      let x = ap (λ i. native_get i c.snapshot.native_id l.native_index) b in
      let y = ap (λ m. native_get r0.integration_id m l.native_index) d in
      let z = sym n ∙ x ∙ y ∙ v.indexed in absurd (cc)

  collide-Spared :
      (l : Progress P J) (c : DiscoveryCandidate P J) (id : ℕ)
      → Spared l
      → Spared (collide lib (taken l c) c id)
  unfolding collide
  collide-Spared l c id v = record {
    keyed = v.keyed;
    kept = v.kept;
    indexed = v.indexed;
    changed = v.changed;
  }

  meet_new-Spared :
      (l l' : Progress P J) (c : DiscoveryCandidate P J) (k : CausationMetadata)
      → Spared l
      → Agrees lib r0 c
      → IsGenuine lib c
      → known_id lib l c ≡ none
      → meet_new lib (taken l c) c k ≡ ok l'
      → Spared l'
  unfolding meet_new
  meet_new-Spared l l' c k v a g n h =
      let ((r, ev), e, e') = >>=-ok (enroll_new lib c k l.events) _ h in
      let (_, s, _) = enroll_new-IsPresent lib r c k l.events ev e in
      let differs = fresh-differs l c v a g n in
      let p : Spares (r.snapshot.id, r) = λ q. absurd (differs (sym s ∙ q)) in
      let i : l'.native_index
          ≡ ((c.integration_id, c.snapshot.native_id), r.snapshot.id) ∷ l.native_index =
        ground arith in
      let j =
        native_get-other r0.integration_id r0.snapshot.native_id c.integration_id
          c.snapshot.native_id r.snapshot.id r0.snapshot.id l.native_index n v.indexed in
      insert-Spared l l' r v p (ground arith)
        (ap (native_get r0.integration_id r0.snapshot.native_id) i ∙ j) (inr (ground arith))

  Step-Spared :
      (l l' : Progress P J) (c : DiscoveryCandidate P J) (k : CausationMetadata)
      → Spared l
      → Agrees lib r0 c
      → Step lib k l c l'
      → Spared l'
  Step-Spared l l' c k v a (collides id e) = subst Spared (sym e) (collide-Spared l c id v)
  Step-Spared l l' c k v a (updates id e g i f s h) = update_known-Spared l l' c k id e v f h
  Step-Spared l l' c k v a (enrolls g i h) = meet_new-Spared l l' c k v a g i h

  rounds-Spared :
      (cs : List (DiscoveryCandidate P J)) (l l' : Progress P J) (k : CausationMetadata)
      → Spared l
      → All (Agrees lib r0) cs
      → rounds lib k l cs ≡ ok l'
      → Spared l'
  unfolding rounds
  rounds-Spared [] l l' k v a h = subst Spared (cc) v
  rounds-Spared (c ∷ cs) l l' k v (a, as') h =
      let (m, x, y) = >>=-ok (round lib k l c) _ h in
      rounds-Spared cs m l' k (Step-Spared l m c k v a (round-Step lib k l c m x)) as' y

  start-Spared :
      (existing : List (DeviceRecord P J))
      → All (IsDerived lib) existing
      → find_last (λ r. r.snapshot.id) r0.snapshot.id existing ≡ some r0
      → Spared (start existing)
  unfolding start
  start-Spared existing d f =
      let l = start existing in
      let v = start-IsLinked lib existing d in
      let g : kept_at r0.snapshot.id l ≡ some (r0.snapshot.id, r0) =
        ground (arith, find-collect_records r0.snapshot.id existing []) in
      record {
        keyed = v.keyed;
        kept = ((r0.snapshot.id, r0), g, IsKept-refl r0);
        indexed =
            let m = collect_records existing [] in
            let both =
              All-collect_records (λ e. IsKeyed e × IsDerived lib e.1) existing []
                (All-map existing (λ r q. (refl, q)) d) tt in
            let ((_, w), _) =
              find-All (λ e. e.0) (λ e. IsKeyed e × IsDerived lib e.1) r0.snapshot.id m
                (r0.snapshot.id, r0) both g in
            let (id, q) =
              native_get-collected r0 m []
                (find-Member (λ e. e.0) r0.snapshot.id m (r0.snapshot.id, r0) g) in
            let (x, _) = v.indexed r0.integration_id r0.snapshot.native_id id q in
            q ∙ ap some (x ∙ sym w);
        changed = tt;
      }

  -- Take a record that is kept beforehand, the last one if several have its identity. If every kept
  -- record has the identity that is derived from its integration and native identity, and if each
  -- candidate that names the device under its own derived identity has the integration and native
  -- identity of the record, then a successful reconciliation that gives out the device leaves its
  -- installation, integration, aliases, spaces and first observation as they were.
  pub reconcile-IsKept :
      (k : ℕ) (existing : List (DeviceRecord P J)) (candidates : List (DiscoveryCandidate P J))
      (o : ReconciliationOutcome P J)
      → All (IsDerived lib) existing
      → find_last (λ r. r.snapshot.id) r0.snapshot.id existing ≡ some r0
      → All (Agrees lib r0) candidates
      → reconcile lib k existing candidates ≡ ok o
      → All (λ r. r.snapshot.id ≡ r0.snapshot.id → IsKept r0 r) o.devices
  unfolding reconcile
  reconcile-IsKept k existing candidates o d f a h =
      let causation = system_causation k in
      let (l, x, y) = >>=-ok (rounds lib causation (start existing) candidates) _ h in
      let v =
        rounds-Spared candidates (start existing) l causation (start-Spared existing d f) a x in
      let e : map (λ e. e.1) l.changed ≡ o.devices = ground arith in
      subst (All (λ r. r.snapshot.id ≡ r0.snapshot.id → IsKept r0 r)) e
        (All-values (λ r. r.snapshot.id ≡ r0.snapshot.id → IsKept r0 r) l.changed v.changed)
