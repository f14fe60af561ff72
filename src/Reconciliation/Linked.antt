-- ===== src/Reconciliation/Linked.antt =====
-- The maps of the loop: every entry of the index leads to a record.
use homemagic.Prelude.{
  nat_beq, if◌then◌else◌, All, Any-map, Any-witness, All-Any, All-map, Text, ℕ, ◌≡◌, refl, ap, ◌∙◌,
  inl, inr, some, List, [], ◌∷◌, map, arith,
}
use homemagic.Device.{DeviceRecord}
use homemagic.Repository.Upserts.{find, find-insert_by, All-insert_by, find-Any}
use homemagic.Reconciliation.{Library, Progress, native_get, insert_record, collect_records, start}
use homemagic.Reconciliation.Steps.{kept_at}
use homemagic.Reconciliation.Index.{Leads, native_get-collect_index}

module _ {P J : Type 0} (lib : Library P J) where
  -- A record whose identity is the derived one, as reconciliation enrolls it.
  abbrev pub IsDerived : DeviceRecord P J → Type 0
  IsDerived r = r.snapshot.id ≡ lib.from_integration r.integration_id r.snapshot.native_id

module _ {P J : Type 0} where
  abbrev pub IsKeyed : ℕ × DeviceRecord P J → Type 0
  IsKeyed (id, r) = id ≡ r.snapshot.id

module _ {P J : Type 0} where
  pub All-collect_records :
      (Q : ℕ × DeviceRecord P J → Type 0) (rs : List (DeviceRecord P J))
      (m : List (ℕ × DeviceRecord P J))
      → All (λ r. Q (r.snapshot.id, r)) rs
      → All Q m
      → All Q (collect_records rs m)
  unfolding collect_records
  All-collect_records Q [] m h v = v
  All-collect_records Q (r ∷ rs) m (q, h) v =
      All-collect_records Q rs _ h (All-insert_by (λ e. e.0) Q (r.snapshot.id, r) m q v)

  pub All-values :
      (Q : DeviceRecord P J → Type 0) (m : List (ℕ × DeviceRecord P J))
      → All (λ e. Q e.1) m
      → All Q (map (λ e. e.1) m)
  All-values Q [] h = tt
  All-values Q (e ∷ m) (q, h) = (q, All-values Q m h)

  pub kept_at-insert :
      (l l' : Progress P J) (r : DeviceRecord P J) (id : ℕ)
      → l'.records ≡ insert_record r l.records
      → kept_at id l' ≡ (if nat_beq r.snapshot.id id then some (r.snapshot.id, r) else kept_at id l)
  kept_at-insert l l' r id e =
      ap (λ m. find (λ e. e.0) id m) e ∙ find-insert_by (λ e. e.0) id (r.snapshot.id, r) l.records

module _ {P J : Type 0} (lib : Library P J) where
  pub record IsLinked (l : Progress P J) : Type 0 where
    pub keyed : All IsKeyed l.records
    pub indexed :
        (i : ℕ) (n : Text) (id : ℕ)
        → native_get i n l.native_index ≡ some id
        → (id ≡ lib.from_integration i n) × ((e : ℕ × DeviceRecord P J) × (kept_at id l ≡ some e))

  pub start-IsLinked :
      (existing : List (DeviceRecord P J))
      → All (IsDerived lib) existing
      → IsLinked (start existing)
  unfolding start native_get
  start-IsLinked existing d =
      let m = collect_records existing [] in
      let both =
        All-collect_records (λ e. IsKeyed e × IsDerived lib e.1) existing []
          (All-map existing (λ r q. (refl, q)) d) tt in
      record {
        keyed = All-map m (λ e q. q.0) both;
        indexed = λ i n id h. elim (native_get-collect_index m [] i n id h) [
          | inl e ↦ absurd (ground arith)
          | inr a ↦
              let b = All-Any (λ e. IsKeyed e × IsDerived lib e.1) (Leads i n id) m both a in
              let (e, w) = Any-witness m b in
              (ground arith, find-Any (λ e. e.0) id m (Any-map m (λ e q. ground arith) b))
        ];
      }
