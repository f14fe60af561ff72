-- ===== src/Reconciliation/Index.antt =====
-- The look-ups in the index of native identities.
use homemagic.Prelude.{
  nat_beq, nat_beq_iff, Bool-cases, Any, Text, text_beq, text_beq_iff, ℕ, ◌≡◌, refl, sym, ap, ◌∙◌,
  subst, ◌⊎◌, inl, inr, ◌&&◌, none, some, List, [], ◌∷◌, arith,
}
use homemagic.Device.{DeviceRecord}
use homemagic.Reconciliation.{native_get, collect_index}

pub native_get-cons :
    (i : ℕ) (n : Text) (j : ℕ) (m : Text) (id' id : ℕ) (index : List ((ℕ × Text) × ℕ))
    → native_get i n (((j, m), id') ∷ index) ≡ some id
    → ((id' ≡ id) × (j ≡ i) × (m ≡ n)) ⊎ (native_get i n index ≡ some id)
unfolding native_get
native_get-cons i n j m id' id index h = ground (arith, text_beq_iff m n)

pub native_get-other :
    (i : ℕ) (n : Text) (j : ℕ) (m : Text) (id' id : ℕ) (index : List ((ℕ × Text) × ℕ))
    → native_get j m index ≡ none
    → native_get i n index ≡ some id
    → native_get i n (((j, m), id') ∷ index) ≡ some id
unfolding native_get
native_get-other i n j m id' id index a b = elim (Bool-cases (nat_beq j i && text_beq m n)) [
  | inl q ↦
      let e : j ≡ i = ground arith in
      let f : m ≡ n = (text_beq_iff m n).0 (ground arith) in
      let x = ap (λ z. native_get z m index) e in
      let y = ap (λ z. native_get i z index) f in let z = sym a ∙ x ∙ y ∙ b in absurd (cc)
  | inr q ↦ ground arith
]

module _ {P J : Type 0} where
  abbrev pub Leads : ℕ → Text → ℕ → ℕ × DeviceRecord P J → Type 0
  Leads i n id e = (e.1.snapshot.id ≡ id) × (e.1.integration_id ≡ i) × (e.1.snapshot.native_id ≡ n)

  -- Where each entry of the initial index comes from.
  pub native_get-collect_index :
      (m : List (ℕ × DeviceRecord P J)) (index : List ((ℕ × Text) × ℕ)) (i : ℕ) (n : Text) (id : ℕ)
      → native_get i n (collect_index m index) ≡ some id
      → (native_get i n index ≡ some id) ⊎ Any (Leads i n id) m
  unfolding collect_index
  native_get-collect_index [] index i n id h = inl h
  native_get-collect_index ((k, r) ∷ m) index i n id h =
      elim (native_get-collect_index m _ i n id h) [
        | inr a ↦ inr (inr a)
        | inl e ↦
            elim (native_get-cons i n r.integration_id r.snapshot.native_id r.snapshot.id id index
              e) [ inl q ↦ inr (inl q) | inr q ↦ inl q ]
      ]

module _ {P J : Type 0} (r0 : DeviceRecord P J) where
  abbrev pub IsIndexed : List ((ℕ × Text) × ℕ) → Type 0
  IsIndexed index = (id : ℕ) × (native_get r0.integration_id r0.snapshot.native_id index ≡ some id)

  IsIndexed-cons :
      (i : ℕ) (n : Text) (id : ℕ) (index : List ((ℕ × Text) × ℕ))
      → IsIndexed index
      → IsIndexed (((i, n), id) ∷ index)
  unfolding native_get
  IsIndexed-cons i n id index (o, h) =
      elim (Bool-cases (nat_beq i r0.integration_id && text_beq n r0.snapshot.native_id)) [
        | inl q ↦ (id, ground arith)
        | inr q ↦ (o, ground arith)
      ]

  IsIndexed-collect_index :
      (m : List (ℕ × DeviceRecord P J)) (index : List ((ℕ × Text) × ℕ))
      → IsIndexed index
      → IsIndexed (collect_index m index)
  unfolding collect_index
  IsIndexed-collect_index [] index h = h
  IsIndexed-collect_index ((_, r) ∷ m) index h =
      IsIndexed-collect_index m _
        (IsIndexed-cons r.integration_id r.snapshot.native_id r.snapshot.id index h)

  native_get_self :
      (index : List ((ℕ × Text) × ℕ))
      → IsIndexed (((r0.integration_id, r0.snapshot.native_id), r0.snapshot.id) ∷ index)
  unfolding native_get
  native_get_self index =
      let a = (nat_beq_iff r0.integration_id r0.integration_id).1 refl in
      let b = (text_beq_iff r0.snapshot.native_id r0.snapshot.native_id).1 refl in
      (r0.snapshot.id, ground arith)

  pub native_get-collected :
      (m : List (ℕ × DeviceRecord P J)) (index : List ((ℕ × Text) × ℕ))
      → Any (λ e. e ≡ (r0.snapshot.id, r0)) m
      → IsIndexed (collect_index m index)
  unfolding collect_index
  native_get-collected [] index a = absurd a
  native_get-collected ((k, r) ∷ m) index (inl q) =
      let p : r0 ≡ r = sym (ap (λ e. e.1) q) in
      IsIndexed-collect_index m _ (
        subst
          (λ (z : DeviceRecord P J).
            IsIndexed (((z.integration_id, z.snapshot.native_id), z.snapshot.id) ∷ index))
          p (native_get_self index))
  native_get-collected ((k, r) ∷ m) index (inr a) = native_get-collected m _ a
