-- ===== src/Repository/Upserts.antt =====
-- The records that upserts leave.
use homemagic.Prelude.{
  All, Any, Bool-cases, inl, inr, nat_beq, if◌then◌else◌, ℕ, ◌<◌, ◌≡◌, refl, Option, none, some,
  List, [], ◌∷◌, arith, subst,
}
use homemagic.Repository.{insert_by, extend, upsert}

abbrev pub or_else {ℓ} : {A : Type ℓ} → Option A → Option A → Option A
or_else none b = b
or_else (some a) b = some a

module _ {A : Type 0} (key : A → ℕ) where
  -- The first record with an identity, and the last one.
  unfoldable pub find : ℕ → List A → Option A
  find k [] = none
  find k (x ∷ xs) = if nat_beq (key x) k then some x else find k xs

  unfoldable pub find_last : ℕ → List A → Option A
  find_last k [] = none
  find_last k (x ∷ xs) = or_else (find_last k xs) (if nat_beq (key x) k then some x else none)

  -- Strictly increasing identities, which no two records share.
  abbrev pub Above : ℕ → List A → Type 0
  Above b [] = Unit {0}
  Above b (x ∷ xs) = (b < key x) × Above (key x) xs

  abbrev pub IsAscending : List A → Type 0
  IsAscending [] = Unit {0}
  IsAscending (x ∷ xs) = Above (key x) xs

  pub find-insert_by :
      (k : ℕ) (v : A) (m : List A)
      → find k (insert_by key v m) ≡ (if nat_beq (key v) k then some v else find k m)
  unfolding find insert_by
  find-insert_by k v [] = refl
  find-insert_by k v (w ∷ m) = ground (arith, find-insert_by k v m)

  pub All-insert_by :
      (Q : A → Type 0) (v : A) (m : List A) → Q v → All Q m → All Q (insert_by key v m)
  unfolding insert_by
  All-insert_by Q v [] q h = (q, tt)
  All-insert_by Q v (w ∷ m) q (qw, h) = ground (arith, All-insert_by Q v m q h)

  pub find-All :
      (Q : A → Type 0) (k : ℕ) (m : List A) (e : A)
      → All Q m
      → find k m ≡ some e
      → Q e × (key e ≡ k)
  unfolding find
  find-All Q k [] e h f = absurd (cc)
  find-All Q k (x ∷ xs) e (q, h) f = elim (Bool-cases (nat_beq (key x) k)) [
    | inl b ↦ let p : x ≡ e = ground arith in (subst Q p q, ground arith)
    | inr b ↦ find-All Q k xs e h (ground arith)
  ]

  pub find-Member : (k : ℕ) (m : List A) (e : A) → find k m ≡ some e → Any (λ x. x ≡ e) m
  unfolding find
  find-Member k [] e f = absurd (cc)
  find-Member k (x ∷ xs) e f = elim (Bool-cases (nat_beq (key x) k)) [
    | inl b ↦ inl (ground arith)
    | inr b ↦ inr (find-Member k xs e (ground arith))
  ]

  pub find-Any : (k : ℕ) (m : List A) → Any (λ e. key e ≡ k) m → (e : A) × (find k m ≡ some e)
  unfolding find
  find-Any k [] a = absurd a
  find-Any k (x ∷ xs) (inl q) = (x, ground arith)
  find-Any k (x ∷ xs) (inr a) =
      let (e, f) = find-Any k xs a in
      elim (Bool-cases (nat_beq (key x) k)) [
        | inl b ↦ (x, ground arith)
        | inr b ↦ (e, ground arith)
      ]

  find-extend :
      (k : ℕ) (m xs : List A) → find k (extend key m xs) ≡ or_else (find_last k xs) (find k m)
  unfolding extend find_last
  find-extend k m [] = refl
  find-extend k m (x ∷ xs) =
      ground (arith, find-extend k (insert_by key x m) xs, find-insert_by k x m)

  Above-insert_by :
      (b : ℕ) (v : A) (m : List A) → b < key v → Above b m → Above b (insert_by key v m)
  unfolding insert_by
  Above-insert_by b v [] l h = (l, h)
  Above-insert_by b v (w ∷ m) l h = ground (arith, Above-insert_by (key w) v m)

  pub IsAscending-insert_by : (v : A) (m : List A) → IsAscending m → IsAscending (insert_by key v m)
  unfolding insert_by
  IsAscending-insert_by v [] h = h
  IsAscending-insert_by v (w ∷ m) h = ground (arith, Above-insert_by (key w) v m)

  IsAscending-extend : (m xs : List A) → IsAscending m → IsAscending (extend key m xs)
  unfolding extend
  IsAscending-extend m [] h = h
  IsAscending-extend m (x ∷ xs) h =
      IsAscending-extend (insert_by key x m) xs (IsAscending-insert_by x m h)

  -- After an upsert the records are in increasing order of their identities, so that none occurs
  -- twice; and a look-up finds the last incoming record of an identity, or else the last that was
  -- there before.
  pub upsert-IsAscending :
      (current incoming : List A)
      → IsAscending (upsert key current incoming)
        × ((k : ℕ)
            → find k (upsert key current incoming)
              ≡ or_else (find_last k incoming) (find_last k current))
  unfolding upsert find
  upsert-IsAscending current incoming = (
    IsAscending-extend (extend key [] current) incoming (IsAscending-extend [] current tt),
    λ k. ground (arith, find-extend k (extend key [] current) incoming, find-extend k [] current),
  )
