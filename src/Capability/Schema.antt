-- ===== src/Capability/Schema.antt =====
-- Schema identifiers (CapabilityDescriptor::schema) and the descriptors that they stand for.
use mathlib.Core.List.{tail, append_assoc}
use homemagic.Prelude.{
  ltb, leb, Bool-cases, all, Text, ℕ, zero, suc, ◌+◌, ◌-◌, ◌*◌, ◌/◌, ◌%◌, ◌<◌, ◌≡◌, refl, ap, ◌∙◌,
  inl, inr, Bool, true, ◌&&◌, [], ◌∷◌, ◌++◌, arith, sym, subst, ◌↔◌,
}
use homemagic.Capability.{decimal_digits, decimal, CapabilityDescriptor, schema}

is_digit : ℕ → Bool
is_digit c = leb 48 c && leb c 57

-- The number that a text of digits stands for, behind the digits read so far.
value_from : ℕ → Text → ℕ
value_from acc [] = acc
value_from acc (c ∷ cs) = value_from (acc * 10 + (c - 48)) cs

value_from-decimal_digits :
    (fuel n : ℕ) (acc : Text)
    → n < fuel
    → value_from 0 (decimal_digits fuel n acc) ≡ value_from n acc
unfolding value_from decimal_digits
value_from-decimal_digits zero n acc h = elim h [ ]
value_from-decimal_digits (suc fuel) n acc h = elim (Bool-cases (ltb n 10)) [
  | inl small ↦ rw small (ap (λ k. value_from k acc) (omega arith))
  | inr big ↦ rw big (
      value_from-decimal_digits fuel (n / 10) ((n % 10 + 48) ∷ acc) (ground arith)
      ∙ ap (λ k. value_from k acc) (omega arith))
]

value_from-decimal : (n : ℕ) → value_from 0 (decimal n) ≡ n
unfolding decimal
value_from-decimal n =
    value_from-decimal_digits (n + 1) n [] (omega arith) ∙ (unfold value_from in refl)

decimal_digits-all :
    (fuel n : ℕ) (acc : Text)
    → all is_digit acc ≡ true
    → all is_digit (decimal_digits fuel n acc) ≡ true
unfolding decimal_digits is_digit
decimal_digits-all zero n acc h = h
decimal_digits-all (suc fuel) n acc h = elim (Bool-cases (ltb n 10)) [
  | inl small ↦ rw small (ground arith)
  | inr big ↦ rw big (decimal_digits-all fuel (n / 10) ((n % 10 + 48) ∷ acc) (ground arith))
]

decimal-all : (n : ℕ) → all is_digit (decimal n) ≡ true
unfolding decimal
decimal-all n = decimal_digits-all (n + 1) n [] refl

not_digits : (as' cs : Text) (P : Type 0) → all is_digit (as' ++ b'v' ∷ cs) ≡ true → P
unfolding is_digit
not_digits [] cs P h = absurd (ground arith)
not_digits (a ∷ as') cs P h = not_digits as' cs P (ground arith)

-- Two texts split at their last `v`, which no digits contain.
split_last :
    (as' bs cs ds : Text)
    → all is_digit cs ≡ true
    → all is_digit ds ≡ true
    → as' ++ b'v' ∷ cs ≡ bs ++ b'v' ∷ ds
    → (as' ≡ bs) × (cs ≡ ds)
split_last [] [] cs ds hc hd e = ground arith
split_last [] (b ∷ bs) cs ds hc hd e =
    not_digits bs ds _ (subst (λ k. all is_digit k ≡ true) (ap tail e) hc)
split_last (a ∷ as') [] cs ds hc hd e =
    not_digits as' cs _ (subst (λ k. all is_digit k ≡ true) (sym (ap tail e)) hd)
split_last (a ∷ as') (b ∷ bs) cs ds hc hd e =
    let (p, q) = split_last as' bs cs ds hc hd (ap tail e) in (ground arith, q)

dot_last : (as' bs : Text) → as' ++ b'.' ∷ [] ≡ bs ++ b'.' ∷ [] → as' ≡ bs
dot_last [] [] e = refl
dot_last [] (b ∷ []) e = absurd (cc)
dot_last [] (b ∷ c ∷ bs) e = absurd (cc)
dot_last (a ∷ []) [] e = absurd (cc)
dot_last (a ∷ c ∷ as') [] e = absurd (cc)
dot_last (a ∷ as') (b ∷ bs) e = let p = dot_last as' bs (ap tail e) in ground arith

regroup : (xs ys : Text) → xs ++ b'.' ∷ ys ≡ (xs ++ b'.' ∷ []) ++ ys
regroup xs ys = rw append_assoc

-- Two capability contracts have the same schema identifier exactly when they have the same name
-- and the same version, whatever characters the names are made of.
pub schema-injective :
    (d e : CapabilityDescriptor)
    → (schema d ≡ schema e) ↔ ((d.name ≡ e.name) × (d.version ≡ e.version))
unfolding schema
schema-injective d e = (
  (λ h.
      let (p, q) =
        split_last (d.name ++ b'.' ∷ []) (e.name ++ b'.' ∷ []) (decimal d.version)
          (decimal e.version) (decimal-all d.version) (decimal-all e.version)
          (sym (regroup d.name _) ∙ h ∙ regroup e.name _) in
      (
        dot_last d.name e.name p,
        sym (value_from-decimal d.version) ∙ ap (value_from 0) q ∙ value_from-decimal e.version,
      )),
  (λ (p, q). rw (p, q)),
)
