-- ===== src/Prelude/Equality.antt =====
-- Equality of keys and values as an interface: a Boolean test that decides equality.
use Prim.Native.Nat.{ℕ, compare, Ordering}
use mathlib.Core.Path.{◌≡◌}
use mathlib.Core.Logic.{◌↔◌}
use mathlib.Core.Bool.{Bool, true, false, ◌&&◌}
use mathlib.Core.List.{List, [], ◌∷◌}
use native.Mathlib.Omega.{arith}
use Prim.Native.Char.{code}
use Prim.Native.String.{String}
use homemagic.Prelude.Lists.{any}
use homemagic.Prelude.Tests.{nat_beq, nat_beq_iff}

-- The derived `PartialEq` of the source, as a test with the fact that it decides equality.
pub record PartialEq {ℓ} (K : Type ℓ) : Type ℓ where
  pub same : K → K → Bool
  pub same_iff : (x y : K) → (same x y ≡ true) ↔ (x ≡ y)

-- Texts are lists of Unicode scalar values.
abbrev pub Text : Type 0
Text = List ℕ

abbrev pub text_beq : Text → Text → Bool
text_beq [] [] = true
text_beq [] (b ∷ bs) = false
text_beq (a ∷ as') [] = false
text_beq (a ∷ as') (b ∷ bs) = nat_beq a b && text_beq as' bs

pub text_beq_iff : (a b : Text) → (text_beq a b ≡ true) ↔ (a ≡ b)
text_beq_iff [] [] = ground arith
text_beq_iff [] (b ∷ bs) = ground arith
text_beq_iff (a ∷ as') [] = ground arith
text_beq_iff (a ∷ as') (b ∷ bs) = ground (arith, text_beq_iff as' bs)

instance abbrev pub text_eq : PartialEq Text
text_eq = record { same_iff = text_beq_iff; same = text_beq }

instance abbrev pub nat_eq : PartialEq ℕ
nat_eq = record { same_iff = nat_beq_iff; same = nat_beq }

-- A text literal as its scalar values.
abbrev pub text : String → Text
text String.[] = []
text (String.◌∷◌ c s) = code c ∷ text s

infix 50 ◌==◌
abbrev pub ◌==◌ {ℓ} : {K : Type ℓ} ⦃q : PartialEq K⦄ → (x y : K) → Bool
◌==◌ ⦃q⦄ x y = q.same x y

-- `contains` of a set or a list.
abbrev pub contains {ℓ} : {A : Type ℓ} ⦃e : PartialEq A⦄ → A → List A → Bool
contains a xs = any (λ x. x == a) xs

-- The derived order of texts: `<` on strings compares code points.
abbrev pub text_ltb : Text → Text → Bool
text_ltb [] [] = false
text_ltb [] (b ∷ bs) = true
text_ltb (a ∷ as') [] = false
text_ltb (a ∷ as') (b ∷ bs) = elim (compare a b) [
  | Ordering.lt ↦ true
  | Ordering.eq ↦ text_ltb as' bs
  | Ordering.gt ↦ false
]
