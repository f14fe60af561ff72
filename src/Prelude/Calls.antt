-- ===== src/Prelude/Calls.antt =====
-- Code that awaits calls: from a state of the outside world to a result and the state after it.
use mathlib.Core.Path.{◌≡◌, refl, subst}
use mathlib.Core.Bool.{Bool, true, false}
use homemagic.Prelude.Tests.{if◌then◌else◌}
use homemagic.Prelude.Fallible.{Result, ok, err}

abbrev pub Call : Type 0 → Type 0 → Type 0 → Type 0
Call W E A = W → Result A E × W

module _ {W E A C : Type 0} where
  abbrev pub continue_with : Result A E × W → (A → Call W E C) → Result C E × W
  continue_with (ok a, w) f = f a w
  continue_with (err e, w) f = (err e, w)

  abbrev pub chain : Call W E A → (A → Call W E C) → Call W E C
  chain m f = λ w. continue_with (m w) f

module _ {W E A : Type 0} where
  abbrev pub give : A → Call W E A
  give a = λ w. (ok a, w)

  abbrev pub lift_error : {B : Type 0} → (B → E) → Result A B × W → Result A E × W
  lift_error f (ok a, w) = (ok a, w)
  lift_error f (err e, w) = (err (f e), w)

  -- `.await.map_err(f)?`
  abbrev pub await : {B : Type 0} → (B → E) → (W → Result A B × W) → Call W E A
  await f m = λ w. lift_error f (m w)

-- A body whose local values are dropped when it ends, by a result and by an error alike: what the
-- language does with the values that a function owns.
abbrev pub scoped : {W E A : Type 0} → (W → W) → Call W E A → Call W E A
scoped drop m = λ w. let (r, w') = m w in (r, drop w')

-- A call satisfies P when it gives a result, and may fail.
abbrev pub Gives : {W E A : Type 0} → (A → Type 0) → Result A E × W → Type 0
Gives P (ok a, w) = P a
Gives P (err e, w) = Unit {0}

module _ {W E A C : Type 0} where
  pub continue_with-Gives :
      (Q : A → Type 0) (P : C → Type 0) (r : Result A E × W) (f : A → Call W E C)
      → Gives Q r
      → ((a : A) (w : W) → Q a → Gives P (f a w))
      → Gives P (continue_with r f)
  continue_with-Gives Q P (ok a, w) f q h = h a w q
  continue_with-Gives Q P (err e, w) f q h = tt

module _ {W E A B : Type 0} where
  pub lift_error-Gives :
      (P : A → Type 0) (f : B → E) (r : Result A B × W) → Gives P r → Gives P (lift_error f r)
  lift_error-Gives P f (ok a, w) q = q
  lift_error-Gives P f (err e, w) q = tt

module _ {W E A C : Type 0} where
  pub chain-Gives :
      (P : C → Type 0) (r : Result A E × W) (f : A → Call W E C)
      → ((a : A) (w : W) → Gives P (f a w))
      → Gives P (continue_with r f)
  chain-Gives P (ok a, w) f h = h a w
  chain-Gives P (err e, w) f h = tt

module _ {W E A : Type 0} where
  pub Gives-map :
      (Q P : A → Type 0) (r : Result A E × W) → ((a : A) → Q a → P a) → Gives Q r → Gives P r
  Gives-map Q P (ok a, w) f h = f a h
  Gives-map Q P (err e, w) f h = tt

  pub either-Gives :
      (P : A → Type 0) (b : Bool) (m n : Call W E A) (w : W)
      → (b ≡ true → Gives P (m w))
      → (b ≡ false → Gives P (n w))
      → Gives P ((if b then m else n) w)
  either-Gives P true m n w h k = h refl
  either-Gives P false m n w h k = k refl

module _ {W E A : Type 0} where
  pub Gives-and :
      (P Q : A → Type 0) (r : Result A E × W) → Gives P r → Gives Q r → Gives (λ a. P a × Q a) r
  Gives-and P Q (ok a, w) p q = (p, q)
  Gives-and P Q (err e, w) p q = tt

  pub Gives-forall :
      {I : Type 0} (P : I → A → Type 0) (r : Result A E × W)
      → ((i : I) → Gives (P i) r)
      → Gives (λ a. (i : I) → P i a) r
  Gives-forall P (ok a, w) h = h
  Gives-forall P (err e, w) h = tt

  pub Gives-assuming :
      {H : Type 0} (P : A → Type 0) (r : Result A E × W) → (H → Gives P r) → Gives (λ a. H → P a) r
  Gives-assuming P (ok a, w) h = h
  Gives-assuming P (err e, w) h = tt

-- What a step of a chain is followed by, in terms of the state: I holds of the state after the first
-- part, and J of the state in the end, if the rest takes a result of the first part and I to J.
module _ {W E A C : Type 0} where
  pub chain-State :
      (I J : W → Type 0) (r : Result A E × W) (f : A → Call W E C)
      → I r.1
      → ((w : W) → I w → J w)
      → ((a : A) (w : W) → r ≡ (ok a, w) → I w → J (f a w).1)
      → J (continue_with r f).1
  chain-State I J (ok a, w) f i stop go = go a w refl i
  chain-State I J (err e, w) f i stop go = stop w i

module _ {W E A B C : Type 0} where
  pub await-State :
      (I J : W → Type 0) (g : B → E) (r : Result A B × W) (f : A → Call W E C)
      → I r.1
      → ((w : W) → I w → J w)
      → ((a : A) (w : W) → r ≡ (ok a, w) → I w → J (f a w).1)
      → J (continue_with (lift_error g r) f).1
  await-State I J g (ok a, w) f i stop go = go a w refl i
  await-State I J g (err e, w) f i stop go = stop w i

module _ {W E A : Type 0} where
  pub either-State :
      (J : W → Type 0) (b : Bool) (m n : Call W E A) (w : W)
      → (b ≡ true → J (m w).1)
      → (b ≡ false → J (n w).1)
      → J ((if b then m else n) w).1
  either-State J true m n w h k = h refl
  either-State J false m n w h k = k refl

module _ {W E A : Type 0} where
  pub Gives-result :
      (P : A → Type 0) (r : Result A E × W) {a : A} {w : W} → Gives P r → r ≡ (ok a, w) → P a
  Gives-result P r g e = subst (Gives P) e g

module _ {W E A B C : Type 0} where
  pub await-Gives :
      (P : C → Type 0) (g : B → E) (r : Result A B × W) (f : A → Call W E C)
      → ((a : A) (w : W) → r ≡ (ok a, w) → Gives P (f a w))
      → Gives P (continue_with (lift_error g r) f)
  await-Gives P g (ok a, w) f h = h a w refl
  await-Gives P g (err e, w) f h = tt

module _ {W E A B : Type 0} where
  pub lift_error-State :
      (I : W → Type 0) (g : B → E) (r : Result A B × W) → I r.1 → I (lift_error g r).1
  lift_error-State I g (ok a, w) i = i
  lift_error-State I g (err e, w) i = i

  pub lift_error-result :
      (P : A → Type 0) (g : B → E) (r : Result A B × W)
      → ((a : A) (w : W) → r ≡ (ok a, w) → P a)
      → Gives P (lift_error g r)
  lift_error-result P g (ok a, w) h = h a w refl
  lift_error-result P g (err e, w) h = tt

module _ {W E A C : Type 0} where
  pub step-Gives :
      (P : C → Type 0) (r : Result A E × W) (f : A → Call W E C)
      → ((a : A) (w : W) → r ≡ (ok a, w) → Gives P (f a w))
      → Gives P (continue_with r f)
  step-Gives P (ok a, w) f h = h a w refl
  step-Gives P (err e, w) f h = tt

  -- A property of the state that both parts of a chain keep.
  pub chain-Kept :
      (I : W → Type 0) (r : Result A E × W) (f : A → Call W E C)
      → I r.1
      → ((a : A) (w : W) → I w → I (f a w).1)
      → I (continue_with r f).1
  chain-Kept I (ok a, w) f i go = go a w i
  chain-Kept I (err e, w) f i go = i
