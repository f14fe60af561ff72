-- ===== src/Prelude/Fallible.antt =====
-- Rust's `Result`, with `?` as the bind of a `do` block.
use mathlib.Core.Path.{◌≡◌, refl, sym, ap, ◌∙◌}
use mathlib.Core.Bool.{Bool, true, false}
use mathlib.Core.Logic.{◌⊎◌, ◌↔◌, inl, inr}

pub data Result {ℓ κ} (A : Type ℓ) (E : Type κ) : Type (ℓ ⊔ κ) where
  ok : A → Result A E
  err : E → Result A E

infixl 5 ◌>>=◌ ◌>>◌
abbrev pub ◌>>=◌ {ℓ κ μ} :
    {A : Type ℓ} {B : Type κ} {E : Type μ} → Result A E → (A → Result B E) → Result B E
ok a >>= f = f a
err e >>= f = err e

abbrev pub ◌>>◌ {κ μ} : {B : Type κ} {E : Type μ} → Result (Unit {0}) E → Result B E → Result B E
m >> k = m >>= λ _. k

-- `if !b { return Err(e) }`.
abbrev pub require {μ} : {E : Type μ} → Bool → E → Result (Unit {0}) E
require true e = ok tt
require false e = err e

abbrev pub is_ok {ℓ κ} : {A : Type ℓ} {E : Type κ} → Result A E → Bool
is_ok (ok a) = true
is_ok (err e) = false

-- Result::map_err
abbrev pub map_err {ℓ κ μ} :
    {A : Type ℓ} {E : Type κ} {F : Type μ} → (E → F) → Result A E → Result A F
map_err f (ok a) = ok a
map_err f (err e) = err (f e)

pub Result-cases {ℓ κ} :
    {A : Type ℓ} {E : Type κ} (r : Result A E) → ((a : A) × (r ≡ ok a)) ⊎ ((e : E) × (r ≡ err e))
Result-cases (ok a) = inl (a, refl)
Result-cases (err e) = inr (e, refl)

-- A check followed by a computation is accepted exactly if both are.
pub both_ok {ℓ κ} :
    {B : Type ℓ} {E : Type κ} (m : Result (Unit {0}) E) (k : Result B E) (b : B)
    → (m >> k ≡ ok b) ↔ ((m ≡ ok tt) × (k ≡ ok b))
both_ok (ok x) k b = ((λ h. (refl, h)), (λ (_, h). h))
both_ok (err e) k b = ((λ h. absurd (cc)), (λ (h, _). absurd (cc)))

-- What the outcome of a chain tells of its first part.
module _ {ℓ κ μ} {A : Type ℓ} {B : Type κ} {E : Type μ} (first : Result A E)
    (rest : A → Result B E) where
  chained : {r : Result A E} {s : Result B E} → first ≡ r → (first >>= rest) ≡ s → (r >>= rest) ≡ s
  chained e h = sym (ap (λ r. r >>= rest) e) ∙ h

  pub >>=-ok : {b : B} → (first >>= rest) ≡ ok b → (a : A) × (first ≡ ok a) × (rest a ≡ ok b)
  >>=-ok h = elim (Result-cases first) [
    | inl (a, e) ↦ (a, e, chained e h)
    | inr (x, e) ↦ let refused = chained e h in absurd (cc)
  ]

  pub >>=-err :
      {x : E}
      → (first >>= rest) ≡ err x
      → (first ≡ err x) ⊎ ((a : A) × (first ≡ ok a) × (rest a ≡ err x))
  >>=-err h = elim (Result-cases first) [
    | inl (a, e) ↦ inr (a, e, chained e h)
    | inr (y, e) ↦ let refused = chained e h in inl (cc)
  ]

pub map_err-err {ℓ κ μ} :
    {A : Type ℓ} {E : Type κ} {F : Type μ} (f : E → F) (m : Result A E) {x : F}
    → map_err f m ≡ err x
    → (e : E) × (x ≡ f e)
map_err-err f (ok a) h = absurd (cc)
map_err-err f (err e) h = (e, cc)
