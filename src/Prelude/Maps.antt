-- ===== src/Prelude/Maps.antt =====
-- `BTreeMap` with text keys: the list of its entries in increasing order of the keys.
use mathlib.Core.Path.{◌≡◌, refl}
use mathlib.Core.Option.{Option, none, some}
use mathlib.Core.List.{List, [], ◌∷◌}
use native.Mathlib.Omega.{arith}
use homemagic.Prelude.Tests.{if◌then◌else◌}
use homemagic.Prelude.Equality.{Text, text_beq, text_beq_iff, text_ltb}

module _ {ℓ} {V : Type ℓ} where
  -- BTreeMap::get
  unfoldable pub lookup : Text → List (Text × V) → Option V
  lookup k [] = none
  lookup k ((j, v) ∷ m) = if text_beq j k then some v else lookup k m

  -- BTreeMap::insert
  unfoldable pub insert_sorted : Text → V → List (Text × V) → List (Text × V)
  insert_sorted k v [] = (k, v) ∷ []
  insert_sorted k v ((j, w) ∷ m) =
      let later = (j, w) ∷ insert_sorted k v m in
      if text_beq j k then (k, v) ∷ m else if text_ltb k j then (k, v) ∷ (j, w) ∷ m else later

  pub lookup-insert_sorted :
      (k j : Text) (v : V) (m : List (Text × V))
      → lookup j (insert_sorted k v m) ≡ (if text_beq k j then some v else lookup j m)
  unfolding lookup insert_sorted
  lookup-insert_sorted k j v [] = refl
  lookup-insert_sorted k j v ((i, w) ∷ m) =
      ground
        (arith, text_beq_iff k j, text_beq_iff i k, text_beq_iff i j, lookup-insert_sorted k j v m)

  -- No key occurs twice, which the order of the keys entails.
  abbrev pub Distinct : List (Text × V) → Type ℓ
  Distinct [] = Unit
  Distinct ((k, v) ∷ m) = (lookup k m ≡ none) × Distinct m
