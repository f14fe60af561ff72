-- ===== src/Evaluation/Comparisons.antt =====
-- Comparisons of values, and time windows.
use Prim.Native.Nat.{compare, Ordering}
use homemagic.Prelude.{
  leb, if◌then◌else◌, Result, ok, err, Text, ℕ, ◌+◌, ◌-◌, ◌<◌, ◌≡◌, refl, ◌↔◌, Bool, true, not,
  Option, none, some, [], ◌∷◌, arith, pos_part, neg_part, ap, ◌>>=◌,
}
use homemagic.Evaluation.{
  AutomationComparison, equal, not_equal, less_than, less_than_or_equal, greater_than,
  greater_than_or_equal, compare_booleans, compare_texts, accepts, in_window, AutomationValue, null,
  boolean, integer, decimal, string, timestamp, duration_millis, Library, ordering,
  AutomationEvaluationError, type_mismatch, ok_or, compare_values,
}

-- The time that the clock runs from `start` until it next shows `t`, for a day of length `day`.
abbrev pub clockwise : ℕ → ℕ → ℕ → ℕ
clockwise day start t = if leb start t then t - start else t + day - start

-- A local time lies in a window exactly if the clock, from the window's start on, reaches it before
-- the window's end: also for a window across midnight, and never for a window that ends when it
-- starts.
pub in_window-clockwise :
    (day start end local : ℕ)
    → start < day
    → end < day
    → local < day
    → (in_window start end local ≡ true) ↔ (clockwise day start local < clockwise day start end)
unfolding in_window
in_window-clockwise day start end local h k l = ground arith

abbrev pub opposite : AutomationComparison → AutomationComparison
opposite equal = not_equal
opposite not_equal = equal
opposite less_than = greater_than_or_equal
opposite less_than_or_equal = greater_than
opposite greater_than = less_than_or_equal
opposite greater_than_or_equal = less_than

-- The comparison that asks the same of the exchanged values.
abbrev pub mirrored : AutomationComparison → AutomationComparison
mirrored less_than = greater_than
mirrored less_than_or_equal = greater_than_or_equal
mirrored greater_than = less_than
mirrored greater_than_or_equal = less_than_or_equal
mirrored op = op

abbrev pub reverse : Ordering → Ordering
reverse Ordering.lt = Ordering.gt
reverse Ordering.eq = Ordering.eq
reverse Ordering.gt = Ordering.lt

abbrev pub map_result : {A B E : Type 0} → (A → B) → Result A E → Result B E
map_result f (ok a) = ok (f a)
map_result f (err e) = err e

abbrev pub map_option : (Ordering → Ordering) → Option Ordering → Option Ordering
map_option f none = none
map_option f (some o) = some (f o)

compare-reverse : (a b : ℕ) → compare b a ≡ reverse (compare a b)
compare-reverse a b = ground arith

pub compare_texts-reverse : (a b : Text) → compare_texts b a ≡ reverse (compare_texts a b)
compare_texts-reverse [] [] = refl
compare_texts-reverse [] (b ∷ bs) = refl
compare_texts-reverse (a ∷ as') [] = refl
compare_texts-reverse (a ∷ as') (b ∷ bs) = ground (arith, compare_texts-reverse as' bs)

compare_booleans-reverse : (a b : Bool) → compare_booleans b a ≡ reverse (compare_booleans a b)
compare_booleans-reverse a b = ground arith

accepts-mirrored :
    (op : AutomationComparison) (o : Ordering) → accepts (mirrored op) (reverse o) ≡ accepts op o
unfolding accepts
accepts-mirrored op o = ground arith

accepts-opposite :
    (op : AutomationComparison) (o : Ordering) → accepts (opposite op) o ≡ not (accepts op o)
unfolding accepts
accepts-opposite op o = ground arith

module _ (library : Library) where
  -- Reversing is what the comparison of the exchanged values does.
  ordering-reverse :
      ((a b : Text)
        → library.compare_decimals b a ≡ map_option reverse (library.compare_decimals a b))
      → (v w : AutomationValue) → ordering library w v ≡ map_option reverse (ordering library v w)
  unfolding ordering
  ordering-reverse h null null = refl
  ordering-reverse h (boolean a) (boolean b) = ap some (compare_booleans-reverse a b)
  ordering-reverse h (integer a) (integer b) =
      ap some (compare-reverse (pos_part a + neg_part b) (pos_part b + neg_part a))
  ordering-reverse h (decimal a) (decimal b) = h a b
  ordering-reverse h (string a) (string b) = ap some (compare_texts-reverse a b)
  ordering-reverse h (timestamp a) (timestamp b) = ap some (compare-reverse a b)
  ordering-reverse h (duration_millis a) (duration_millis b) = ap some (compare-reverse a b)
  ordering-reverse h v w = refl

  judged : Option Ordering → AutomationComparison → Result Bool AutomationEvaluationError
  judged o op = ok_or o type_mismatch >>= λ x. ok (accepts op x)

  judged-mirrored :
      (o : Option Ordering) (op : AutomationComparison)
      → judged (map_option reverse o) (mirrored op) ≡ judged o op
  unfolding judged
  judged-mirrored none op = refl
  judged-mirrored (some o) op = ap ok (accepts-mirrored op o)

  judged-opposite :
      (o : Option Ordering) (op : AutomationComparison)
      → judged o (opposite op) ≡ map_result not (judged o op)
  unfolding judged
  judged-opposite none op = refl
  judged-opposite (some o) op = ap ok (accepts-opposite op o)

  -- Whatever the values are, their comparison by the opposite operator has the opposite verdict or
  -- the same error; and if the comparison of two decimals is reversed by exchanging them, then the
  -- exchanged values compare by the mirrored operator as the values do by the operator itself.
  compare_values-opposite :
      ((a b : Text)
        → library.compare_decimals b a ≡ map_option reverse (library.compare_decimals a b))
      → (v w : AutomationValue) (op : AutomationComparison)
      → (compare_values library v (opposite op) w ≡ map_result not (compare_values library v op w))
        × (compare_values library w (mirrored op) v ≡ compare_values library v op w)
  unfolding compare_values judged
  compare_values-opposite h v w op = (
    judged-opposite (ordering library v w) op,
    rw (ordering-reverse h v w) (judged-mirrored (ordering library v w) op),
  )
