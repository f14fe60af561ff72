-- ===== src/Evaluation.antt =====
-- crates/homemagic-application/src/automation_evaluator.rs: the evaluation of compiled conditions,
-- with their data from crates/homemagic-domain/src/automation.rs. The context that is passed as
-- `&mut` is a state that the evaluation returns. The library for time zones, times and floating
-- point numbers is the interface Library; a local time is a number that orders it within its day.
mod Verdicts
mod Comparisons
mod Examples
use Prim.Native.Nat.{compare, Ordering}
use homemagic.Prelude.{
  ltb, leb, if◌then◌else◌, ℤ, pos_part, neg_part, Result, ok, err, ◌>>=◌, ◌>>◌, Text, ℕ, ◌+◌, Bool,
  true, false, ◌&&◌, ◌||◌, Option, none, some, List, [], ◌∷◌, lookup, text, not,
}

pub data AutomationValue : Type 0 where
  null : AutomationValue
  boolean : Bool → AutomationValue
  integer : ℤ → AutomationValue
  decimal string : Text → AutomationValue
  timestamp duration_millis : ℕ → AutomationValue

pub data AutomationComparison : Type 0 where
  equal not_equal less_than less_than_or_equal : AutomationComparison
  greater_than greater_than_or_equal : AutomationComparison

pub record ResolvedAutomationTarget : Type 0 where
  pub device_id : ℕ
  pub endpoint_id : Text
  pub capability : Text

pub data ResolvedAutomationExpression : Type 0 where
  literal : AutomationValue → ResolvedAutomationExpression
  variable : Text → ResolvedAutomationExpression
  observation : List ResolvedAutomationTarget → Text → ResolvedAutomationExpression

mutual
  pub data ResolvedAutomationCondition : Type 0 where
    constant : Bool → ResolvedAutomationCondition
    compared :
        ResolvedAutomationExpression
        → AutomationComparison
        → ResolvedAutomationExpression
        → ResolvedAutomationCondition
    all_of any_of : Conditions → ResolvedAutomationCondition
    negation : ResolvedAutomationCondition → ResolvedAutomationCondition
    time_window : Text → Text → Text → ResolvedAutomationCondition
    state_duration : ResolvedAutomationCondition → ℕ → ResolvedAutomationCondition

  -- Vec<ResolvedAutomationCondition>
  pub data Conditions : Type 0 where
    none_left : Conditions
    and_then : ResolvedAutomationCondition → Conditions → Conditions

pub data AutomationEvaluationError : Type 0 where
  missing_value : Text → AutomationEvaluationError
  type_mismatch invalid_time_window durable_duration_required : AutomationEvaluationError
  condition_hash duration_overflow duration_timer_missing : AutomationEvaluationError

abbrev pub Variables : Type 0
Variables = List (Text × AutomationValue)

-- What an evaluation returns, with the context that it leaves.
abbrev pub Outcome : Type 0 → Type 0
Outcome S = Result Bool AutomationEvaluationError × S

-- AutomationEvaluationContext
pub record AutomationEvaluationContext (S : Type 0) : Type 0 where
  pub now : S → ℕ
  pub observe : S → ResolvedAutomationTarget → Text → Option AutomationValue
  pub hold : S → ResolvedAutomationCondition → ℕ → Variables → Outcome S

-- Tz::from_str with DateTime::with_timezone, NaiveTime::parse_from_str, and f64::partial_cmp on two
-- parsed texts.
pub record Library : Type 0 where
  pub local_time : Text → Option (ℕ → ℕ)
  pub parse_time : Text → Option ℕ
  pub compare_decimals : Text → Text → Option Ordering

abbrev pub ok_or : {A E : Type 0} → Option A → E → Result A E
ok_or none e = err e
ok_or (some a) e = ok a

-- The derived orders.
abbrev pub compare_booleans : Bool → Bool → Ordering
compare_booleans false true = Ordering.lt
compare_booleans true false = Ordering.gt
compare_booleans _ _ = Ordering.eq

abbrev pub compare_texts : Text → Text → Ordering
compare_texts [] [] = Ordering.eq
compare_texts [] (b ∷ bs) = Ordering.lt
compare_texts (a ∷ as') [] = Ordering.gt
compare_texts (a ∷ as') (b ∷ bs) = elim (compare a b) [
  | Ordering.lt ↦ Ordering.lt
  | Ordering.eq ↦ compare_texts as' bs
  | Ordering.gt ↦ Ordering.gt
]

abbrev pub compare_integers : ℤ → ℤ → Ordering
compare_integers a b = compare (pos_part a + neg_part b) (pos_part b + neg_part a)

-- The last match of compare_values.
unfoldable pub accepts : AutomationComparison → Ordering → Bool
accepts equal o = elim o [ Ordering.eq ↦ true | _ ↦ false ]
accepts not_equal o = elim o [ Ordering.eq ↦ false | _ ↦ true ]
accepts less_than o = elim o [ Ordering.lt ↦ true | _ ↦ false ]
accepts less_than_or_equal o = elim o [ Ordering.gt ↦ false | _ ↦ true ]
accepts greater_than o = elim o [ Ordering.gt ↦ true | _ ↦ false ]
accepts greater_than_or_equal o = elim o [ Ordering.lt ↦ false | _ ↦ true ]

-- The test of evaluate_time_window.
unfoldable pub in_window : ℕ → ℕ → ℕ → Bool
in_window start end local =
    if leb start end then leb start local && ltb local end else leb start local || ltb local end

module _ (library : Library) where
  -- The first match of compare_values.
  unfoldable pub ordering : AutomationValue → AutomationValue → Option Ordering
  ordering null null = some Ordering.eq
  ordering (boolean a) (boolean b) = some (compare_booleans a b)
  ordering (integer a) (integer b) = some (compare_integers a b)
  ordering (decimal a) (decimal b) = library.compare_decimals a b
  ordering (string a) (string b) = some (compare_texts a b)
  ordering (timestamp a) (timestamp b) = some (compare a b)
  ordering (duration_millis a) (duration_millis b) = some (compare a b)
  ordering _ _ = none

  unfoldable pub compare_values :
      AutomationValue
      → AutomationComparison
      → AutomationValue
      → Result Bool AutomationEvaluationError
  unfolding ordering accepts
  compare_values left operator right = do
    o ← ok_or (ordering left right) type_mismatch
    ok (accepts operator o)

  unfoldable pub evaluate_time_window :
      ℕ → Text → Text → Text → Result Bool AutomationEvaluationError
  unfolding in_window
  evaluate_time_window now timezone start end = do
    local_time ← ok_or (library.local_time timezone) invalid_time_window
    first ← ok_or (library.parse_time start) invalid_time_window
    last ← ok_or (library.parse_time end) invalid_time_window
    ok (in_window first last (local_time now))

module _ {S : Type 0} (context : AutomationEvaluationContext S) where
  -- evaluate_automation_expression
  unfoldable pub evaluate_expression :
      ResolvedAutomationExpression
      → Variables
      → S
      → Result AutomationValue AutomationEvaluationError
  evaluate_expression (literal value) variables s = ok value
  evaluate_expression (variable name) variables s =
      ok_or (lookup name variables) (missing_value (text "variable"))
  evaluate_expression (observation [] field) variables s =
      err (missing_value (text "observation target"))
  evaluate_expression (observation (target ∷ _) field) variables s =
      ok_or (context.observe s target field) (missing_value (text "observation"))

-- One round of the loop over the conditions of `all`, and of `any`: an error or a decisive verdict
-- ends the loop.
abbrev pub unless_false : {S : Type 0} → Outcome S → (S → Outcome S) → Outcome S
unless_false (ok true, s) rest = rest s
unless_false (ok false, s) rest = (ok false, s)
unless_false (err e, s) rest = (err e, s)

abbrev pub unless_true : {S : Type 0} → Outcome S → (S → Outcome S) → Outcome S
unless_true (ok true, s) rest = (ok true, s)
unless_true (ok false, s) rest = rest s
unless_true (err e, s) rest = (err e, s)

abbrev pub inverted : {S : Type 0} → Outcome S → Outcome S
inverted (ok b, s) = (ok (not b), s)
inverted (err e, s) = (err e, s)

module _ {S : Type 0} (library : Library) (context : AutomationEvaluationContext S) where
  abbrev pub compare_expressions :
      ResolvedAutomationExpression
      → AutomationComparison
      → ResolvedAutomationExpression
      → Variables
      → S
      → Result Bool AutomationEvaluationError
  compare_expressions left operator right variables s = do
    a ← evaluate_expression context left variables s
    b ← evaluate_expression context right variables s
    compare_values library a operator b

  -- evaluate_automation_condition, with its loops over the conditions of `all` and of `any`
  unfoldable mutual
    pub evaluate : ResolvedAutomationCondition → Variables → S → Outcome S
    evaluate (constant value) variables s = (ok value, s)
    evaluate (compared left operator right) variables s =
        (compare_expressions left operator right variables s, s)
    evaluate (all_of conditions) variables s = evaluate_all conditions variables s
    evaluate (any_of conditions) variables s = evaluate_any conditions variables s
    evaluate (negation condition) variables s = inverted (evaluate condition variables s)
    evaluate (time_window timezone start end) variables s =
        (evaluate_time_window library (context.now s) timezone start end, s)
    evaluate (state_duration condition duration_ms) variables s =
        context.hold s condition duration_ms variables

    pub evaluate_all : Conditions → Variables → S → Outcome S
    evaluate_all none_left variables s = (ok true, s)
    evaluate_all (and_then c cs) variables s =
        unless_false (evaluate c variables s) (λ s'. evaluate_all cs variables s')

    pub evaluate_any : Conditions → Variables → S → Outcome S
    evaluate_any none_left variables s = (ok false, s)
    evaluate_any (and_then c cs) variables s =
        unless_true (evaluate c variables s) (λ s'. evaluate_any cs variables s')
