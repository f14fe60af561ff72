-- ===== src/Evaluation/Examples.antt =====
-- Evaluations at concrete inputs: a library with one time zone whose local time is the instant's
-- second within the day, and a context that counts how often it was asked for a duration.
use homemagic.Prelude.{
  if◌then◌else◌, pos, ok, text_eq, nat_eq, text, ◌==◌, ℕ, ◌+◌, ◌%◌, ◌<◌, ◌≡◌, refl, ◌↔◌, true,
  false, none, some, [], ◌∷◌, arith,
}
use homemagic.Evaluation.{
  integer, equal, less_than, ResolvedAutomationExpression, literal, variable, observation,
  ResolvedAutomationCondition, compared, all_of, any_of, time_window, none_left, and_then,
  AutomationEvaluationContext, Library, compare_texts, accepts, in_window, ordering, compare_values,
  evaluate_time_window, evaluate_expression, evaluate,
}
use homemagic.Evaluation.Verdicts.{Every, evaluate-Every}
use homemagic.Evaluation.Comparisons.{clockwise, in_window-clockwise}

abbrev small_library : Library
small_library = record {
  local_time = λ _. some (λ now. now % 86400);
  parse_time = λ t.
      if t == text "22:00:00"
      then some 79200
      else if t == text "06:00:00"
      then some 21600
      else none;
  compare_decimals = λ a b. some (compare_texts a b);
}

abbrev asked : AutomationEvaluationContext ℕ
asked = record {
  now = λ s. 82800;
  observe = λ s target field. if field == text "level" then some (integer (pos 40)) else none;
  hold = λ s c n variables. (ok true, s + 1);
}

abbrev night : ResolvedAutomationCondition
night = time_window (text "UTC") (text "22:00:00") (text "06:00:00")

abbrev lamp : ResolvedAutomationExpression
lamp =
    observation
      (record { device_id = 3; endpoint_id = text "main"; capability = text "level" } ∷ [])
      (text "level")

abbrev dimmed : ResolvedAutomationCondition
dimmed = compared lamp less_than (literal (integer (pos 50)))

abbrev missing : ResolvedAutomationCondition
missing = compared lamp equal (variable (text "scene"))

at_night :
    evaluate small_library asked (all_of (and_then night (and_then dimmed none_left))) [] 0
    ≡ (ok true, 0)
unfolding evaluate evaluate_time_window in_window compare_values ordering accepts
    evaluate_expression
at_night = refl

-- `any` does not come to the condition that would fail.
short_circuit :
    evaluate small_library asked (any_of (and_then dimmed (and_then missing none_left))) [] 0
    ≡ (ok true, 0)
unfolding evaluate compare_values ordering accepts evaluate_expression
short_circuit = refl

evaluate-Every_example :
    ((evaluate small_library asked (all_of (and_then night (and_then dimmed none_left))) [] 0).1
      ≡ 0)
    × ((evaluate small_library asked (any_of (and_then night (and_then dimmed none_left))) [] 0).1
        ≡ 0)
    × (((evaluate small_library asked (all_of (and_then night (and_then dimmed none_left))) [] 0).0
          ≡ ok true)
        ↔ Every small_library asked [] true 0 (and_then night (and_then dimmed none_left)))
    × (((evaluate small_library asked (any_of (and_then night (and_then dimmed none_left))) [] 0).0
          ≡ ok false)
        ↔ Every small_library asked [] false 0 (and_then night (and_then dimmed none_left)))
evaluate-Every_example =
    evaluate-Every small_library asked [] (and_then night (and_then dimmed none_left)) 0
      (tt, (tt, tt))

in_window-clockwise_example :
    (in_window 79200 21600 82800 ≡ true)
    ↔ (clockwise 86400 79200 82800 < clockwise 86400 79200 21600)
in_window-clockwise_example =
    in_window-clockwise 86400 79200 21600 82800 (omega arith) (omega arith) (omega arith)
