-- ===== src/Evaluation/Verdicts.antt =====
-- The verdicts of composed conditions.
use homemagic.Prelude.{◌≡◌, refl, Bool, ok, err, sym, ◌∙◌, ◌↔◌, true, false}
use homemagic.Evaluation.{
  ResolvedAutomationCondition, constant, compared, all_of, any_of, negation, time_window,
  state_duration, Conditions, none_left, and_then, Variables, AutomationEvaluationContext, Library,
  inverted, evaluate, evaluate_all, evaluate_any, unless_false, unless_true, Outcome,
}

unfoldable pub negated : Conditions → Conditions
negated none_left = none_left
negated (and_then c cs) = and_then (negation c) (negated cs)

-- No part of the condition has to hold for a duration.
abbrev mutual
  pub IsImmediate : ResolvedAutomationCondition → Type 0
  IsImmediate (all_of cs) = AllImmediate cs
  IsImmediate (any_of cs) = AllImmediate cs
  IsImmediate (negation c) = IsImmediate c
  IsImmediate (state_duration c n) = ⊥
  IsImmediate _ = Unit {0}

  pub AllImmediate : Conditions → Type 0
  AllImmediate none_left = Unit {0}
  AllImmediate (and_then c cs) = IsImmediate c × AllImmediate cs

module _ {S : Type 0} where
  turned :
      (x : Outcome S) (f g : S → Outcome S)
      → ((t : S) → f t ≡ inverted (g t))
      → unless_true x f ≡ inverted (unless_false (inverted x) g)
  turned (ok true, s) f g h = refl
  turned (ok false, s) f g h = h s
  turned (err e, s) f g h = refl

  turned_back :
      (x : Outcome S) (f g : S → Outcome S)
      → ((t : S) → f t ≡ inverted (g t))
      → unless_false x f ≡ inverted (unless_true (inverted x) g)
  turned_back (ok true, s) f g h = h s
  turned_back (ok false, s) f g h = refl
  turned_back (err e, s) f g h = refl

  inverted_state : (x : Outcome S) → (inverted x).1 ≡ x.1
  inverted_state (ok b, s) = refl
  inverted_state (err e, s) = refl

  unless_false_state :
      (x : Outcome S) (f : S → Outcome S) (s : S) → x.1 ≡ s → (f s).1 ≡ s → (unless_false x f).1 ≡ s
  unless_false_state (ok true, t) f s h k = rw h k
  unless_false_state (ok false, t) f s h k = h
  unless_false_state (err e, t) f s h k = h

  unless_true_state :
      (x : Outcome S) (f : S → Outcome S) (s : S) → x.1 ≡ s → (f s).1 ≡ s → (unless_true x f).1 ≡ s
  unless_true_state (ok true, t) f s h k = h
  unless_true_state (ok false, t) f s h k = rw h k
  unless_true_state (err e, t) f s h k = h

  unless_false_iff :
      (x : Outcome S) (f : S → Outcome S) (s : S)
      → x.1 ≡ s
      → ((unless_false x f).0 ≡ ok true) ↔ ((x.0 ≡ ok true) × ((f s).0 ≡ ok true))
  unless_false_iff (ok true, t) f s h = ((λ e. (refl, rw (sym h) e)), (λ (_, e). rw h e))
  unless_false_iff (ok false, t) f s h = ((λ e. absurd (cc)), (λ (e, _). absurd (cc)))
  unless_false_iff (err e, t) f s h = ((λ e. absurd (cc)), (λ (e, _). absurd (cc)))

  unless_true_iff :
      (x : Outcome S) (f : S → Outcome S) (s : S)
      → x.1 ≡ s
      → ((unless_true x f).0 ≡ ok false) ↔ ((x.0 ≡ ok false) × ((f s).0 ≡ ok false))
  unless_true_iff (ok false, t) f s h = ((λ e. (refl, rw (sym h) e)), (λ (_, e). rw h e))
  unless_true_iff (ok true, t) f s h = ((λ e. absurd (cc)), (λ (e, _). absurd (cc)))
  unless_true_iff (err e, t) f s h = ((λ e. absurd (cc)), (λ (e, _). absurd (cc)))

module _ {S : Type 0} (library : Library) (context : AutomationEvaluationContext S)
    (variables : Variables) where
  abbrev run : ResolvedAutomationCondition → S → Outcome S
  run c s = evaluate library context c variables s

  any-negated :
      (cs : Conditions) (s : S)
      → evaluate_any library context cs variables s
        ≡ inverted (evaluate_all library context (negated cs) variables s)
  unfolding evaluate negated
  any-negated none_left s = refl
  any-negated (and_then c cs) s =
      turned (run c s) (evaluate_any library context cs variables)
        (evaluate_all library context (negated cs) variables) (any-negated cs)

  all-negated :
      (cs : Conditions) (s : S)
      → evaluate_all library context cs variables s
        ≡ inverted (evaluate_any library context (negated cs) variables s)
  unfolding evaluate negated
  all-negated none_left s = refl
  all-negated (and_then c cs) s =
      turned_back (run c s) (evaluate_all library context cs variables)
        (evaluate_any library context (negated cs) variables) (all-negated cs)

  -- `any` of some conditions is the negation of `all` of their negations, and `all` that of `any`:
  -- with the same verdict, the same error and the same effect on the context.
  evaluate-negation :
      (cs : Conditions) (s : S)
      → (evaluate library context (any_of cs) variables s
          ≡ evaluate library context (negation (all_of (negated cs))) variables s)
        × (evaluate library context (all_of cs) variables s
            ≡ evaluate library context (negation (any_of (negated cs))) variables s)
  unfolding evaluate
  evaluate-negation cs s = (any-negated cs s, all-negated cs s)

  mutual
    unfolding evaluate

    kept : (c : ResolvedAutomationCondition) (s : S) → IsImmediate c → (run c s).1 ≡ s
    kept (constant b) s h = refl
    kept (compared l o r) s h = refl
    kept (all_of cs) s h = all_kept cs s h
    kept (any_of cs) s h = any_kept cs s h
    kept (negation c) s h = inverted_state (run c s) ∙ kept c s h
    kept (time_window z a b) s h = refl
    kept (state_duration c n) s h = absurd h

    all_kept :
        (cs : Conditions) (s : S)
        → AllImmediate cs
        → (evaluate_all library context cs variables s).1 ≡ s
    all_kept none_left s h = refl
    all_kept (and_then c cs) s h =
        unless_false_state (run c s) (evaluate_all library context cs variables) s (kept c s h.0)
          (all_kept cs s h.1)

    any_kept :
        (cs : Conditions) (s : S)
        → AllImmediate cs
        → (evaluate_any library context cs variables s).1 ≡ s
    any_kept none_left s h = refl
    any_kept (and_then c cs) s h =
        unless_true_state (run c s) (evaluate_any library context cs variables) s (kept c s h.0)
          (any_kept cs s h.1)

  -- Every one of the conditions has the verdict b.
  abbrev pub Every : Bool → S → Conditions → Type 0
  Every b s none_left = Unit {0}
  Every b s (and_then c cs) = ((evaluate library context c variables s).0 ≡ ok b) × Every b s cs

  Every-true :
      (cs : Conditions) (s : S)
      → AllImmediate cs
      → ((evaluate_all library context cs variables s).0 ≡ ok true) ↔ Every true s cs
  unfolding evaluate
  Every-true none_left s h = ((λ e. tt), (λ e. refl))
  Every-true (and_then c cs) s h =
      let u =
        unless_false_iff (run c s) (evaluate_all library context cs variables) s (kept c s h.0) in
      let r = Every-true cs s h.1 in
      ((λ e. ((u.0 e).0, r.0 (u.0 e).1)), (λ (e, es). u.1 (e, r.1 es)))

  Every-false :
      (cs : Conditions) (s : S)
      → AllImmediate cs
      → ((evaluate_any library context cs variables s).0 ≡ ok false) ↔ Every false s cs
  unfolding evaluate
  Every-false none_left s h = ((λ e. tt), (λ e. refl))
  Every-false (and_then c cs) s h =
      let u =
        unless_true_iff (run c s) (evaluate_any library context cs variables) s (kept c s h.0) in
      let r = Every-false cs s h.1 in
      ((λ e. ((u.0 e).0, r.0 (u.0 e).1)), (λ (e, es). u.1 (e, r.1 es)))

  -- If no part of the conditions has to hold for a duration, their evaluation leaves the context as
  -- it is; `all` is true exactly if each one is true in that context, and `any` is false exactly if
  -- each one is false in it.
  pub evaluate-Every :
      (cs : Conditions) (s : S)
      → AllImmediate cs
      → ((evaluate library context (all_of cs) variables s).1 ≡ s)
        × ((evaluate library context (any_of cs) variables s).1 ≡ s)
        × (((evaluate library context (all_of cs) variables s).0 ≡ ok true) ↔ Every true s cs)
        × (((evaluate library context (any_of cs) variables s).0 ≡ ok false) ↔ Every false s cs)
  unfolding evaluate
  evaluate-Every cs s h = (all_kept cs s h, any_kept cs s h, Every-true cs s h, Every-false cs s h)
