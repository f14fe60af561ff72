-- ===== src/Matter/State/Consistency.antt =====
-- What a projected state is that its constructor accepts.
use homemagic.Prelude.{
  ok, ◌≤◌, ◌≡◌, refl, ◌↔◌, Option, none, some, arith, ◌>>◌, require, is_ok, both_ok, ℕ, sym, ap,
  true, not, Result-cases, inl, inr,
}
use homemagic.Matter.State.{
  MatterStateRevision, MatterStateValue, on_off, level_percent, position_percent, lock, validate,
  MatterDesiredState, MatterConvergence, no_desired_state, confirmed, check_confirmation,
  confirmed_revision_ahead, MatterReportedState, new_reported, MatterStateFreshness, pending,
  diverged, indeterminate, MatterStateUncertainty, MatterProjectedState, ahead, check_convergence,
  new,
}

abbrev pub InRange : MatterStateValue → Type 0
InRange (level_percent p) = p ≤ 100
InRange (position_percent p) = p ≤ 100
InRange _ = Unit {0}

validate_iff : (v : MatterStateValue) → (validate v ≡ ok tt) ↔ InRange v
unfolding validate
validate_iff (on_off b) = ((λ h. tt), (λ h. refl))
validate_iff (level_percent p) = ground arith
validate_iff (position_percent p) = ground arith
validate_iff (lock l) = ((λ h. tt), (λ h. refl))

-- A confirmed revision belongs to a desired state, and is not ahead of it.
abbrev pub Confirms : Option MatterDesiredState → Option MatterStateRevision → Type 0
Confirms (some d) (some c) = InRange d.value × (c.value ≤ d.revision.value)
Confirms (some d) none = InRange d.value
Confirms none (some c) = ⊥
Confirms none none = Unit {0}

-- What the convergence says of the desired state and the confirmed revision.
abbrev pub Converges :
    MatterConvergence → Option MatterDesiredState → Option MatterStateRevision → Type 0
Converges confirmed (some d) (some c) = c.value ≡ d.revision.value
Converges confirmed none none = Unit {0}
Converges confirmed _ _ = ⊥
Converges no_desired_state (some d) c = ⊥
Converges _ d c = Unit {0}

confirmation_iff :
    (d : Option MatterDesiredState) (c : Option MatterStateRevision)
    → (check_confirmation d c ≡ ok tt) ↔ Confirms d c
unfolding check_confirmation validate
confirmation_iff (some d) (some c) =
    let b =
      both_ok (validate d.value)
        (require (not (ahead (some c) d.revision)) confirmed_revision_ahead) tt in
    let v = validate_iff d.value in
    let n : (require (not (ahead (some c) d.revision)) confirmed_revision_ahead ≡ ok tt)
        ↔ (c.value ≤ d.revision.value) =
      ground arith in
    ((λ h. (v.0 (b.0 h).0, n.0 (b.0 h).1)), (λ (r, l). b.1 (v.1 r, n.1 l)))
confirmation_iff (some d) none =
    let b = both_ok {B = Unit {0}} (validate d.value) (ok tt) tt in
    let v = validate_iff d.value in ((λ h. v.0 (b.0 h).0), (λ r. b.1 (v.1 r, refl)))
confirmation_iff none (some c) = ground arith
confirmation_iff none none = ground arith

convergence_iff :
    (k : MatterConvergence) (d : Option MatterDesiredState) (c : Option MatterStateRevision)
    → (check_convergence k d c ≡ ok tt) ↔ Converges k d c
convergence_iff confirmed (some d) (some c) = ground arith
convergence_iff confirmed (some d) none = ground arith
convergence_iff confirmed none (some c) = ground arith
convergence_iff confirmed none none = ground arith
convergence_iff no_desired_state (some d) c = ground arith
convergence_iff no_desired_state none c = ground arith
convergence_iff pending d c = ground arith
convergence_iff diverged d c = ground arith
convergence_iff indeterminate d c = ground arith

-- A projected state is accepted exactly if its desired value is in range, a confirmed revision
-- belongs to a desired state and is not ahead of it, a confirmed convergence has confirmed the
-- desired revision or has neither, and a convergence without desired state has none; it then
-- holds what it was given.
pub new-Confirms :
    (i : ℕ) (d : Option MatterDesiredState) (r : Option MatterReportedState)
    (c : Option MatterStateRevision) (f : MatterStateFreshness) (k : MatterConvergence)
    (u : Option MatterStateUncertainty) (s : MatterProjectedState)
    → (new i d r c f k u ≡ ok s) ↔ (
        Confirms d c
        × Converges k d c
        × (s ≡ record {
          projection_id = i;
          desired = d;
          reported = r;
          confirmed_revision = c;
          freshness = f;
          convergence = k;
          uncertainty = u;
        }))
unfolding new
new-Confirms i d r c f k u s =
    let p : MatterProjectedState = record {
      projection_id = i;
      desired = d;
      reported = r;
      confirmed_revision = c;
      freshness = f;
      convergence = k;
      uncertainty = u;
    } in
    let a = both_ok (check_confirmation d c) (check_convergence k d c >> ok p) s in
    let b = both_ok (check_convergence k d c) (ok p) s in
    let x = confirmation_iff d c in
    let y = convergence_iff k d c in
    (
      (λ h. let (m, n) = a.0 h in let (q, e) = b.0 n in (x.0 m, y.0 q, cc)),
      (λ (m, n, e). a.1 (x.1 m, b.1 (y.1 n, ap ok (sym e)))),
    )

-- A report is accepted exactly if its value is in range and it was not observed after its receipt.
new_reported_iff :
    (v : MatterStateValue) (dv : Option ℕ) (sequence observed received : ℕ)
    → is_ok (new_reported v dv sequence observed received) ≡ true
      ↔ (InRange v × (observed ≤ received))
unfolding new_reported
new_reported_iff v dv sequence observed received =
    let a = validate_iff v in
    elim (Result-cases (validate v)) [
      | inl (x, e) ↦ rw e (ground arith)
      | inr (x, e) ↦ rw e (ground arith)
    ]
