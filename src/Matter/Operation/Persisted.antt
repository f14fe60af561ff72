-- ===== src/Matter/Operation/Persisted.antt =====
-- Histories of transitions on an operation, and the check that is made when it is loaded.
use homemagic.Matter.Operation.Phases.{depth, depth_bound, valid_transition-Advances}
use homemagic.Prelude.{
  ok, err, ℕ, ◌+◌, ◌≤◌, ◌<◌, ◌≡◌, ◌↔◌, true, false, List, [], ◌∷◌, arith, Result-cases, sym, subst,
  inl, inr,
}
use homemagic.Matter.Operation.{
  MatterOperationPhase, is_terminal, MatterOperation, is_requested, phase_allowed, valid_transition,
  u64_max, transition, validate_persisted, MatterOperationKind, cancelled, MatterOperationTarget,
  new, is_cancellable,
}

-- What validate_persisted accepts.
pub record IsPersistable (o : MatterOperation) : Type 0 where
  pub positive : 0 < o.revision
  pub ordered : o.created_at ≤ o.updated_at
  pub requested_first : is_requested o.phase ≡ true → o.revision ≡ 1
  pub later_revised : is_requested o.phase ≡ false → 2 ≤ o.revision
  pub phase_fits : phase_allowed o.kind o.phase ≡ true

persisted_iff : (o : MatterOperation) → (validate_persisted o ≡ ok tt) ↔ IsPersistable o
unfolding validate_persisted
persisted_iff o = ground arith

unfoldable pub attempt : MatterOperation → MatterOperationPhase × ℕ → MatterOperation
attempt o (next, at) = elim (transition o next at) [ ok o' ↦ o' | err _ ↦ o ]

unfoldable pub attempts : MatterOperation → List (MatterOperationPhase × ℕ) → MatterOperation
attempts o [] = o
attempts o (t ∷ ts) = attempts (attempt o t) ts

-- The parts of an accepted transition.
pub record Accepted (o o' : MatterOperation) (next : MatterOperationPhase) (at : ℕ) : Type 0 where
  pub in_time : o.updated_at ≤ at
  pub live : is_terminal o.phase ≡ false
  pub edge : valid_transition o.kind o.phase next ≡ true
  pub room : o.revision < u64_max
  pub result : o' ≡ record o { revision = o.revision + 1; phase = next; updated_at = at }

-- A transition is accepted exactly if time does not move back, the phase is not terminal, the kind
-- has the edge and the revision has room; it then sets phase and time and counts one revision.
transition-Accepted :
    (o o' : MatterOperation) (next : MatterOperationPhase) (at : ℕ)
    → (transition o next at ≡ ok o') ↔ Accepted o o' next at
unfolding transition
transition-Accepted o o' next at = ground arith

-- What every history keeps.
pub record Inv (o : MatterOperation) : Type 0 where
  pub persistable : IsPersistable o
  pub counted : o.revision ≤ depth o.phase + 1
  pub cancellable : o.phase ≡ cancelled → is_cancellable o.kind ≡ true

cancelled_edge :
    (k : MatterOperationKind) (from to : MatterOperationPhase)
    → valid_transition k from to ≡ true
    → to ≡ cancelled
    → is_cancellable k ≡ true
unfolding valid_transition
cancelled_edge k from cancelled h e = h
cancelled_edge k from _ h e = absurd (cc)

Accepted-Inv :
    (o o' : MatterOperation) (next : MatterOperationPhase) (at : ℕ)
    → Accepted o o' next at
    → Inv o
    → Inv o'
Accepted-Inv o o' next at a v =
    let (d, p, r) = valid_transition-Advances o.kind o.phase next a.live a.edge in
    let c = cancelled_edge o.kind o.phase next a.edge in
    let v' = v.persistable in
    subst Inv (sym a.result) (record {
      persistable = record {
        positive = omega arith;
        ordered = omega (arith, v'.ordered, a.in_time);
        requested_first = λ e. absurd (cc (e, r));
        later_revised = λ e. omega (arith, v'.positive);
        phase_fits = p;
      };
      counted = omega (arith, v.counted);
      cancellable = c;
    })

attempt-Inv : (o : MatterOperation) (t : MatterOperationPhase × ℕ) → Inv o → Inv (attempt o t)
unfolding attempt
attempt-Inv o (next, at) v = elim (Result-cases (transition o next at)) [
  | inl (o', e) ↦
      rw (e, attempt) (Accepted-Inv o o' next at ((transition-Accepted o o' next at).0 e) v)
  | inr (x, e) ↦ rw (e, attempt) v
]

attempts-Inv :
    (o : MatterOperation) (ts : List (MatterOperationPhase × ℕ)) → Inv o → Inv (attempts o ts)
unfolding attempts
attempts-Inv o [] v = v
attempts-Inv o (t ∷ ts) v = attempts-Inv (attempt o t) ts (attempt-Inv o t v)

new-Inv :
    (id : ℕ) (k : MatterOperationKind) (t : MatterOperationTarget) (at : ℕ) → Inv (new id k t at)
unfolding new phase_allowed
new-Inv id k t at = ground arith

-- After any history of transitions, the refused ones included, an operation passes the check that
-- loading it from storage makes, its revision is at most 8 and so never exhausted, and it is
-- cancelled only if it commissions a node or cancels a commissioning.
pub attempts-persistable :
    (id : ℕ) (k : MatterOperationKind) (t : MatterOperationTarget) (at : ℕ)
    (ts : List (MatterOperationPhase × ℕ))
    → let o = attempts (new id k t at) ts in
      (validate_persisted o ≡ ok tt)
      × (o.revision ≤ 8)
      × (o.phase ≡ cancelled → is_cancellable o.kind ≡ true)
attempts-persistable id k t at ts =
    let o = attempts (new id k t at) ts in
    let v = attempts-Inv (new id k t at) ts (new-Inv id k t at) in
    (
      (persisted_iff o).1 v.persistable,
      omega (arith, v.counted, depth_bound o.phase),
      v.cancellable,
    )
