-- ===== src/Service/Matter/Committed.antt =====
-- What the dispatch control of Matter has seen when it commits a dispatch.
use homemagic.Prelude.{
  Result, ok, err, map_err, Call, continue_with, give, Gives, either-Gives, step-Gives, text_eq,
  nat_eq, ◌==◌, ℕ, ◌≡◌, refl, ap, false, not, Option, none, some, arith, subst,
}
use homemagic.Command.{
  CommandAggregate, CommandTransitionError, dispatched, saturating_suc, transition as change_state,
}
use homemagic.Service.{audit as command_audit, CommandAuditRecord}
use homemagic.Service.Boundary.{MatterDispatchAdmission, committed}
use homemagic.Service.Recovery.{is_unlock}
use homemagic.Service.Matter.{
  StoredMatterProjection, MatterDesiredCommandSlot, MatterDispatchWrite, MatterStores, some_or,
  invalid_dispatch_transition, attempt,
}
use homemagic.Service.Matter.Registration.{projection_for}
use homemagic.Service.Matter.Admission.{
  superseded_durable, dispatch_write, commit, commit_slot, commit_for, commit_dispatch,
}

-- A command that is dispatched at a time.
abbrev pub sent_out : CommandAggregate → ℕ → CommandAggregate
sent_out c now = record c {
  state = dispatched;
  version = saturating_suc c.version;
  updated_at = now;
}

-- A dispatch that is committed is that of the given command, with its audit, and R holds of that audit.
abbrev pub Commits :
    CommandAggregate → ℕ → (CommandAuditRecord → Type 0) → MatterDispatchAdmission → Type 0
Commits c now R (committed d a) =
    (d ≡ sent_out c now) × (a ≡ command_audit a.id (sent_out c now) (some c.state)) × R a
Commits c now R _ = Unit {0}

-- The write of the dispatch of a command for a projection.
abbrev pub write_of : CommandAggregate → ℕ → ℕ → CommandAuditRecord → MatterDispatchWrite
write_of c now p entry = record {
  projection_id = p;
  command = sent_out c now;
  expected_version = c.version;
  audit = entry;
  dispatched_at = now;
}

-- The store has the command in the desired slot of the projection.
abbrev pub HasSlot : {W B : Type 0} → MatterStores W B → CommandAggregate → ℕ → Type 0
HasSlot {W} stores c p =
    (slot : MatterDesiredCommandSlot) × (w : W) × ((stores.matter_desired_slot p w).0
      ≡ ok (some slot))
    × (slot.command_id ≡ c.envelope.id)

-- The store has recorded the dispatch of the command for the projection, with the audit.
abbrev pub Recorded :
    {W B : Type 0} → MatterStores W B → CommandAggregate → ℕ → ℕ → CommandAuditRecord → Type 0
Recorded {W} stores c now p entry =
    (w w' : W) × (stores.record_matter_dispatch (write_of c now p entry) w ≡ (ok tt, w'))

change_state-sent :
    (c d : CommandAggregate) (now : ℕ) → change_state c dispatched now ≡ ok d → d ≡ sent_out c now
unfolding change_state
change_state-sent c d now h = ground arith

map_err-ok : {A E F : Type 0} (f : E → F) (r : Result A E) (a : A) → map_err f r ≡ ok a → r ≡ ok a
map_err-ok f (ok b) a h = cc
map_err-ok f (err e) a h = absurd (cc)

module _ {W B A C : Type 0} where
  pub some_or-Gives :
      (P : C → Type 0) (missing : B) (r : Result (Option A) B × W) (f : A → Call W B C)
      → ((a : A) (w : W) → r ≡ (ok (some a), w) → Gives P (f a w))
      → Gives P (continue_with (some_or missing r) f)
  some_or-Gives P missing (ok (some a), w) f h = h a w refl
  some_or-Gives P missing (ok none, w) f h = tt
  some_or-Gives P missing (err e, w) f h = tt

-- A call satisfies P, of its result and of the state behind it, when it gives a result.
abbrev GivesIn : {W E A : Type 0} → (A → W → Type 0) → Result A E × W → Type 0
GivesIn P (ok a, w) = P a w
GivesIn P (err e, w) = Unit {0}

module _ {W E A C : Type 0} where
  step-GivesIn :
      (P : C → W → Type 0) (r : Result A E × W) (f : A → Call W E C)
      → ((a : A) (w : W) → r ≡ (ok a, w) → GivesIn P (f a w))
      → GivesIn P (continue_with r f)
  step-GivesIn P (ok a, w) f h = h a w refl
  step-GivesIn P (err e, w) f h = tt

module _ {W B : Type 0} (stores : MatterStores W B) where
  -- The write is that of the dispatch, and the identity of its audit is all that is drawn.
  abbrev pub Writes :
      CommandAggregate → StoredMatterProjection → ℕ → W → MatterDispatchWrite → W → Type 0
  Writes c p now w x w' =
      (stores.new_audit_id w ≡ (x.audit.id, w'))
      × (x.audit ≡ command_audit x.audit.id (sent_out c now) (some c.state))
      × (x ≡ write_of c now p.projection_id x.audit)

  pub dispatch_write-Writes :
      (c : CommandAggregate) (p : StoredMatterProjection) (now : ℕ) (w w' : W)
      (x : MatterDispatchWrite)
      → dispatch_write stores c p now w ≡ (ok x, w')
      → Writes c p now w x w'
  unfolding dispatch_write command_audit
  dispatch_write-Writes c p now w w' x h =
      let refuse : CommandTransitionError → B =
        λ _. stores.of_control invalid_dispatch_transition in
      subst (GivesIn (Writes c p now w)) h (
        step-GivesIn (Writes c p now w) (attempt refuse (change_state c dispatched now) w) _
          (λ d w1 e.
            let q = change_state-sent c d now (map_err-ok refuse _ d (ap (λ z. z.0) e)) in
            let id = (stores.new_audit_id w1).0 in
            (
              ap (λ z. stores.new_audit_id z.1) e,
              ap (λ y. command_audit id y (some c.state)) q,
              ap
                  (λ y.
                    record (write_of c now p.projection_id (command_audit id d (some c.state))) {
                      command = y;
                    })
                  q,
            )))

  pub superseded_durable-Commits :
      (c : CommandAggregate) (now : ℕ) (R : CommandAuditRecord → Type 0) (w : W)
      → Gives (Commits c now R) (superseded_durable stores c w)
  unfolding superseded_durable
  superseded_durable-Commits c now R w =
      some_or-Gives (Commits c now R) _ (stores.command c.envelope.id w) _ (λ _ _ _. tt)

  -- What a write of the dispatch commits.
  pub written-Commits :
      (c : CommandAggregate) (p : StoredMatterProjection) (now : ℕ)
      (R : CommandAuditRecord → Type 0) (w w' : W) (x : MatterDispatchWrite)
      → Writes c p now w x w'
      → R x.audit
      → Commits c now R (committed x.command x.audit)
  written-Commits c p now R w w' x (n, a, q) r = (ap (λ y. y.command) q, a, r)

  commit-Commits :
      (c : CommandAggregate) (p : StoredMatterProjection) (now : ℕ)
      (R : CommandAuditRecord → Type 0) (w : W)
      → ((entry : CommandAuditRecord) → Recorded stores c now p.projection_id entry → R entry)
      → Gives (Commits c now R) (commit stores c p now w)
  unfolding commit
  commit-Commits c p now R w r =
      step-Gives (Commits c now R) (dispatch_write stores c p now w) _ (λ x w1 e.
        let v = dispatch_write-Writes c p now w w1 x e in
        step-Gives (Commits c now R) (stores.record_matter_dispatch x w1) _ (λ _ w2 t.
          written-Commits c p now R w w1 x v (
            r x.audit
              (w1, w2, subst (λ y. stores.record_matter_dispatch y w1 ≡ (ok tt, w2)) v.2 t))))

  -- A dispatch that is committed without an approval is that of the given command, now dispatched,
  -- with its audit; the command has the desired slot of a projection and is no unlock, and the store
  -- has recorded this dispatch for that projection, with that audit.
  pub commit_dispatch-Commits :
      (c : CommandAggregate) (now : ℕ) (w : W)
      → Gives
          (Commits c now (λ entry.
            (p : ℕ) × HasSlot stores c p
            × (is_unlock c.envelope.payload ≡ false)
            × Recorded stores c now p entry))
          (commit_dispatch stores c now w)
  unfolding commit_dispatch commit_for commit_slot
  commit_dispatch-Commits c now w =
      step-Gives P (projection_for stores c w) _ (λ p w1 _. for_projection p w1)
    where
      P : MatterDispatchAdmission → Type 0
      P = Commits c now (λ entry.
          (p : ℕ) × HasSlot stores c p
          × (is_unlock c.envelope.payload ≡ false)
          × Recorded stores c now p entry)

      for_projection :
          (p : Option StoredMatterProjection) (w1 : W) → Gives P (commit_for stores c now p w1)
      for_projection none w1 = tt
      for_projection (some p) w1 =
          some_or-Gives P _ (stores.matter_desired_slot p.projection_id w1) _ (λ slot w2 e.
            either-Gives P (not (slot.command_id == c.envelope.id)) (superseded_durable stores c) _
              w2 (λ _. superseded_durable-Commits c now _ w2)
              (λ own.
                either-Gives P (is_unlock c.envelope.payload) (give _) (commit stores c p now) w2
                  (λ _. tt)
                  (λ u. commit-Commits c p now _ w2 (λ entry r.
                    (p.projection_id, (slot, w1, ap (λ z. z.0) e, ground (arith, own)), u, r)))))
