-- ===== src/Service/Matter/Contract.antt =====
-- The dispatch control of Matter gives the service what it relies on, and opens a lock only with an
-- authorization that is consumed.
use homemagic.Prelude.{
  Result, ok, err, Gives, Gives-map, either-Gives, text_eq, nat_eq, ◌==◌, ℕ, ◌≡◌, refl, ap, subst,
  Bool, true, false, ◌||◌, not, none, List, arith,
}
use homemagic.Actor.{Actor}
use homemagic.Command.{CommandAggregate, CommandEnvelope}
use homemagic.Policy.{PolicyDecision}
use homemagic.Service.{CommandAuditRecord}
use homemagic.Service.Boundary.{MatterDispatchAdmission, committed}
use homemagic.Service.Dispatching.{ControlLaws}
use homemagic.Service.Recovery.{is_unlock}
use homemagic.Service.Matter.{MatterStores, fail_with}
use homemagic.Service.Matter.Registration.{projection_for, register_desired}
use homemagic.Service.Matter.Registering.{MatterLaws, register_attempts-Kept}
use homemagic.Service.Matter.Admission.{
  superseded_durable, authorize_owner, authorize_allowed, authorize_unlock, commit_dispatch,
  matter_control,
}
use homemagic.Service.Matter.Admitting.{commit_dispatch-Kept, authorize_unlock-Kept}
use homemagic.Service.Matter.Committed.{
  Commits, HasSlot, some_or-Gives, superseded_durable-Commits, commit_dispatch-Commits,
}
use homemagic.Service.Matter.Unlocking.{Authorized, authorize_owner-Commits}

both_set : (a b : Bool) → (not a || not b) ≡ false → (a ≡ true) × (b ≡ true)
both_set a b h = ground arith

-- An admission that gives a dispatch to commit gives one of the command itself.
committed_envelope :
    {B W : Type 0} (R : CommandAuditRecord → Type 0) (c d : CommandAggregate)
    (a : CommandAuditRecord) (now : ℕ) (r : Result MatterDispatchAdmission B × W)
    → Gives (Commits c now R) r
    → r.0 ≡ ok (committed d a)
    → d.envelope ≡ c.envelope
committed_envelope R c d a now (ok m, w) g e = of_admission m g (cc)
  where
    of_admission :
        (n : MatterDispatchAdmission)
        → Commits c now R n
        → n ≡ committed d a
        → d.envelope ≡ c.envelope
    of_admission n g q = let (s, _, _) = subst (Commits c now R) q g in ap (λ z. z.envelope) s
committed_envelope R c d a now (err x, w) g e = absurd (cc)

module _ {W B : Type 0} (stores : MatterStores W B) where
  -- A dispatch that is committed by an approval is that of the given command, now dispatched, with
  -- its audit; the command is an unlock and has the desired slot of a projection, and the approval is
  -- allowed. The store takes an authorization of this unlock by this approver for that projection, in
  -- force for at most a minute and not beyond the deadline of the command; in the world which it
  -- leaves, the identity of the audit is drawn, and in the world behind that, the store consumes the
  -- authorization together with the dispatched command and its audit.
  pub authorize_unlock-Commits :
      (approver : Actor) (c : CommandAggregate) (approval : PolicyDecision) (now : ℕ) (w : W)
      → Gives
          (Commits c now (λ entry.
            (p : ℕ) × HasSlot stores c p
            × (approval.allowed ≡ true)
            × (is_unlock c.envelope.payload ≡ true)
            × Authorized stores approver c now p entry))
          (authorize_unlock stores approver c approval now w)
  unfolding authorize_unlock authorize_allowed
  authorize_unlock-Commits approver c approval now w =
      either-Gives P (not approval.allowed || not (is_unlock c.envelope.payload)) (fail_with _)
        (authorize_allowed stores approver c approval now) w (λ _. tt)
        (λ b. some_or-Gives P _ (projection_for stores c w) _ (λ p w1 _.
          some_or-Gives P _ (stores.matter_desired_slot p.projection_id w1) _ (λ slot w2 e.
            either-Gives P (not (slot.command_id == c.envelope.id)) (superseded_durable stores c)
              (authorize_owner stores approver c p slot approval now) w2
              (λ _. superseded_durable-Commits stores c now _ w2)
              (λ own.
                Gives-map (Commits c now (Authorized stores approver c now p.projection_id)) P _
                  (with_slot p.projection_id (slot, w1, ap (λ z. z.0) e, ground (arith, own))
                    (both_set approval.allowed (is_unlock c.envelope.payload) b))
                  (authorize_owner-Commits stores approver c p slot approval now w2)))))
    where
      P : MatterDispatchAdmission → Type 0
      P = Commits c now (λ entry.
          (p : ℕ) × HasSlot stores c p
          × (approval.allowed ≡ true)
          × (is_unlock c.envelope.payload ≡ true)
          × Authorized stores approver c now p entry)

      with_slot :
          (p : ℕ)
          → HasSlot stores c p
          → (approval.allowed ≡ true) × (is_unlock c.envelope.payload ≡ true)
          → (m : MatterDispatchAdmission) → Commits c now (Authorized stores approver c now p) m
          → P m
      with_slot p h (x, y) (committed d a) (q, b, r) = (q, b, (p, h, x, y, r))
      with_slot p h x _ q = tt

module _ {W B : Type 0} {stores : MatterStores W B} {handed : W → List CommandEnvelope}
    (laws : MatterLaws stores handed) where
  -- The control of Matter hands nothing to the adapter if its stores do not, and commits only the
  -- command that it is given: what the command service relies on.
  pub matter_control-ControlLaws : ControlLaws (matter_control stores) handed
  unfolding matter_control register_desired
  matter_control-ControlLaws = record {
    register_desired = λ c n w. register_attempts-Kept laws (handed w) 4 none c n w refl;
    commit_dispatch = λ c n w. commit_dispatch-Kept laws (handed w) c n w refl;
    authorize_unlock = λ a c p n w. authorize_unlock-Kept laws (handed w) a c p n w refl;
    committed_same = λ c d a n w e.
        committed_envelope _ c d a n (commit_dispatch stores c n w)
          (commit_dispatch-Commits stores c n w) e;
    authorized_same = λ x c d p a n w e.
        committed_envelope _ c d a n (authorize_unlock stores x c p n w)
          (authorize_unlock-Commits stores x c p n w) e;
  }
