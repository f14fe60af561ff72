-- ===== src/Service/Matter/Unlocking.antt =====
-- What the dispatch control of Matter has done when it commits the unlock that an approval authorizes.
use homemagic.Prelude.{
  leb, ok, Gives, either-Gives, step-Gives, ℕ, ◌+◌, ◌≤◌, ◌<◌, ◌≡◌, refl, ap, ◌∙◌, subst, arith,
}
use homemagic.Actor.{Actor}
use homemagic.Command.{unlock, CommandAggregate}
use homemagic.Policy.{PolicyDecision}
use homemagic.Service.{CommandAuditRecord}
use homemagic.Service.Boundary.{MatterDispatchAdmission, committed}
use homemagic.Service.Matter.{
  StoredMatterProjection, MatterDesiredCommandSlot, MatterDispatchWrite, MatterUnlockAuthorization,
  MatterUnlockConsumption, consumed, MatterStores, fail_with,
}
use homemagic.Service.Matter.Admission.{
  dispatch_write, consume, authorization, authorize_until, expiry, authorize_owner,
}
use homemagic.Service.Matter.Committed.{
  Commits, write_of, some_or-Gives, dispatch_write-Writes, written-Commits,
}

-- An authorization for the command by the approver, in force at a time, which the store takes in one
-- world; in the world that follows, the identity of an audit is drawn; and in the world behind that,
-- the store consumes the authorization together with the dispatch of the command and its audit.
pub record Authorized {W B : Type 0} (stores : MatterStores W B) (approver : Actor)
    (c : CommandAggregate) (now p : ℕ) (entry : CommandAuditRecord) : Type 0 where
  pub granted : MatterUnlockAuthorization
  pub command : granted.command_id ≡ c.envelope.id
  pub approved_by : granted.approving_actor_id ≡ approver.id
  pub opens : granted.action ≡ unlock
  pub projection : granted.projection_id ≡ p
  pub in_force : now < granted.expires_at
  pub within_a_minute : granted.expires_at ≤ now + 60000000000
  pub before_deadline : granted.expires_at ≤ c.envelope.deadline
  pub before : W
  pub taken : W
  pub drawn : W
  pub after : W
  pub created : stores.create_unlock_authorization granted before ≡ (ok tt, taken)
  pub audited : stores.new_audit_id taken ≡ (entry.id, drawn)
  pub claimed :
      stores.authorize_and_record_unlock_dispatch granted.id (write_of c now p entry) drawn
      ≡ (ok consumed, after)

module _ {W B : Type 0} (stores : MatterStores W B) where
  pub consume-Commits :
      (c : CommandAggregate) (now : ℕ) (R : CommandAuditRecord → Type 0) (x : MatterDispatchWrite)
      (o : MatterUnlockConsumption) (w : W)
      → (o ≡ consumed → Commits c now R (committed x.command x.audit))
      → Gives (Commits c now R) (consume stores x o w)
  unfolding consume
  consume-Commits c now R x consumed w r = r refl
  consume-Commits c now R x _ w r = tt

  pub authorize_owner-Commits :
      (a : Actor) (c : CommandAggregate) (p : StoredMatterProjection)
      (slot : MatterDesiredCommandSlot) (d : PolicyDecision) (now : ℕ) (w : W)
      → Gives
          (Commits c now (Authorized stores a c now p.projection_id))
          (authorize_owner stores a c p slot d now w)
  unfolding authorize_owner authorize_until authorization
  authorize_owner-Commits a c p slot d now w =
      some_or-Gives P _ (stores.command_request_hash c.envelope.id w) _ (λ hash w1 _.
        either-Gives P (leb (expiry stores c now) now) (fail_with _)
          (authorize_until stores hash a c p slot d now (expiry stores c now)) w1 (λ _. tt)
          (λ open_still.
            let (id, w2) = stores.new_authorization_id w1 in
            let x = authorization stores id hash a c p slot d now (expiry stores c now) in
            step-Gives P (stores.create_unlock_authorization x w2) _ (λ _ w3 e.
              step-Gives P (dispatch_write stores c p now w3) _ (λ y w4 s.
                let v = dispatch_write-Writes stores c p now w3 w4 y s in
                step-Gives P (stores.authorize_and_record_unlock_dispatch id y w4) _ (λ o w5 t.
                  consume-Commits c now _ y o w5 (λ taken.
                    written-Commits stores c p now (Authorized stores a c now p.projection_id) w3 w4
                      y v
                      (record {
                        granted = x;
                        command = refl;
                        approved_by = refl;
                        opens = refl;
                        projection = refl;
                        in_force = ground (arith, open_still);
                        within_a_minute = omega arith;
                        before_deadline = omega arith;
                        before = w2;
                        taken = w3;
                        drawn = w4;
                        after = w5;
                        created = e;
                        audited = v.0;
                        claimed =
                            subst
                              (λ z.
                                stores.authorize_and_record_unlock_dispatch id z w4
                                ≡ (ok consumed, w5))
                              v.2 (t ∙ ap (λ z. (ok z, w5)) taken);
                      })))))))
    where
      P : MatterDispatchAdmission → Type 0
      P = Commits c now (Authorized stores a c now p.projection_id)
