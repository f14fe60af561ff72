-- ===== src/Service/Ownership.antt =====
-- Whose commands an actor reads and cancels.
use homemagic.Prelude.{
  if◌then◌else◌, nat_beq_iff, ok, err, Gives, await-Gives, text_eq, nat_eq, ◌==◌, ℕ, ◌≡◌, refl, ap,
  Bool, true, false, not, Option, none, some, arith, continue_with-Gives, ◌≤◌, ◌⊎◌, List, Gives-map,
  either-Gives, lift_error-result, ◌||◌,
}
use homemagic.Command.{
  CommandAggregate, CommandState, received, validated, cancelled, is_terminal, saturating_suc,
  transition as change_state,
}
use homemagic.Service.{
  CommandAuditRecord, not_cancellable, actor_mismatch, command_not_found, repository,
  audit_publication, Services, store, transition, audit as audit_entry,
}
use homemagic.Service.Boundary.{CommandService, from_option, from_result}
use homemagic.Service.Entry.{is_cancellable, owned_by, get, audit, cancel_found, cancel, page_size}

-- The command that the store has under an identity, at some moment, and that is the actor's.
abbrev pub Owned :
    {W B F J : Type 0} (service : CommandService W B F J) (actor_id command_id : ℕ)
    (c : CommandAggregate)
    → Type 0
Owned {W} service actor_id command_id c =
    ((w : W) × ((service.stores.command command_id w).0 ≡ ok (some c)))
    × (c.envelope.actor_id ≡ actor_id)

-- An answer, if there is one, is of such a command.
abbrev pub OnlyOwned :
    {W B F J : Type 0} (service : CommandService W B F J) (actor_id command_id : ℕ)
    → Option CommandAggregate
    → Type 0
OnlyOwned service actor_id command_id none = Unit {0}
OnlyOwned service actor_id command_id (some c) = Owned service actor_id command_id c

-- What a cancellation makes of a command.
abbrev pub withdrawn : CommandAggregate → ℕ → CommandAggregate
withdrawn c now = record c {
  state = cancelled;
  version = saturating_suc c.version;
  updated_at = now;
}

change_state-withdrawn :
    (c d : CommandAggregate) (now : ℕ) → change_state c cancelled now ≡ ok d → d ≡ withdrawn c now
unfolding change_state
change_state-withdrawn c d now h = ground arith

module _ {W B : Type 0} (services : Services W B) where
  transition-withdrawn :
      (c : CommandAggregate) (now : ℕ) (w : W)
      → Gives (λ d. d ≡ withdrawn c now) (transition services c cancelled now w)
  unfolding transition store
  transition-withdrawn c now w =
      let Same : CommandAggregate → Type 0 = λ x. x ≡ withdrawn c now in
      await-Gives Same _ (change_state c cancelled now, w) (store services c)
        (λ x w2 e.
          let (id, w3) = services.new_audit_id w2 in
          let entry = audit_entry id x (some c.state) in
          await-Gives Same repository (services.transition_command x c.version entry w3) _
            (λ _ w4 _.
              await-Gives Same audit_publication (services.publish entry w4) _
                (λ _ _ _. change_state-withdrawn c x now (ap (λ z. z.0) e))))

neither : (a b : Bool) → (a || not b) ≡ false → (a ≡ false) × (b ≡ true)
neither a b h = ground arith

module _ {W B F J : Type 0} (service : CommandService W B F J) where
  owned_by-OnlyOwned :
      (actor_id command_id : ℕ) (found : Option CommandAggregate) (w w1 : W)
      → (service.stores.command command_id w).0 ≡ ok found
      → Gives
          (OnlyOwned service actor_id command_id)
          (from_result {B = B} (owned_by actor_id found) w1)
  unfolding owned_by
  owned_by-OnlyOwned actor_id command_id none w w1 e = tt
  owned_by-OnlyOwned actor_id command_id (some c) w w1 e =
      decided (c.envelope.actor_id == actor_id) refl
    where
      decided :
          (b : Bool)
          → (c.envelope.actor_id == actor_id) ≡ b
          → Gives
              (OnlyOwned service actor_id command_id)
              (from_result {B = B} (if not b then err actor_mismatch else ok (some c)) w1)
      decided true q = ((w, e), (nat_beq_iff _ _).0 q)
      decided false q = tt

  -- An actor that looks up a command is given a command of its own, which the store has under the
  -- identity, or none, or an error.
  get-OnlyOwned :
      (actor_id command_id : ℕ) (w : W)
      → Gives (OnlyOwned service actor_id command_id) (get service actor_id command_id w)
  unfolding get
  get-OnlyOwned actor_id command_id w =
      await-Gives (OnlyOwned service actor_id command_id) repository
        (service.stores.command command_id w) _
        (λ found w1 t. owned_by-OnlyOwned actor_id command_id found w w1 (ap (λ z. z.0) t))

  found-Owned :
      (actor_id command_id : ℕ) (found : Option CommandAggregate) (w : W)
      → OnlyOwned service actor_id command_id found
      → Gives (Owned service actor_id command_id) (from_option {B = B} command_not_found found w)
  found-Owned actor_id command_id none w o = tt
  found-Owned actor_id command_id (some c) w o = o

  -- An actor is given a page of the audit only of a command that it owns, and the page is what the
  -- store answers for at most 256 entries of that command behind the given one.
  audit-Owned :
      (actor_id command_id : ℕ) (after : Option ℕ) (limit : ℕ) (w : W)
      → Gives
          (λ entries.
            ((c : CommandAggregate) × Owned service actor_id command_id c)
            × (n : ℕ) × (v : W) × (n ≤ 256)
            × ((service.stores.command_audit command_id after n v).0 ≡ ok entries))
          (audit service actor_id command_id after limit w)
  unfolding audit
  audit-Owned actor_id command_id after limit w =
      let P : List CommandAuditRecord → Type 0 = λ entries.
        ((c : CommandAggregate) × Owned service actor_id command_id c)
        × (n : ℕ) × (v : W) × (n ≤ 256)
        × ((service.stores.command_audit command_id after n v).0 ≡ ok entries) in
      continue_with-Gives (OnlyOwned service actor_id command_id) P
        (get service actor_id command_id w) _ (get-OnlyOwned actor_id command_id w)
        (λ found w1 o.
          continue_with-Gives (Owned service actor_id command_id) P
            (from_option command_not_found found w1) _ (found-Owned actor_id command_id found w1 o)
            (λ c w2 p.
              lift_error-result P repository
                (service.stores.command_audit command_id after (page_size limit) w2)
                (λ entries w3 t. ((c, p), page_size limit, w2, omega arith, ap (λ z. z.0) t))))

  cancellable-cases :
      (s : CommandState) → is_cancellable s ≡ true → (s ≡ received) ⊎ (s ≡ validated)
  cancellable-cases s h = ground arith

  cancel_found-Gives :
      (c : CommandAggregate) (now : ℕ) (w : W)
      → Gives
          (λ d.
            ((c.state ≡ received) ⊎ (c.state ≡ validated))
            × (is_terminal c ≡ false)
            × (d ≡ withdrawn c now))
          (cancel_found service c now w)
  unfolding cancel_found
  cancel_found-Gives c now w =
      let P : CommandAggregate → Type 0 = λ d.
        ((c.state ≡ received) ⊎ (c.state ≡ validated))
        × (is_terminal c ≡ false)
        × (d ≡ withdrawn c now) in
      either-Gives P (is_terminal c || not (is_cancellable c.state))
        (from_result (err not_cancellable)) (transition service.services c cancelled now) w
        (λ _. tt)
        (λ open_still.
          let (t, s) = neither (is_terminal c) (is_cancellable c.state) open_still in
          Gives-map (λ d. d ≡ withdrawn c now) P (transition service.services c cancelled now w)
            (λ d q. (cancellable-cases c.state s, t, q))
            (transition-withdrawn service.services c now w))

  -- A cancellation gives back a command of the actor that the store had, received or validated and
  -- not terminal, now cancelled, with its version raised, its time set and nothing else changed.
  pub cancel-Owned :
      (actor_id command_id now : ℕ) (w : W)
      → Gives
          (λ d.
            (c : CommandAggregate) × Owned service actor_id command_id c
            × ((c.state ≡ received) ⊎ (c.state ≡ validated))
            × (is_terminal c ≡ false)
            × (d ≡ withdrawn c now))
          (cancel service actor_id command_id now w)
  unfolding cancel
  cancel-Owned actor_id command_id now w =
      let P : CommandAggregate → Type 0 = λ d.
        (c : CommandAggregate) × Owned service actor_id command_id c
        × ((c.state ≡ received) ⊎ (c.state ≡ validated))
        × (is_terminal c ≡ false)
        × (d ≡ withdrawn c now) in
      continue_with-Gives (OnlyOwned service actor_id command_id) P
        (get service actor_id command_id w) _ (get-OnlyOwned actor_id command_id w)
        (λ found w1 o.
          continue_with-Gives (Owned service actor_id command_id) P
            (from_option command_not_found found w1) _ (found-Owned actor_id command_id found w1 o)
            (λ c w2 p.
              Gives-map _ P (cancel_found service c now w2) (λ d (x, y, z). (c, p, x, y, z))
                (cancel_found-Gives c now w2)))
