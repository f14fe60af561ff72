-- ===== src/Service/HandedOver.antt =====
-- Which commands the recovery of a page hands to the adapter.
use homemagic.Prelude.{
  All, ok, chain-State, await-State, ℕ, ◌≡◌, sym, ap, ◌∙◌, subst, inl, inr, false, List, [], ◌∷◌,
}
use homemagic.Command.{CommandEnvelope, CommandAggregate, is_terminal}
use homemagic.Service.{repository}
use homemagic.Service.Boundary.{CommandService}
use homemagic.Service.Recovery.{recover_one, recover_each, recover}
use homemagic.Service.Handed.{Still}
use homemagic.Service.Dispatching.{ServiceLaws, Outcome}
use homemagic.Service.Recovered.{Resumed, recover_one-Outcome}

-- The envelopes s become t by handing over commands of a list in its order, each at most once and
-- only if it may be resumed.
pub data HandedOver {W B F J : Type 0} (service : CommandService W B F J) (now : ℕ)
    : List CommandAggregate → List CommandEnvelope → List CommandEnvelope → Type 0 where
  stopped : {cs : List CommandAggregate} {s : List CommandEnvelope} → HandedOver service now cs s s
  kept_back :
      {c : CommandAggregate} {cs : List CommandAggregate} {s t : List CommandEnvelope}
      → HandedOver service now cs s t
      → HandedOver service now (c ∷ cs) s t
  resumed :
      {c : CommandAggregate} {cs : List CommandAggregate} {s t : List CommandEnvelope}
      → Resumed service now c c.state
      → HandedOver service now cs (c.envelope ∷ s) t
      → HandedOver service now (c ∷ cs) s t

module _ {W B F J : Type 0} {service : CommandService W B F J} {handed : W → List CommandEnvelope}
    (laws : ServiceLaws service handed) where
  stopped_at :
      {cs : List CommandAggregate} {s t : List CommandEnvelope} (now : ℕ)
      → t ≡ s
      → HandedOver service now cs s t
  stopped_at {cs} {s} now e = subst (HandedOver service now cs s) (sym e) stopped

  -- After one command, with what the others hand over behind it.
  and_then :
      {c : CommandAggregate} {cs : List CommandAggregate} {s t : List CommandEnvelope} (now : ℕ)
      (w : W)
      → Outcome handed c.envelope (Resumed service now c c.state) s w
      → HandedOver service now cs (handed w) t
      → HandedOver service now (c ∷ cs) s t
  and_then {cs} {t} now w (inl h) o = kept_back (subst (λ x. HandedOver service now cs x t) h o)
  and_then {cs} {t} now w (inr (p, h)) o =
      resumed p (subst (λ x. HandedOver service now cs x t) h o)

  recover_each-HandedOver :
      (cs : List CommandAggregate) (now : ℕ) (w : W)
      → All (λ c. is_terminal c ≡ false) cs
      → HandedOver service now cs (handed w) (handed (recover_each service cs now w).1)
  unfolding recover_each
  recover_each-HandedOver [] now w a = stopped
  recover_each-HandedOver (c ∷ cs) now w (t, a) =
      chain-State (Outcome handed c.envelope (Resumed service now c c.state) (handed w))
        (λ w2. HandedOver service now (c ∷ cs) (handed w) (handed w2)) (recover_one service c now w)
        _ (recover_one-Outcome laws c now w t) (λ w1 o. and_then now w1 o stopped)
        (λ _ w1 _ o. and_then now w1 o (recover_each-HandedOver cs now w1 a))

  -- If nothing but the dispatch of the adapter hands it an envelope, if the dispatch control commits
  -- only the command that it is given, if an actor is stored under its identity, and if the store
  -- answers with commands that are not terminal, then a recovery hands to the adapter, in the order of
  -- that answer, the envelope of each command at most once, and only of received commands that are
  -- approved anew and of validated ones that are cleared anew and are no dry run, both on the device
  -- that the store loaded by the identity in the command: never of a command that was already
  -- dispatched or acknowledged.
  pub recover-HandedOver :
      (now : ℕ) (w : W) (cs : List CommandAggregate)
      → (service.stores.recoverable_commands 256 w).0 ≡ ok cs
      → All (λ c. is_terminal c ≡ false) cs
      → HandedOver service now cs (handed w) (handed (recover service now w).1)
  unfolding recover
  recover-HandedOver now w cs e a =
      let J : W → Type 0 = λ w1. HandedOver service now cs (handed w) (handed w1) in
      await-State (Still laws.services (handed w)) J repository
        (service.stores.recoverable_commands 256 w) _ (laws.stores.recoverable_commands 256 w)
        (λ _ i. stopped_at now i)
        (λ ds w1 t i.
          let same : ok ds ≡ ok cs = sym (ap (λ z. z.0) t) ∙ e in
          chain-State J J (recover_each service ds now w1) _ (recovered ds w1 (cc) i) (λ _ j. j)
            (λ _ _ _ j. j))
    where
      recovered :
          (ds : List CommandAggregate) (w1 : W)
          → cs ≡ ds
          → handed w1 ≡ handed w
          → HandedOver service now cs (handed w) (handed (recover_each service ds now w1).1)
      recovered ds w1 q i =
          subst (λ s. HandedOver service now cs s (handed (recover_each service ds now w1).1)) i
            (subst
              (λ xs.
                HandedOver service now cs (handed w1) (handed (recover_each service xs now w1).1))
              q (recover_each-HandedOver cs now w1 a))
