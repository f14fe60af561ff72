-- ===== src/Matter/Subscription/Progress.antt =====
-- Histories of a recovery: how far a machine is from its end, and how its waits end.
use homemagic.Prelude.{
  ok, ℕ, ◌+◌, ◌-◌, ◌≤◌, ◌<◌, ◌≡◌, arith, Result, ◌>>=◌, refl, List, [], ◌∷◌, length, sym, ◌∙◌,
  subst, >>=-ok, ◌≢◌, Option, none, some, Bool, ◌⊎◌, inl, inr, ap,
}
use homemagic.Matter.Subscription.{
  MatterSubscriptionRecoveryOutcome, stale_persisted, gap_read_completed, gap_read_failed,
  resubscribed, resubscribe_failed, RecoveryPhase, marking, reading, resubscribing, waiting,
  completed, broken, MatterSubscriptionRecovery, MatterSubscriptionRecoveryError, wait_until,
  MatterSubscriptionRequest, new_request, MatterSubscriptionLossReason,
  MatterSubscriptionRecoveryPolicy, new_policy, after_loss,
}
use homemagic.Matter.Subscription.Steps.{
  Library, settle, resumed, next_action, record_outcome, request_action,
}

-- The bounds on the attempts a and the gap reads r in a phase, with their maxima n and k.
abbrev pub Room : RecoveryPhase → ℕ → ℕ → ℕ → ℕ → Type 0
Room marking a n r k = (a < n) × (r < k)
Room reading a n r k = (a < n) × (r < k)
Room resubscribing a n r k = (a < n) × (r ≤ k)
Room waiting a n r k = (a < n) × (r ≤ k)
Room completed a n r k = (a ≤ n) × (r ≤ k)
Room broken a n r k = (a ≤ n) × (r ≤ k)

abbrev pub RoomIn : MatterSubscriptionRecovery → RecoveryPhase → Type 0
RoomIn m p =
    Room p m.subscribe_attempts m.policy.maximum_subscribe_attempts m.gap_reads
      m.policy.maximum_gap_reads

-- The bounds that a recovery keeps.
pub record IsBounded (m : MatterSubscriptionRecovery) : Type 0 where
  pub byte : m.policy.maximum_subscribe_attempts ≤ 255
  pub room : RoomIn m m.phase

-- How many outcomes the machine can take at most.
abbrev pub steps_left : RecoveryPhase → ℕ → ℕ
steps_left marking n = n + 2
steps_left reading n = n + 1
steps_left resubscribing n = n
steps_left waiting n = n
steps_left completed n = 0
steps_left broken n = 0

abbrev pub left : MatterSubscriptionRecovery → ℕ
left m = steps_left m.phase (m.policy.maximum_subscribe_attempts - m.subscribe_attempts)

resumed-Room :
    (p : RecoveryPhase) (m : MatterSubscriptionRecovery) (now n : ℕ)
    → RoomIn m p
    → RoomIn m (resumed p m.retry_at now)
      × (steps_left (resumed p m.retry_at now) n ≡ steps_left p n)
unfolding resumed
resumed-Room marking m now n r = (r, refl)
resumed-Room p m now n r = ground arith

module _ (library : Library) where
  -- What an accepted outcome does to a machine in phase p.
  abbrev Settled : RecoveryPhase → MatterSubscriptionRecovery → MatterSubscriptionRecovery → Type 0
  Settled p m m' =
      RoomIn m' m'.phase
      × (left m' < steps_left p (m.policy.maximum_subscribe_attempts - m.subscribe_attempts))
      × (m'.policy ≡ m.policy)

  settle-Settled :
      (p : RecoveryPhase) (o : MatterSubscriptionRecoveryOutcome)
      (m m' : MatterSubscriptionRecovery) (now : ℕ)
      → m.policy.maximum_subscribe_attempts ≤ 255
      → RoomIn m p
      → settle library p o m now ≡ ok m'
      → Settled p m m'
  unfolding settle
  settle-Settled marking stale_persisted m m' now b v h = ground arith
  settle-Settled reading gap_read_completed m m' now b v h = ground arith
  settle-Settled reading gap_read_failed m m' now b v h = ground arith
  settle-Settled resubscribing resubscribed m m' now b v h = ground arith
  settle-Settled resubscribing resubscribe_failed m m' now b v h = ground arith
  settle-Settled _ _ m m' now b v h = absurd (cc)

  next_action-phase :
      (m : MatterSubscriptionRecovery) (now : ℕ)
      → (next_action library m now).1 ≡ record m { phase = resumed m.phase m.retry_at now }
  unfolding next_action
  next_action-phase m now = ground arith

bounded_counts :
    (p : RecoveryPhase) (m : MatterSubscriptionRecovery)
    → RoomIn m p
    → (m.subscribe_attempts ≤ m.policy.maximum_subscribe_attempts)
      × (m.gap_reads ≤ m.policy.maximum_gap_reads)
      × (steps_left p (m.policy.maximum_subscribe_attempts - m.subscribe_attempts) ≡ 0
          → (p ≡ completed) ⊎ (p ≡ broken))
bounded_counts completed m r = (omega arith, omega arith, λ e. inl refl)
bounded_counts broken m r = (omega arith, omega arith, λ e. inr refl)
bounded_counts p m r = (ground arith, ground arith, λ e. absurd (ground arith))

-- One action and the outcome that is reported for it.
unfoldable pub round :
    Library
    → MatterSubscriptionRecovery
    → ℕ × MatterSubscriptionRecoveryOutcome
    → Result MatterSubscriptionRecovery MatterSubscriptionRecoveryError
round library m (now, o) = record_outcome library (next_action library m now).1 o now

unfoldable pub rounds :
    Library
    → MatterSubscriptionRecovery
    → List (ℕ × MatterSubscriptionRecoveryOutcome)
    → Result MatterSubscriptionRecovery MatterSubscriptionRecoveryError
rounds library m [] = ok m
rounds library m (x ∷ xs) = do m' ← round library m x; rounds library m' xs

module _ (library : Library) where
  round-IsBounded :
      (m m' : MatterSubscriptionRecovery) (x : ℕ × MatterSubscriptionRecoveryOutcome)
      → IsBounded m
      → round library m x ≡ ok m'
      → IsBounded m' × (left m' < left m) × (m'.policy ≡ m.policy)
  unfolding round record_outcome
  round-IsBounded m m' (now, o) v h =
      let p = resumed m.phase m.retry_at now in
      let r =
        resumed-Room m.phase m now (m.policy.maximum_subscribe_attempts - m.subscribe_attempts)
          v.room in
      let h' = rw (next_action-phase library m now) at h in
      let s = settle-Settled library p o (record m { phase = p }) m' now v.byte r.0 h' in
      (
        record {
          byte = subst (λ q. q.maximum_subscribe_attempts ≤ 255) (sym s.2) v.byte;
          room = s.0;
        },
        omega (arith, r.1, s.1),
        s.2,
      )

  rounds-IsBounded :
      (m m' : MatterSubscriptionRecovery) (xs : List (ℕ × MatterSubscriptionRecoveryOutcome))
      → IsBounded m
      → rounds library m xs ≡ ok m'
      → IsBounded m' × (left m' + length xs ≤ left m) × (m'.policy ≡ m.policy)
  unfolding rounds
  rounds-IsBounded m m' [] v h = ground arith
  rounds-IsBounded m m' (x ∷ xs) v h =
      let (n, e, k) = >>=-ok (round library m x) (λ n. rounds library n xs) h in
      let a = round-IsBounded m n x v e in
      let b = rounds-IsBounded n m' xs a.0 k in (b.0, omega (arith, a.1, b.1), b.2 ∙ a.2)

  request-ne-wait : (r : Option MatterSubscriptionRequest) (t : ℕ) → request_action r ≢ wait_until t
  request-ne-wait none t h = absurd (cc)
  request-ne-wait (some r) t h = absurd (cc)

  waited :
      (p : RecoveryPhase) (m : MatterSubscriptionRecovery) (now later t u : ℕ)
      → RoomIn m p
      → (next_action library (record m { phase = p }) now).0 ≡ wait_until t
      → t ≤ later
      → (next_action library (next_action library (record m { phase = p }) now).1 later).0
        ≢ wait_until u
  unfolding next_action
  waited marking m now later t u r h l k = absurd (cc)
  waited reading m now later t u r h l k = ground arith
  waited resubscribing m now later t u r h l k = absurd (request-ne-wait _ t h)
  waited waiting m now later t u r h l k = ground (
    arith,
    request-ne-wait
        (new_request m.subscription_id m.fabric_id m.node_id m.selection m.minimum_interval_millis
          m.maximum_interval_millis)
        u,
  )
  waited completed m now later t u r h l k = absurd (cc)
  waited broken m now later t u r h l k = absurd (cc)

  module _ (subscription_id fabric_id node_id : ℕ) (selection : List ℕ) (minimum maximum : ℕ)
      (reason : MatterSubscriptionLossReason) (sleepy : Bool) (last : Option ℕ)
      (attempts reads base delay jitter interval : ℕ) (policy : MatterSubscriptionRecoveryPolicy)
      (valid : new_policy attempts reads base delay jitter interval ≡ ok policy)
      (byte : attempts ≤ 255) where
    abbrev pub lost : MatterSubscriptionRecovery
    lost =
        after_loss subscription_id fabric_id node_id selection minimum maximum reason sleepy last
          policy

    lost-IsBounded :
        IsBounded lost
        × (policy.maximum_subscribe_attempts ≡ attempts)
        × (policy.maximum_gap_reads ≡ reads)
    unfolding after_loss new_policy
    lost-IsBounded = ground arith

    -- A recovery ends: whatever it is told, and whenever, after a loss it takes at most two outcomes
    -- more than the policy has subscribe attempts, it never makes more attempts or gap reads than
    -- the policy has, and if it took the most outcomes it can take it is completed or broken.
    pub rounds-lost :
        (xs : List (ℕ × MatterSubscriptionRecoveryOutcome)) (m : MatterSubscriptionRecovery)
        → rounds library lost xs ≡ ok m
        → (length xs ≤ attempts + 2)
          × (m.subscribe_attempts ≤ attempts)
          × (m.gap_reads ≤ reads)
          × (length xs ≡ attempts + 2 → (m.phase ≡ completed) ⊎ (m.phase ≡ broken))
    unfolding after_loss
    rounds-lost xs m h =
        let (v, n, k) = lost-IsBounded in
        let (b, l, p) = rounds-IsBounded lost m xs v h in
        let c = bounded_counts m.phase m b.room in
        let most : left lost ≡ attempts + 2 = omega (arith, n) in
        let pa : m.policy.maximum_subscribe_attempts ≡ attempts =
          ap (λ q. q.maximum_subscribe_attempts) p ∙ n in
        let pr : m.policy.maximum_gap_reads ≡ reads = ap (λ q. q.maximum_gap_reads) p ∙ k in
        (
          omega (arith, l, most),
          omega (arith, c.0, pa),
          omega (arith, c.1, pr),
          λ e. c.2 (omega (arith, l, most)),
        )

    -- A wait ends: if a recovery, after any history, asks to wait until an instant, it asks for no
    -- other wait from that instant on.
    pub next_action-lost :
        (xs : List (ℕ × MatterSubscriptionRecoveryOutcome)) (m : MatterSubscriptionRecovery)
        (now later t u : ℕ)
        → rounds library lost xs ≡ ok m
        → (next_action library m now).0 ≡ wait_until t
        → t ≤ later
        → (next_action library (next_action library m now).1 later).0 ≢ wait_until u
    next_action-lost xs m now later t u h w l =
        let (b, _, _) = rounds-IsBounded lost m xs lost-IsBounded.0 h in
        waited m.phase m now later t u b.room w l
