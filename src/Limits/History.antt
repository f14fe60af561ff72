-- ===== src/Limits/History.antt =====
-- Histories of requests and dropped permits, and the invariant over them.
use homemagic.Policy.{CapacityState, exhausted}
use homemagic.Prelude.{
  ℕ, ◌+◌, ◌-◌, ◌≤◌, ◌<◌, ◌≡◌, Bool, true, false, none, some, List, [], inl, inr, arith,
  Option-cases, nat_eq, text_eq, refl, Option,
}
use homemagic.Limits.{
  CommandLimitConfig, Semaphore, LimitState, update, pop_expired, admit, CommandLimitCapacities,
  device_semaphore, take_slot, try_acquire, release, acquire_at, SemaphoreLaws,
}
use homemagic.Limits.Window.{note, Bounded}

abbrev pub count : Bool → ℕ
count true = 1
count false = 0

module _ {S : Type 0} (sem : Semaphore S) (config : CommandLimitConfig) where
  abbrev pub empty_state : LimitState S
  empty_state = record { actor_requests = λ _. []; devices = λ _. none }

  -- A state, the permits held on each device, the requests admitted for each actor, and the time.
  -- Requests come in the order of time; a permit is dropped only where one is held.
  pub data Reached : LimitState S → (ℕ → ℕ) → (ℕ → List ℕ) → ℕ → Type 0 where
    start : Reached empty_state (λ _. 0) (λ _. []) 0
    called :
        {s : LimitState S} {held : ℕ → ℕ} {admitted : ℕ → List ℕ} {now : ℕ} (s' : LimitState S)
        (r : CommandLimitCapacities) (actor_id device_id later : ℕ)
        → Reached s held admitted now
        → now ≤ later
        → try_acquire sem config s actor_id device_id later ≡ some (s', r)
        → Reached s'
            (update held device_id (held device_id + count r.permit))
            (update admitted actor_id (note r.rate later (admitted actor_id)))
            later
    dropped :
        {s : LimitState S} {held : ℕ → ℕ} {admitted : ℕ → List ℕ} {now : ℕ} (device_id : ℕ)
        → Reached s held admitted now
        → 0 < held device_id
        → Reached
            (release sem config s device_id)
            (update held device_id (held device_id - 1))
            admitted
            now

  -- The parts of a call that succeeds.
  pub record Parts (s s' : LimitState S) (r : CommandLimitCapacities) (a d now w : ℕ) : Type 0 where
    pub in_range : w ≤ now
    pub queue :
        s'.actor_requests
        ≡ update s.actor_requests a
            (admit config.actor_requests now (pop_expired (now - w) (s.actor_requests a))).0
    pub rate :
        r.rate ≡ (admit config.actor_requests now (pop_expired (now - w) (s.actor_requests a))).1
    pub slot :
        s'.devices
        ≡ update s.devices d
            (some (take_slot sem config r.rate (device_semaphore sem config s d)).0)
    pub permit : r.permit ≡ (take_slot sem config r.rate (device_semaphore sem config s d)).1

  pub acquired :
      (s s' : LimitState S) (r : CommandLimitCapacities) (a d now : ℕ) (c : Option ℕ)
      → elim c as (λ _. Option (LimitState S × CommandLimitCapacities)) [
        | none ↦ none
        | some cutoff ↦ some (acquire_at sem config s a d now cutoff)
      ]
        ≡ some (s', r)
      → (k : ℕ) × (c ≡ some k) × (acquire_at sem config s a d now k ≡ (s', r))
  acquired s s' r a d now none h = absurd (cc)
  acquired s s' r a d now (some k) h = (k, refl, (cc))

  -- The slots of a device that are free.
  abbrev pub left : LimitState S → ℕ → ℕ
  left s d = sem.available_permits (device_semaphore sem config s d)

  -- What every history keeps: the window of each actor, and the permits of each device.
  pub record Inv (w : ℕ) (s : LimitState S) (held : ℕ → ℕ) (admitted : ℕ → List ℕ) (now : ℕ)
      : Type 0 where
    pub rate : (a : ℕ) → Bounded config.actor_requests now w (admitted a) (s.actor_requests a)
    pub slots : (d : ℕ) → held d + left s d ≡ config.device_concurrency

  module _ (laws : SemaphoreLaws sem) where
    pub take_slot-count :
        (c : CapacityState) (d : S)
        → sem.available_permits d
          ≡ sem.available_permits (take_slot sem config c d).0 + count (take_slot sem config c d).1
    unfolding take_slot
    take_slot-count exhausted d = omega arith
    take_slot-count CapacityState.available d = elim (Option-cases (sem.try_acquire_owned d)) [
      | inl e ↦ rw (e, take_slot) (omega arith)
      | inr (d', e) ↦ rw (e, take_slot) (omega (arith, laws.taken d d' e))
    ]
