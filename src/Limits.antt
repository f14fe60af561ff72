-- ===== src/Limits.antt =====
-- crates/homemagic-application/src/policy.rs, CommandLimits: a sliding request window for each actor
-- and a bounded number of command slots for each device. Instants and windows are nanoseconds. The
-- two hash maps are functions, an absent queue being an empty one. The asynchronous semaphore is
-- the interface below, and one call of `try_acquire` is taken as one step, although the source takes
-- the slot only after it has given up its lock.
mod Window
pub mod History
pub mod Examples
use homemagic.Prelude.{
  ltb, leb, if◌then◌else◌, length, ℤ, pos, negsuc, leb_ℤ, Result, ok, err, ◌==◌, nat_eq, text_eq, ℕ,
  suc, ◌+◌, ◌-◌, ◌≡◌, Bool, true, false, ◌||◌, Option, none, some, List, [], ◌∷◌, ◌++◌,
}
use homemagic.Policy.{CapacityState, exhausted}

pub record CommandLimitConfig : Type 0 where
  pub actor_requests : ℕ
  pub actor_window : ℤ
  pub device_concurrency : ℕ

pub data CommandLimitConfigError : Type 0 where
  command_limit_config_error : CommandLimitConfigError

-- CommandLimitConfig::new
unfoldable pub new : ℕ → ℤ → ℕ → Result CommandLimitConfig CommandLimitConfigError
new actor_requests actor_window device_concurrency =
    if actor_requests == 0 || leb_ℤ actor_window (pos 0) || device_concurrency == 0
    then err command_limit_config_error
    else ok (record {
      actor_requests = actor_requests;
      actor_window = actor_window;
      device_concurrency = device_concurrency;
    })

-- The operations of `tokio::sync::Semaphore` that the limits use.
pub record Semaphore (S : Type 0) : Type 0 where
  pub create : ℕ → S
  pub available_permits : S → ℕ
  pub try_acquire_owned : S → Option S
  pub add_permit : S → S

-- What is documented of them: a semaphore starts with its permits, an acquisition takes one or is
-- refused when none is left, and a dropped permit comes back.
pub record SemaphoreLaws {S : Type 0} (sem : Semaphore S) : Type 0 where
  pub created : (n : ℕ) → sem.available_permits (sem.create n) ≡ n
  pub taken :
      (s t : S)
      → sem.try_acquire_owned s ≡ some t
      → sem.available_permits s ≡ suc (sem.available_permits t)
  pub returned : (s : S) → sem.available_permits (sem.add_permit s) ≡ suc (sem.available_permits s)

pub record LimitState (S : Type 0) : Type 0 where
  pub actor_requests : ℕ → List ℕ
  pub devices : ℕ → Option S

-- The insertion into a map.
unfoldable pub update {ℓ} : {A : Type ℓ} → (ℕ → A) → ℕ → A → ℕ → A
update f k v j = if j == k then v else f j

-- `now - window`, which panics below the earliest instant.
unfoldable pub cutoff_at : ℕ → ℤ → Option ℕ
cutoff_at now (pos w) = if ltb now w then none else some (now - w)
cutoff_at now (negsuc w) = some (now + suc w)

-- `while requests.front().is_some_and(|at| *at <= cutoff) { requests.pop_front(); }`
unfoldable pub pop_expired : ℕ → List ℕ → List ℕ
pop_expired cutoff [] = []
pop_expired cutoff (at ∷ later) =
    let rest = pop_expired cutoff later in if leb at cutoff then rest else at ∷ later

-- The test and the `push_back` on one actor's queue.
unfoldable pub admit : ℕ → ℕ → List ℕ → List ℕ × CapacityState
admit limit now requests =
    if ltb (length requests) limit
    then (requests ++ now ∷ [], CapacityState.available)
    else (requests, exhausted)

pub record CommandLimitCapacities : Type 0 where
  pub rate : CapacityState
  pub device : CapacityState
  pub permit : Bool

module _ {S : Type 0} (sem : Semaphore S) (config : CommandLimitConfig) where
  -- `entry(device).or_insert_with(|| Semaphore::new(device_concurrency))`
  abbrev pub or_create : Option S → S
  or_create none = sem.create config.device_concurrency
  or_create (some d) = d

  unfoldable pub device_semaphore : LimitState S → ℕ → S
  device_semaphore s device_id = or_create (s.devices device_id)

  -- The acquisition, made only for an admitted request.
  unfoldable pub take_slot : CapacityState → S → S × Bool
  take_slot CapacityState.available d = elim (sem.try_acquire_owned d) [
    | none ↦ (d, false)
    | some d' ↦ (d', true)
  ]
  take_slot exhausted d = (d, false)

  -- CommandLimits::try_acquire behind the computation of the cutoff.
  unfoldable pub acquire_at : LimitState S → ℕ → ℕ → ℕ → ℕ → LimitState S × CommandLimitCapacities
  acquire_at s actor_id device_id now cutoff =
      let (requests, rate) =
        admit config.actor_requests now (pop_expired cutoff (s.actor_requests actor_id)) in
      let d = device_semaphore s device_id in
      let was_available = ltb 0 (sem.available_permits d) in
      let (d', permit) = take_slot rate d in
      (
        record {
          actor_requests = update s.actor_requests actor_id requests;
          devices = update s.devices device_id (some d');
        },
        record {
          rate = rate;
          device = if permit || was_available then CapacityState.available else exhausted;
          permit = permit;
        },
      )

  -- CommandLimits::try_acquire; none is the panic of `now - actor_window`.
  unfoldable pub try_acquire :
      LimitState S → ℕ → ℕ → ℕ → Option (LimitState S × CommandLimitCapacities)
  try_acquire s actor_id device_id now = elim (cutoff_at now config.actor_window) [
    | none ↦ none
    | some cutoff ↦ some (acquire_at s actor_id device_id now cutoff)
  ]

  -- Dropping a CommandPermit of a device.
  unfoldable pub release : LimitState S → ℕ → LimitState S
  release s device_id = record s {
    devices = update s.devices device_id (some (sem.add_permit (device_semaphore s device_id)));
  }
