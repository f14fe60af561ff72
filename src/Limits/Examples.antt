-- ===== src/Limits/Examples.antt =====
-- The limits at concrete inputs, with a counter for the semaphore.
use homemagic.Prelude.{pos, ℕ, zero, suc, ◌+◌, ◌≡◌, refl, Option, none, some, arith}
use homemagic.Limits.{
  CommandLimitConfig, Semaphore, SemaphoreLaws, LimitState, update, pop_expired, admit,
  CommandLimitCapacities, device_semaphore, take_slot, acquire_at,
}
use homemagic.Limits.History.{count, empty_state}

abbrev pub take_one : ℕ → Option ℕ
take_one zero = none
take_one (suc n) = some n

abbrev pub counter : Semaphore ℕ
counter = record {
  create = λ n. n;
  available_permits = λ n. n;
  try_acquire_owned = take_one;
  add_permit = suc;
}

pub take_one_lem : (s t : ℕ) → take_one s ≡ some t → s ≡ suc t
take_one_lem zero t h = absurd (cc)
take_one_lem (suc n) t h = ground arith

pub take_one-none : (s : ℕ) → take_one s ≡ none → s ≡ 0
take_one-none zero h = refl
take_one-none (suc n) h = absurd (cc)

abbrev pub counter_laws : SemaphoreLaws counter
counter_laws = record { created = λ n. refl; taken = take_one_lem; returned = λ s. refl }

abbrev pub two_a_minute : CommandLimitConfig
two_a_minute = record { actor_requests = 2; actor_window = pos 60; device_concurrency = 1 }

abbrev pub start_state : LimitState ℕ
start_state = empty_state counter two_a_minute

-- Actor 7 asks for device 3 at time 100.
first_call : LimitState ℕ × CommandLimitCapacities
first_call = acquire_at counter two_a_minute start_state 7 3 100 40

held_one : update (λ _. 0) 3 (0 + count first_call.1.permit) 3 ≡ 1
unfolding first_call acquire_at device_semaphore take_slot admit pop_expired update
held_one = refl
