-- ===== src/Repair/Closing.antt =====
-- Histories of requests to resolve or to dismiss a repair.
use homemagic.Prelude.{Result, ok, err, ℕ, ◌≡◌, refl, true, false, List, [], ◌∷◌, ◌≤◌, some, arith}
use homemagic.Repair.{RepairRecord, RepairTransitionError, is_open, resolve, dismiss}

-- An operator's request on a repair.
pub data Request : Type 0 where
  resolves dismisses : ℕ → Request

unfoldable pub apply : RepairRecord → Request → Result RepairRecord RepairTransitionError
apply r (resolves at) = resolve r at
apply r (dismisses at) = dismiss r at

unfoldable pub after : RepairRecord → Request → RepairRecord
after r q = elim (apply r q) [ ok r' ↦ r' | err _ ↦ r ]

unfoldable pub requests : RepairRecord → List Request → RepairRecord
requests r [] = r
requests r (q ∷ qs) = requests (after r q) qs

after-closed : (r : RepairRecord) (q : Request) → is_open r.status ≡ false → after r q ≡ r
unfolding after apply resolve dismiss
after-closed r (resolves at) h = ground arith
after-closed r (dismisses at) h = ground arith

closed_stays : (r : RepairRecord) (qs : List Request) → is_open r.status ≡ false → requests r qs ≡ r
unfolding requests
closed_stays r [] h = refl
closed_stays r (q ∷ qs) h = rw (after-closed r q h) (closed_stays r qs h)

abbrev pub instant : Request → ℕ
instant (resolves at) = at
instant (dismisses at) = at

closes :
    (r r' : RepairRecord) (q : Request)
    → apply r q ≡ ok r'
    → (is_open r.status ≡ true)
      × (r.created_at ≤ instant q)
      × (is_open r'.status ≡ false)
      × (r'.closed_at ≡ some (instant q))
unfolding apply resolve dismiss
closes r r' (resolves at) h = ground arith
closes r r' (dismisses at) h = ground arith

-- A request that is accepted closes an open repair, at or after its creation, with the request's
-- time, and is final: whatever is requested later, the repair stays as that request left it.
pub apply_final :
    (r r' : RepairRecord) (q : Request) (qs : List Request)
    → apply r q ≡ ok r'
    → (is_open r.status ≡ true)
      × (r.created_at ≤ instant q)
      × (r'.closed_at ≡ some (instant q))
      × (is_open r'.status ≡ false)
      × (requests r' qs ≡ r')
apply_final r r' q qs h = let (o, t, n, c) = closes r r' q h in (o, t, c, n, closed_stays r' qs n)
