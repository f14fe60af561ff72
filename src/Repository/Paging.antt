-- ===== src/Repository/Paging.antt =====
-- A reader that asks for one page after the other, each after the last cursor it has seen.
use homemagic.Prelude.{
  length, take, ℕ, zero, suc, ◌+◌, ◌-◌, ◌≤◌, ◌≡◌, refl, List, [], ◌∷◌, ◌++◌, arith, ltb, filter, ap,
  ◌∙◌, sym,
}
use homemagic.Repository.{
  CursorEvent, MemoryState, unwrap_or, last_cursor, events_after, FoundationWrite, empty, u64_max,
}
use homemagic.Repository.Events.{
  drop, numbered, filter-numbered, numbered-append, last_cursor-numbered, writes, all_events,
  writes-numbered,
}

module _ {E : Type 0} where
  take-numbered : (l n : ℕ) (xs : List E) → take l (numbered n xs) ≡ numbered n (take l xs)
  unfolding numbered
  take-numbered zero n xs = refl
  take-numbered (suc l) n [] = refl
  take-numbered (suc l) n (x ∷ xs) = ground (arith, take-numbered l (n + 1) xs)

  take-drop : (l : ℕ) (xs : List E) → take l xs ++ drop l xs ≡ xs
  take-drop zero xs = refl
  take-drop (suc l) [] = refl
  take-drop (suc l) (x ∷ xs) = ground (arith, take-drop l xs)

  drop-length-take : (l : ℕ) (xs : List E) → drop (length (take l xs)) xs ≡ drop l xs
  drop-length-take zero xs = refl
  drop-length-take (suc l) [] = refl
  drop-length-take (suc l) (x ∷ xs) = drop-length-take l xs

  drop-nil : (l : ℕ) → drop {A = E} l [] ≡ []
  drop-nil zero = refl
  drop-nil (suc l) = refl

  drop-drop : (c l k : ℕ) (xs : List E) → k ≡ c + l → drop l (drop c xs) ≡ drop k xs
  drop-drop zero l k xs h = ap (λ n. drop n xs) (omega arith)
  drop-drop (suc c) l zero xs h = absurd (omega arith)
  drop-drop (suc c) l (suc k) [] h = drop-nil l
  drop-drop (suc c) l (suc k) (x ∷ xs) h = drop-drop c l k xs (omega arith)

  length-drop : (l : ℕ) (xs : List E) → 1 ≤ l → length (drop l xs) ≤ length xs - 1
  length-drop zero xs h = absurd (omega arith)
  length-drop (suc zero) [] h = omega arith
  length-drop (suc zero) (x ∷ xs) h = omega arith
  length-drop (suc (suc l)) [] h = omega arith
  length-drop (suc (suc l)) (x ∷ xs) h = omega (arith, length-drop (suc l) xs)

  -- A page, read after the cursor c.
  page :
      (es : List E) (c l : ℕ)
      → take l (filter (λ e. ltb c e.cursor) (numbered 1 es))
        ≡ numbered (c + 1) (take l (drop c es))
  page es c l =
      ap (take l) (filter-numbered c c 0 es (omega arith)) ∙ take-numbered l (c + 1) (drop c es)

  nothing : (n : ℕ) (xs : List E) → length xs ≤ 0 → [] ≡ numbered n xs
  unfolding numbered
  nothing n [] h = refl
  nothing n (x ∷ xs) h = absurd (omega (arith, h))

  rejoined :
      (c l : ℕ) (ys : List E)
      → numbered (c + 1) (take l ys) ++ numbered (c + length (take l ys) + 1) (drop l ys)
        ≡ numbered (c + 1) ys
  rejoined c l ys =
      let a = numbered-append (c + 1) (take l ys) (drop l ys) in
      let m : c + length (take l ys) + 1 ≡ c + 1 + length (take l ys) = omega arith in
      rw m (sym a ∙ ap (numbered (c + 1)) (take-drop l ys))

module _ {D V E : Type 0} where
  -- The events of at most n further pages, each after the last cursor of the one before.
  unfoldable pub read_pages : MemoryState D V E → ℕ → ℕ → ℕ → List (CursorEvent E)
  read_pages s limit zero cursor = []
  read_pages s limit (suc n) cursor =
      let events = (events_after s cursor limit).events in
      events ++ read_pages s limit n (unwrap_or (last_cursor events) cursor)

  read_from :
      (s : MemoryState D V E) (es : List E) (limit n c : ℕ)
      → s.events ≡ numbered 1 es
      → 1 ≤ limit
      → length (drop c es) ≤ n
      → read_pages s limit n c ≡ numbered (c + 1) (drop c es)
  unfolding read_pages events_after
  read_from s es limit zero c v p h = nothing (c + 1) (drop c es) h
  read_from s es limit (suc n) c v p h =
      let ys = drop c es in
      let first = take limit ys in
      let k = length first in
      let left : drop (c + k) es ≡ drop limit ys =
        sym (drop-drop c k (c + k) es refl) ∙ drop-length-take limit ys in
      let fewer : length (drop (c + k) es) ≤ n =
        rw left (omega (arith, length-drop limit ys p, h)) in
      let rest = read_from s es limit n (c + k) v p fewer in
      let shown : take limit (filter (λ e. ltb c e.cursor) s.events) ≡ numbered (c + 1) first =
        rw v (page es c limit) in
      rw (shown, last_cursor-numbered c first, rest, left) (rejoined c limit ys)

  -- A reader that has seen everything up to a cursor and asks for one page after the other, each
  -- of at least one event and after the last cursor it was shown, gets every later event exactly
  -- once and in order, in at most as many pages as there are such events.
  pub read_pages-numbered :
      (device_id : D → ℕ) (ws : List (FoundationWrite D V E)) (limit n cursor : ℕ)
      → length (all_events ws) ≤ u64_max
      → 1 ≤ limit
      → length (drop cursor (all_events ws)) ≤ n
      → read_pages (writes device_id empty ws) limit n cursor
        ≡ numbered (cursor + 1) (drop cursor (all_events ws))
  read_pages-numbered device_id ws limit n cursor b p h =
      read_from (writes device_id empty ws) (all_events ws) limit n cursor
        (writes-numbered device_id ws b).0 p h
