-- ===== src/Repository/Events.antt =====
-- The events of a history of writes, and the pages that readers get of them.
use homemagic.Prelude.{
  ltb, length, filter, ℕ, zero, suc, ◌+◌, ◌≤◌, ◌<◌, ◌≡◌, refl, List, [], ◌∷◌, ◌++◌, ap, arith, all,
  Option, length-append, sym, ◌∙◌, subst,
}
use mathlib.Core.List.{append-nil, append_assoc}
use homemagic.Repository.{
  CursorEvent, u64_max, unwrap_or, last_cursor, record_events, FoundationWrite, MemoryState, empty,
  apply, append_events,
}

abbrev pub drop {ℓ} : {A : Type ℓ} → ℕ → List A → List A
drop zero xs = xs
drop (suc n) [] = []
drop (suc n) (x ∷ xs) = drop n xs

module _ {E : Type 0} where
  -- Events with consecutive cursors.
  unfoldable pub numbered : ℕ → List E → List (CursorEvent E)
  numbered n [] = []
  numbered n (e ∷ es) = record { cursor = n; event = e } ∷ numbered (n + 1) es

  pub numbered-append :
      (n : ℕ) (xs ys : List E)
      → numbered n (xs ++ ys) ≡ numbered n xs ++ numbered (n + length xs) ys
  unfolding numbered
  numbered-append n [] ys = ap (λ k. numbered k ys) (omega arith)
  numbered-append n (x ∷ xs) ys = grind (arith, numbered-append (n + 1) xs ys)

  recorded :
      (current offset : ℕ) (es : List E)
      → current + offset + length es ≤ u64_max
      → record_events current offset es ≡ numbered (current + offset + 1) es
  unfolding record_events numbered
  recorded current offset [] h = refl
  recorded current offset (e ∷ es) h = grind (arith, recorded current (offset + 1) es)

  pub last_cursor-numbered :
      (m : ℕ) (xs : List E) → unwrap_or (last_cursor (numbered (m + 1) xs)) m ≡ m + length xs
  unfolding last_cursor numbered
  last_cursor-numbered m [] = omega arith
  last_cursor-numbered m (x ∷ xs) = ground (arith, last_cursor-numbered (m + 1) xs)

  none_before :
      (c n : ℕ) (xs : List E) → c < n → filter (λ e. ltb c e.cursor) (numbered n xs) ≡ numbered n xs
  unfolding numbered
  none_before c n [] h = refl
  none_before c n (x ∷ xs) h = ground (arith, none_before c (n + 1) xs)

  pub filter-numbered :
      (k c n : ℕ) (xs : List E)
      → c ≡ k + n
      → filter (λ e. ltb c e.cursor) (numbered (n + 1) xs) ≡ numbered (c + 1) (drop k xs)
  unfolding numbered
  filter-numbered zero c n xs h = grind (arith, none_before c (n + 1) xs)
  filter-numbered (suc k) c n [] h = refl
  filter-numbered (suc k) c n (x ∷ xs) h = ground (arith, filter-numbered k c (n + 1) xs)

  append_events-numbered :
      (cursor : Option ℕ) (events : List (CursorEvent E)) (es new : List E)
      → length es + length new ≤ u64_max
      → events ≡ numbered 1 es
      → cursor ≡ last_cursor events
      → let (c, all) = append_events cursor events new in
        (all ≡ numbered 1 (es ++ new)) × (c ≡ last_cursor all)
  unfolding append_events
  append_events-numbered cursor events es [] h v l = (v ∙ ap (numbered 1) (sym (append-nil es)), l)
  append_events-numbered cursor events es (e ∷ new) h v l =
      let u : unwrap_or cursor 0 ≡ length es =
        rw (l, v) (omega (arith, last_cursor-numbered 0 es)) in
      let r = recorded (length es) 0 (e ∷ new) (omega arith) in
      (
        rw (u, v, r, numbered-append 1 es (e ∷ new))
            (ap (λ n. numbered 1 es ++ numbered n (e ∷ new)) (omega arith)),
        refl,
      )

module _ {D V E : Type 0} where
  abbrev pub all_events : List (FoundationWrite D V E) → List E
  all_events [] = []
  all_events (w ∷ ws) = w.events ++ all_events ws

module _ {D V E : Type 0} (device_id : D → ℕ) where
  unfoldable pub writes : MemoryState D V E → List (FoundationWrite D V E) → MemoryState D V E
  writes s [] = s
  writes s (w ∷ ws) = writes (apply device_id s w) ws

  record Inv (s : MemoryState D V E) (es : List E) : Type 0 where
    pub kept : s.events ≡ numbered 1 es
    pub latest : s.snapshot.event_cursor ≡ last_cursor s.events

  apply-Inv :
      (s : MemoryState D V E) (w : FoundationWrite D V E) (es : List E)
      → length es + length w.events ≤ u64_max
      → Inv s es
      → Inv (apply device_id s w) (es ++ w.events)
  unfolding apply
  apply-Inv s w es h v =
      let (k, l) =
        append_events-numbered s.snapshot.event_cursor s.events es w.events h v.kept v.latest in
      record { kept = k; latest = l }

  writes-Inv :
      (s : MemoryState D V E) (ws : List (FoundationWrite D V E)) (es : List E)
      → length es + length (all_events ws) ≤ u64_max
      → Inv s es
      → Inv (writes s ws) (es ++ all_events ws)
  unfolding writes
  writes-Inv s [] es h v = subst (Inv s) (sym (append-nil es)) v
  writes-Inv s (w ∷ ws) es h v =
      let b : length (es ++ w.events) + length (all_events ws) ≤ u64_max =
        omega (arith, h, length-append es w.events, length-append w.events (all_events ws)) in
      subst (Inv (writes (apply device_id s w) ws)) (append_assoc es w.events (all_events ws)) (
        writes-Inv (apply device_id s w) ws (es ++ w.events) b
          (apply-Inv s w es (omega (arith, h, length-append w.events (all_events ws))) v))

  -- After any history of writes with at most 2^64 - 1 events, the events that the repository holds
  -- are all those that were written, in their order, with the cursors 1, 2, 3 and so on; and the
  -- cursor in the snapshot is that of the last event, or absent if there is none.
  pub writes-numbered :
      (ws : List (FoundationWrite D V E))
      → length (all_events ws) ≤ u64_max
      → let s = writes empty ws in
        (s.events ≡ numbered 1 (all_events ws)) × (s.snapshot.event_cursor ≡ last_cursor s.events)
  unfolding numbered last_cursor
  writes-numbered ws h =
      let v = writes-Inv empty ws [] (omega arith) (record { kept = refl; latest = refl }) in
      (v.kept, v.latest)
