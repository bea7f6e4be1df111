-- ===== src/TimerQueue/Order.antt =====
-- Keys and order of the timers of http/timer_queue.h.
use bmcweb.Prelude.{
  ℕ, zero, suc, ◌+◌, ◌-◌, ◌%◌, ◌^◌, ◌<◌, ◌≤◌, ◌≡◌, refl, ap, ◌∙◌, true, false, none, some, List, [],
  ◌∷◌, ◌++◌, length, length-append, length-drop, drop, set, get_or, arith, Bool-cases, inl, inr,
  if◌then◌else◌, ◌==◌, ltb,
}
use bmcweb.TimerQueue.{
  Timer, TimerQueue, capacity, five_seconds, sub_size, cancel, push_back, add_timer, process_from,
  process,
}

length-push_back :
    (t : Timer) (dq : List Timer)
    → length dq ≤ capacity
    → length (push_back t dq) ≡ (if length dq == capacity then capacity else suc (length dq))
unfolding push_back
length-push_back t dq h = elim (Bool-cases (length dq == capacity)) [
  | inl e ↦ rw e (ground (arith, length-append (drop 1 dq) (t ∷ []), length-drop 1 dq))
  | inr e ↦ rw e (omega (arith, length-append dq (t ∷ [])))
]

set-append : (dq : List Timer) (t u : Timer) → set (dq ++ t ∷ []) (length dq) u ≡ dq ++ u ∷ []
set-append [] t u = refl
set-append (s ∷ dq) t u = ap (◌∷◌ s) (set-append dq t u)

get_or-append : (dq : List Timer) (t d : Timer) → get_or (dq ++ t ∷ []) (length dq) d ≡ t
get_or-append [] t d = refl
get_or-append (s ∷ dq) t d = get_or-append dq t d

-- The key that `add` returns cancels that timer and no other, while the ring has room. (The count of
-- the timers stays below the width of `size_t`.)
pub cancel-add_timer :
    (now f : ℕ) (q : TimerQueue)
    → length q.dq < capacity
    → q.step + capacity < 2 ^ 64
    → (cancel (add_timer now f q).1 (add_timer now f q).0).dq ≡ q.dq ++ (now, none) ∷ []
unfolding cancel add_timer push_back
cancel-add_timer now f q h w =
    let size = length q.dq in
    let room : (size == capacity) ≡ false = ground arith in
    let placed : push_back (now, some f) q.dq ≡ q.dq ++ (now, some f) ∷ [] =
      rw (room, push_back) refl in
    let longer : length (q.dq ++ (now, some f) ∷ []) ≡ suc size =
      omega (arith, length-append q.dq ((now, some f) ∷ [])) in
    let index : sub_size ((q.step + suc size - 1) % 2 ^ 64) q.step ≡ size = omega arith in
    let inside : ltb size (suc size) ≡ true = ground arith in
    rw (placed, longer, cancel, index, inside, get_or-append q.dq (now, some f) (0, none))
      (set-append q.dq (now, some f) (now, none))

push_back_full :
    (t : Timer) (dq : List Timer) → length dq ≡ capacity → push_back t dq ≡ drop 1 dq ++ t ∷ []
unfolding push_back
push_back_full t dq h = let full : (length dq == capacity) ≡ true = ground arith in rw full refl

-- What a ring holds after two timers more, when it was full.
push_back_twice :
    (t u : Timer) (dq : List Timer)
    → length dq ≡ capacity
    → push_back u (push_back t dq) ≡ (drop 2 dq ++ t ∷ []) ++ u ∷ []
push_back_twice t u [] h = absurd (omega arith)
push_back_twice t u (a ∷ []) h = absurd (omega arith)
push_back_twice t u (a ∷ b ∷ dq) h =
    let first : push_back t (a ∷ b ∷ dq) ≡ b ∷ dq ++ t ∷ [] = push_back_full t (a ∷ b ∷ dq) h in
    let longer : length (b ∷ dq ++ t ∷ []) ≡ capacity = omega (arith, length-append dq (t ∷ [])) in
    ap (push_back u) first ∙ push_back_full u (b ∷ dq ++ t ∷ []) longer

-- Where the ring is full, two timers that are added one after the other have the same key, and what it
-- cancels is the second: the first stays with its callback, though its owner cancels under its key.
-- (The count of the timers stays below the width of `size_t`.)
pub add_timer_full :
    (now later f g : ℕ) (q : TimerQueue)
    → length q.dq ≡ capacity
    → q.step + capacity < 2 ^ 64
    → let (first, key) = add_timer now f q in
      let (second, next_key) = add_timer later g first in
      (next_key ≡ key)
      × ((cancel key second).dq ≡ (drop 2 q.dq ++ (now, some f) ∷ []) ++ (later, none) ∷ [])
unfolding add_timer cancel
add_timer_full now later f g q h w =
    let kept = drop 2 q.dq ++ (now, some f) ∷ [] in
    let one : length (push_back (now, some f) q.dq) ≡ capacity =
      ground (arith, length-push_back (now, some f) q.dq) in
    let two : length (push_back (later, some g) (push_back (now, some f) q.dq)) ≡ capacity =
      ground (arith, length-push_back (later, some g) (push_back (now, some f) q.dq)) in
    let size : length kept ≡ 99 =
      omega (arith, length-append (drop 2 q.dq) ((now, some f) ∷ []), length-drop 2 q.dq) in
    let longer : length (kept ++ (later, some g) ∷ []) ≡ 100 =
      omega (arith, length-append kept ((later, some g) ∷ [])) in
    let index : sub_size ((q.step + 100 - 1) % 2 ^ 64) q.step ≡ length kept = omega arith in
    let inside : ltb (length kept) 100 ≡ true = ground arith in
    (
      rw (one, two) refl,
      rw
          (
            one,
            push_back_twice (now, some f) (later, some g) q.dq h,
            cancel,
            index,
            longer,
            inside,
            get_or-append kept (later, some g) (0, none),
          )
          (set-append kept (later, some g) (later, none)),
    )

process_from_lem :
    (now : ℕ) (dq : List Timer)
    → ((process_from now dq).0 ≡ drop (process_from now dq).1 dq)
      × ((process_from now dq).1 ≤ length dq)
unfolding process_from
process_from_lem now [] = (refl, omega arith)
process_from_lem now ((started, f) ∷ dq) =
    let (left, taken) = process_from_lem now dq in
    elim (Bool-cases (ltb (now - started) five_seconds)) [
      | inl e ↦ rw e (refl, omega arith)
      | inr e ↦ rw e (left, omega arith)
    ]

get_or-drop :
    (dq : List Timer) (n i : ℕ) (d : Timer) → n ≤ i → get_or (drop n dq) (i - n) d ≡ get_or dq i d
get_or-drop dq zero i d h = let same : i - 0 ≡ i = omega arith in rw same refl
get_or-drop [] (suc n) i d h = refl
get_or-drop (t ∷ dq) (suc n) zero d h = absurd (omega arith)
get_or-drop (t ∷ dq) (suc n) (suc i) d h =
    let same : suc i - suc n ≡ i - n = omega arith in rw same (get_or-drop dq n i d (omega arith))

-- A timer that is not yet taken keeps its key: before and after `process`, the timer of a key is the
-- same. (The count of the timers stays below the width of `size_t`.)
pub process_key :
    (now i : ℕ) (q : TimerQueue) (d : Timer)
    → q.step + length q.dq < 2 ^ 64
    → (process now q).0.step ≤ q.step + i
    → get_or (process now q).0.dq (q.step + i - (process now q).0.step) d ≡ get_or q.dq i d
unfolding process
process_key now i q d w h =
    let (left, taken) = process_from_lem now q.dq in
    let count : (q.step + (process_from now q.dq).1) % 2 ^ 64 ≡ q.step + (process_from now q.dq).1 =
      omega arith in
    let due : (process_from now q.dq).1 ≤ i = omega arith in
    let place : q.step + i - (q.step + (process_from now q.dq).1) ≡ i - (process_from now q.dq).1 =
      omega arith in
    rw (count, place, left) (get_or-drop q.dq (process_from now q.dq).1 i d due)
