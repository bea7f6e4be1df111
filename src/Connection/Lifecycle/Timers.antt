-- ===== src/Connection/Lifecycle/Timers.antt =====
-- The timer of one connection in the ring of http/timer_queue.h that all connections share.
use bmcweb.Prelude.{
  ℕ, zero, suc, ◌+◌, ◌-◌, ◌%◌, ◌^◌, ◌<◌, ◌≤◌, ◌≡◌, ◌≢◌, refl, sym, ap, subst, ◌∙◌, inl, inr, true,
  false, Option, none, some, List, [], ◌∷◌, ◌++◌, arith, length, length-append, set, length-set,
  any, ltb, ◌==◌, ==_iff, and_split, if_true, if_false, Bool-cases, if-elim, All-append,
}
use bmcweb.TimerQueue.{
  Timer, TimerQueue, capacity, five_seconds, sub_size, cancel, push_back, add_timer, call,
  process_from, process,
}
use bmcweb.Connection.Lifecycle.{self, has_room, IsAbsent}

-- A timer of the connection stands only in the place of its key, where the first timer has the key `i`.
abbrev pub IsMarked : ℕ → ℕ → List Timer → Type 0
IsMarked k i [] = Unit
IsMarked k i (t ∷ dq) = (t.1 ≡ some self → i ≡ k) × IsMarked k (suc i) dq

set-IsAbsent : (dq : List Timer) (n now : ℕ) → IsAbsent dq → IsAbsent (set dq n (now, none))
set-IsAbsent [] n now h = tt
set-IsAbsent (t ∷ dq) zero now (h, hs) = (λ e. cc, hs)
set-IsAbsent (t ∷ dq) (suc n) now (h, hs) = (h, set-IsAbsent dq n now hs)

set-IsMarked :
    (k i : ℕ) (dq : List Timer) (n now : ℕ) → IsMarked k i dq → IsMarked k i (set dq n (now, none))
set-IsMarked k i [] n now h = tt
set-IsMarked k i (t ∷ dq) zero now (h, hs) = (λ e. absurd (cc), hs)
set-IsMarked k i (t ∷ dq) (suc n) now (h, hs) = (h, set-IsMarked k (suc i) dq n now hs)

-- A key that is no longer, or not yet, in the ring marks nothing.
IsAbsent-behind : (k i : ℕ) (dq : List Timer) → k < i → IsMarked k i dq → IsAbsent dq
IsAbsent-behind k i [] lt h = tt
IsAbsent-behind k i (t ∷ dq) lt (h, hs) =
    (λ e. absurd (omega (arith, h e)), IsAbsent-behind k (suc i) dq (omega arith) hs)

IsAbsent-ahead : (k i : ℕ) (dq : List Timer) → i + length dq ≤ k → IsMarked k i dq → IsAbsent dq
IsAbsent-ahead k i [] le h = tt
IsAbsent-ahead k i (t ∷ dq) le (h, hs) =
    (λ e. absurd (omega (arith, h e)), IsAbsent-ahead k (suc i) dq (omega arith) hs)

-- What the key marks is taken out in its place.
set-IsAbsent_of_IsMarked :
    (k i n now : ℕ) (dq : List Timer)
    → k ≡ i + n
    → IsMarked k i dq
    → IsAbsent (set dq n (now, none))
set-IsAbsent_of_IsMarked k i n now [] e h = tt
set-IsAbsent_of_IsMarked k i zero now (t ∷ dq) e (h, hs) =
    (λ q. absurd (cc), IsAbsent-behind k (suc i) dq (omega arith) hs)
set-IsAbsent_of_IsMarked k i (suc n) now (t ∷ dq) e (h, hs) =
    (λ q. absurd (omega (arith, h q)), set-IsAbsent_of_IsMarked k (suc i) n now dq (omega arith) hs)

IsAbsent-of_IsMarked : (k i : ℕ) (dq : List Timer) → IsAbsent dq → IsMarked k i dq
IsAbsent-of_IsMarked k i [] h = tt
IsAbsent-of_IsMarked k i (t ∷ dq) (h, hs) =
    (λ e. absurd (h e), IsAbsent-of_IsMarked k (suc i) dq hs)

append-IsMarked :
    (k i : ℕ) (dq : List Timer) (t : Timer)
    → IsMarked k i dq
    → (t.1 ≡ some self → i + length dq ≡ k)
    → IsMarked k i (dq ++ t ∷ [])
append-IsMarked k i [] t h m = (λ e. omega (arith, m e), tt)
append-IsMarked k i (u ∷ dq) t (h, hs) m =
    (h, append-IsMarked k (suc i) dq t hs (λ e. omega (arith, m e)))

-- At most the timer of the key `k` is the connection's, and no key in the ring wraps.
pub record Owns (k : ℕ) (q : TimerQueue) : Type 0 where
  pub narrow : q.step + length q.dq < 2 ^ 64
  pub marked : IsMarked k q.step q.dq

cancel_elim :
    (P : List Timer → Type 0) (j : ℕ) (q : TimerQueue)
    → P q.dq
    → ((now : ℕ) → P (set q.dq (sub_size j q.step) (now, none)))
    → P (cancel j q).dq
unfolding cancel
cancel_elim P j q h hs =
    if-elim (λ (r : TimerQueue). P r.dq) (ltb (sub_size j q.step) (length q.dq)) _ _ (hs _) h

cancel-step : (j : ℕ) (q : TimerQueue) → (cancel j q).step ≡ q.step
unfolding cancel
cancel-step j q =
    if-elim (λ (r : TimerQueue). r.step ≡ q.step) (ltb (sub_size j q.step) (length q.dq)) _ _ refl
      refl

pub cancel-IsAbsent : (j : ℕ) (q : TimerQueue) → IsAbsent q.dq → IsAbsent (cancel j q).dq
cancel-IsAbsent j q h =
    cancel_elim IsAbsent j q h (λ now. set-IsAbsent q.dq (sub_size j q.step) now h)

pub cancel-Owns : (k j : ℕ) (q : TimerQueue) → Owns k q → Owns k (cancel j q)
cancel-Owns k j q h =
    let same = sym (cancel-step j q) in
    let wide : length (cancel j q).dq ≡ length q.dq =
      cancel_elim (λ dq. length dq ≡ length q.dq) j q refl
        (λ now. length-set q.dq (sub_size j q.step) (now, none)) in
    record {
      narrow = omega (arith, h.narrow);
      marked =
          subst (λ n. IsMarked k n (cancel j q).dq) same
            (cancel_elim (IsMarked k q.step) j q h.marked
              (λ now. set-IsMarked k q.step q.dq (sub_size j q.step) now h.marked));
    }

-- The connection's own key takes its timer out.
pub cancel_own : (k : ℕ) (q : TimerQueue) → Owns k q → IsAbsent (cancel k q).dq
unfolding cancel
cancel_own k q h = elim (Bool-cases (ltb k q.step)) [
  | inl e ↦ cancel-IsAbsent k q (IsAbsent-behind k q.step q.dq (ground arith) h.marked)
  | inr e ↦ elim (Bool-cases (ltb k (q.step + length q.dq))) [
    | inl f ↦
        let narrow = h.narrow in
        let lower : q.step ≤ k = ground arith in
        let upper : k < q.step + length q.dq = ground arith in
        let index : sub_size k q.step ≡ k - q.step = omega arith in
        let inside : ltb (sub_size k q.step) (length q.dq) ≡ true = ground arith in
        subst (λ (r : TimerQueue). IsAbsent r.dq) (sym (if_true _ _ _ inside))
          (set-IsAbsent_of_IsMarked k q.step (sub_size k q.step) _ q.dq (omega arith) h.marked)
    | inr f ↦ cancel-IsAbsent k q (IsAbsent-ahead k q.step q.dq (ground arith) h.marked)
  ]
]

-- Where there is room, a timer goes behind the others, and its key is that place.
add_timer_lem :
    (now f : ℕ) (q : TimerQueue)
    → has_room q ≡ true
    → ((add_timer now f q).0 ≡ record q { dq = q.dq ++ (now, some f) ∷ [] })
      × ((add_timer now f q).1 ≡ q.step + length q.dq)
      × (q.step + suc (length q.dq) < 2 ^ 64)
unfolding add_timer push_back
add_timer_lem now f q room =
    let (a, b) = and_split (ltb (length q.dq) capacity) (ltb (q.step + capacity) (2 ^ 64)) room in
    let small : length q.dq < capacity = ground arith in
    let narrow : q.step + capacity < 2 ^ 64 = ground arith in
    let open_ring : (length q.dq == capacity) ≡ false = ground arith in
    let placed : push_back (now, some f) q.dq ≡ q.dq ++ (now, some f) ∷ [] =
      if_false _ _ _ open_ring in
    let longer : length (push_back (now, some f) q.dq) ≡ suc (length q.dq) =
      ap (λ (l : List Timer). length l) placed
      ∙ length-append q.dq ((now, some f) ∷ [])
      ∙ omega arith in
    (ap (λ (l : List Timer). record q { dq = l }) placed, omega arith, omega arith)

add_marked :
    (k now f : ℕ) (q : TimerQueue)
    → has_room q ≡ true
    → IsMarked k q.step q.dq
    → (some f ≡ some self → q.step + length q.dq ≡ k)
    → Owns k (add_timer now f q).0
add_marked k now f q room h m =
    let (placed, key, narrow) = add_timer_lem now f q room in
    subst (Owns k) (sym placed) (record {
      narrow = omega (arith, length-append q.dq ((now, some f) ∷ []));
      marked = append-IsMarked k q.step q.dq (now, some f) h m;
    })

pub add_other :
    (k now f : ℕ) (q : TimerQueue)
    → f ≢ self
    → has_room q ≡ true
    → Owns k q
    → Owns k (add_timer now f q).0
add_other k now f q ne room h = add_marked k now f q room h.marked (λ e. absurd (ne (cc)))

pub add_other-IsAbsent :
    (now f : ℕ) (q : TimerQueue)
    → f ≢ self
    → has_room q ≡ true
    → IsAbsent q.dq
    → IsAbsent (add_timer now f q).0.dq
add_other-IsAbsent now f q ne room h =
    let (placed, key, narrow) = add_timer_lem now f q room in
    subst (λ (r : TimerQueue). IsAbsent r.dq) (sym placed)
      (All-append (λ (t : Timer). t.1 ≢ some self) q.dq ((now, some f) ∷ []) h ((λ e. ne (cc)), tt))

pub add_self :
    (now : ℕ) (q : TimerQueue)
    → has_room q ≡ true
    → IsAbsent q.dq
    → Owns (add_timer now self q).1 (add_timer now self q).0
add_self now q room h =
    let (placed, key, narrow) = add_timer_lem now self q room in
    add_marked (add_timer now self q).1 now self q room (IsAbsent-of_IsMarked _ q.step q.dq h)
      (λ e. sym key)

-- What `process` leaves of the ring.
process_from-IsMarked :
    (k i now : ℕ) (dq : List Timer)
    → IsMarked k i dq
    → IsMarked k (i + (process_from now dq).1) (process_from now dq).0
      × (length dq ≡ (process_from now dq).1 + length (process_from now dq).0)
unfolding process_from
process_from-IsMarked k i now [] h = (tt, omega arith)
process_from-IsMarked k i now ((started, f) ∷ dq) (h, hs) =
    let (m, n) = process_from-IsMarked k (suc i) now dq hs in
    elim (Bool-cases (ltb (now - started) five_seconds)) [
      | inl e ↦
          rw e (subst (λ j. IsMarked k j ((started, f) ∷ dq)) (omega arith) (h, hs), omega arith)
      | inr e ↦
          rw e (subst (λ j. IsMarked k j (process_from now dq).0) (omega arith) m, omega arith)
    ]

process_from-IsAbsent :
    (now : ℕ) (dq : List Timer)
    → IsAbsent dq
    → IsAbsent (process_from now dq).0 × (any (λ f. f == self) (process_from now dq).2 ≡ false)
unfolding process_from
process_from-IsAbsent now [] h = (tt, refl)
process_from-IsAbsent now ((started, f) ∷ dq) (h, hs) =
    let (m, n) = process_from-IsAbsent now dq hs in
    elim (Bool-cases (ltb (now - started) five_seconds)) [
      | inl e ↦ rw e ((h, hs), refl)
      | inr e ↦ rw e (m, uncalled f (process_from now dq).2 h n)
    ]
  where
    uncalled :
        (f : Option ℕ) (fs : List ℕ)
        → f ≢ some self
        → any (λ f. f == self) fs ≡ false
        → any (λ f. f == self) (call f ++ fs) ≡ false
    uncalled none fs h n = n
    uncalled (some g) fs h n = elim (Bool-cases (g == self)) [
      | inl e ↦ absurd (h (ap some ((==_iff g self).0 e)))
      | inr e ↦ rw e n
    ]

pub process-Owns : (k now : ℕ) (q : TimerQueue) → Owns k q → Owns k (process now q).0
unfolding process
process-Owns k now q h =
    let (m, n) = process_from-IsMarked k q.step now q.dq h.marked in
    let narrow = h.narrow in
    let count : (q.step + (process_from now q.dq).1) % 2 ^ 64 ≡ q.step + (process_from now q.dq).1 =
      omega arith in
    record {
      narrow = omega arith;
      marked = subst (λ j. IsMarked k j (process_from now q.dq).0) (sym count) m;
    }

pub process-IsAbsent :
    (now : ℕ) (q : TimerQueue)
    → IsAbsent q.dq
    → IsAbsent (process now q).0.dq × (any (λ f. f == self) (process now q).1 ≡ false)
unfolding process
process-IsAbsent now q h = process_from-IsAbsent now q.dq h
