-- ===== src/TimerQueue.antt =====
-- http/timer_queue.h: timers of five seconds in a ring of 100 places. A callback is a number, `none`
-- where it is null; `process` gives the callbacks that it calls, in their order. A callback that itself adds or
-- cancels a timer is not followed.
pub mod Order
use bmcweb.Prelude.{
  ℕ, zero, suc, ◌+◌, ◌-◌, ◌*◌, ◌%◌, ◌^◌, Bool, true, false, Option, none, some, List, [], ◌∷◌, ◌++◌,
  length, drop, set, get_or, if◌then◌else◌, ◌==◌, leb, ltb,
}

-- `storage_type`
abbrev pub Timer : Type 0
Timer = ℕ × Option ℕ

pub record TimerQueue : Type 0 where
  pub dq : List Timer
  pub step : ℕ

abbrev pub capacity : ℕ
capacity = 100

abbrev pub five_seconds : ℕ
five_seconds = 5 * 1_000_000_000

-- `size_t` subtraction, of 64 bits
abbrev pub sub_size : ℕ → ℕ → ℕ
sub_size k step = (k + (2 ^ 64 - step)) % 2 ^ 64

unfoldable pub cancel : ℕ → TimerQueue → TimerQueue
cancel k q =
    let index = sub_size k q.step in
    if ltb index (length q.dq)
    then record q { dq = set q.dq index ((get_or q.dq index (0, none)).0, none) }
    else q

-- `dq.push_back`: a full ring drops its front.
unfoldable pub push_back : Timer → List Timer → List Timer
push_back t dq = if length dq == capacity then drop 1 dq ++ t ∷ [] else dq ++ t ∷ []

-- `add` with the time that the clock gives, and the key that it returns.
unfoldable pub add_timer : ℕ → ℕ → TimerQueue → TimerQueue × ℕ
add_timer now f q =
    let dq' = push_back (now, some f) q.dq in
    (record q { dq = dq' }, (q.step + length dq' - 1) % 2 ^ 64)

abbrev pub call : Option ℕ → List ℕ
call none = []
call (some f) = f ∷ []

-- The loop of `process`: the timers left, how many were taken, and the callbacks called.
unfoldable pub process_from : ℕ → List Timer → List Timer × ℕ × List ℕ
process_from now [] = ([], 0, [])
process_from now ((started, f) ∷ dq) =
    let rest = process_from now dq in
    if ltb (now - started) five_seconds
    then ((started, f) ∷ dq, 0, [])
    else (rest.0, suc rest.1, call f ++ rest.2)

unfoldable pub process : ℕ → TimerQueue → TimerQueue × List ℕ
process now q =
    let done = process_from now q.dq in
    (record { dq = done.0; step = (q.step + done.1) % 2 ^ 64 }, done.2)
