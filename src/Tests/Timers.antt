-- ===== src/Tests/Timers.antt =====
-- The timer queue at small inputs.
use bmcweb.Prelude.{◌≡◌, refl, none, some, [], ◌∷◌, ◌++◌, replicate, arith, drop}
use bmcweb.TimerQueue.{TimerQueue, cancel, add_timer, process, process_from}
use bmcweb.TimerQueue.Order.{cancel-add_timer, add_timer_full}

-- One timer is due after five seconds, the other is not.
abbrev two_timers : TimerQueue
two_timers = record { dq = (0, some 7) ∷ (9, some 8) ∷ []; step = 3 }

abbrev full_queue : TimerQueue
full_queue = record { dq = replicate 100 (0, none); step = 0 }

fires : (process 5_000_000_001 two_timers).1 ≡ 7 ∷ []
unfolding process process_from
fires = refl

next_step : (process 5_000_000_001 two_timers).0.step ≡ 4
unfolding process process_from
next_step = refl

cancel-add_timer_example :
    (cancel (add_timer 20 9 two_timers).1 (add_timer 20 9 two_timers).0).dq
    ≡ two_timers.dq ++ (20, none) ∷ []
cancel-add_timer_example = cancel-add_timer 20 9 two_timers (omega arith) (omega arith)

add_timer_full_example :
    let (first, key) = add_timer 20 9 full_queue in
    let (second, next_key) = add_timer 21 8 first in
    (next_key ≡ key)
    × ((cancel key second).dq ≡ (drop 2 full_queue.dq ++ (20, some 9) ∷ []) ++ (21, none) ∷ [])
add_timer_full_example = add_timer_full 20 21 9 8 full_queue refl (omega arith)
