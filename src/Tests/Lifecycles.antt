-- ===== src/Tests/Lifecycles.antt =====
-- The life of a connection, event by event.
use bmcweb.Prelude.{replicate, none, ◌≡◌, ◌⊎◌, refl, true, false, [], arith}
use bmcweb.TimerQueue.{TimerQueue, cancel, push_back, add_timer, process, process_from}
use bmcweb.Connection.Lifecycle.{
  later, ticked, tick, ended, Lifecycle, IsAbsent, start, at_once, others_add, shaken, header, body,
  wrote, step, Reach, started, stepped,
}
use bmcweb.Connection.Lifecycle.Forms.{HasPhase}
use bmcweb.Connection.Lifecycle.Phases.{Reach-HasPhase}
use bmcweb.Connection.Lifecycle.Safety.{
  callbacks, deleted_once, never_stuck, served_without_deadline,
}

abbrev no_timers : TimerQueue
no_timers = record { dq = []; step = 0 }

-- A connection by TLS that has read a request, while another connection came.
abbrev has_read : Lifecycle
has_read =
    step (header false false) (step (others_add 7 1) (step (shaken false) (start true 5 no_timers)))

reads : Reach has_read
unfolding step start
reads = stepped (header false false) refl (
    stepped (others_add 7 1) (omega arith)
      (stepped (shaken false) refl (started true 5 no_timers tt)))

-- It has answered, and waits for the next request.
abbrev kept_alive : Lifecycle
kept_alive = step (wrote false true) (step (body false at_once) has_read)

stays : Reach kept_alive
unfolding step start
stays = stepped (wrote false true) refl (stepped (body false at_once) refl reads)

-- The client goes.
abbrev left_alone : Lifecycle
left_alone = step (header true false) kept_alive

leaves : Reach left_alone
unfolding step start
leaves = stepped (header true false) refl stays

is_deleted : left_alone.deletions ≡ 1
unfolding step start
is_deleted = refl

Reach-HasPhase_example : HasPhase kept_alive
Reach-HasPhase_example = Reach-HasPhase stays

deleted_once_example :
    (left_alone.deletions ≡ 1)
    × (callbacks left_alone ≡ 0)
    × (left_alone.has_overflown ≡ true ⊎ IsAbsent left_alone.queue.dq)
deleted_once_example = deleted_once left_alone leaves (λ e. absurd (omega (arith, is_deleted)))

is_left : kept_alive.deletions ≡ 0
unfolding step start
is_left = refl

is_plain : kept_alive.is_upgraded ≡ false
unfolding step start
is_plain = refl

has_had_room : kept_alive.has_overflown ≡ false
unfolding step start cancel push_back add_timer
has_had_room = refl

never_stuck_example :
    (callbacks kept_alive ≡ 1) × (kept_alive.is_held ≡ false ⊎ kept_alive.is_open ≡ true)
never_stuck_example = never_stuck kept_alive stays has_had_room is_left is_plain

has_answered : kept_alive.has_served ≡ true
unfolding step start
has_answered = refl

served_without_deadline_example : IsAbsent kept_alive.queue.dq
served_without_deadline_example = served_without_deadline kept_alive stays has_had_room has_answered

-- A connection that starts with the ring full, while another one starts after it: the key of its
-- deadline is then that of the other's, so that the deadline is not cancelled when a handler keeps the
-- response, and closes the socket.
abbrev full_queue : TimerQueue
full_queue = record { dq = replicate 100 (0, none); step = 0 }

abbrev held_late : Lifecycle
held_late = step (ticked 6_000_000_000) (
    step (body false later)
      (step (header false false) (step (others_add 7 1) (start false 5 full_queue))))

held_late_test : (held_late.is_held ≡ true) × (held_late.is_open ≡ false)
unfolding step start tick cancel push_back add_timer process process_from
held_late_test = (refl, refl)

-- When the handler ends the response, nothing is written, nothing is under way, and nothing deletes the
-- connection.
abbrev lost : Lifecycle
lost = step ended held_late

lost_test : (lost.deletions ≡ 0) × (callbacks lost ≡ 0) × (lost.is_upgraded ≡ false)
unfolding step start tick cancel push_back add_timer process process_from
lost_test = (refl, refl, refl)
