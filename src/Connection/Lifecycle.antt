-- ===== src/Connection/Lifecycle.antt =====
-- The asynchronous life of `Connection` in http/http_connection.h: its flags, the operations under way
-- that call it back, the timer queue that it shares with the other connections, and where it deletes
-- itself. What the operations report is an event; what `handle` does with a request is `Answer` here,
-- and `Connection.handle` in the parent.
pub mod Timers
pub mod Forms
pub mod Phases
pub mod Safety
use bmcweb.Prelude.{
  ℕ, zero, suc, ◌+◌, ◌^◌, ◌<◌, ◌≡◌, ◌≢◌, Bool, true, false, not, ◌&&◌, ◌||◌, Option, some, List, [],
  ◌∷◌, if◌then◌else◌, any, length, ltb, ◌==◌, All,
}
use bmcweb.TimerQueue.{Timer, TimerQueue, capacity, cancel, add_timer, process}

-- An operation whose callback holds the connection.
pub data Operation : Type 0 where
  handshake read_header read_body write : Operation

pub record Lifecycle : Type 0 where
  pub is_reading : Bool
  pub is_writing : Bool
  -- what `isAlive` tells
  pub is_open : Bool
  pub under_way : List Operation
  -- a handler holds the response, to end it later
  pub is_held : Bool
  -- `timerCancelKey`, and `timerQueue` with the timers of all connections
  pub timer_key : ℕ
  pub queue : TimerQueue
  -- since the connection started, a timer was added where the ring, or the width of its keys, had no
  -- room for it
  pub has_overflown : Bool
  -- the request went to the router as an upgrade, to a WebSocket
  pub is_upgraded : Bool
  -- a request has reached `handle`
  pub has_served : Bool
  pub deletions : ℕ

-- The connection's callback, among the numbers that stand for those of all connections
abbrev pub self : ℕ
self = 0

abbrev pub accepted : TimerQueue → Lifecycle
accepted q = record {
  is_reading = false;
  is_writing = false;
  is_open = true;
  under_way = [];
  is_held = false;
  timer_key = 0;
  queue = q;
  has_overflown = false;
  is_upgraded = false;
  has_served = false;
  deletions = 0;
}

abbrev pub cancel_deadline_timer : Lifecycle → Lifecycle
cancel_deadline_timer c = record c { queue = cancel c.timer_key c.queue }

-- The ring takes one more timer without dropping one, and its keys do not wrap.
abbrev pub has_room : TimerQueue → Bool
has_room q = ltb (length q.dq) capacity && ltb (q.step + capacity) (2 ^ 64)

-- `timerQueue.add` with the callback of some connection
abbrev pub add_to_queue : ℕ → ℕ → Lifecycle → Lifecycle × ℕ
add_to_queue now f c =
    let (q, key) = add_timer now f c.queue in
    (record c { queue = q; has_overflown = c.has_overflown || not (has_room c.queue) }, key)

-- `startDeadline`, at the time `now`
abbrev pub start_deadline : ℕ → Lifecycle → Lifecycle
start_deadline now c =
    let (c', key) = add_to_queue now self (cancel_deadline_timer c) in record c' { timer_key = key }

abbrev pub do_read_headers : Lifecycle → Lifecycle
do_read_headers c = record c { is_reading = true; under_way = read_header ∷ c.under_way }

abbrev pub do_read : Lifecycle → Lifecycle
do_read c = record c { is_reading = true; under_way = read_body ∷ c.under_way }

abbrev pub do_write : Lifecycle → Lifecycle
do_write c = record c { is_writing = true; under_way = write ∷ c.under_way }

abbrev pub close : Lifecycle → Lifecycle
close c = record c { is_open = false }

-- `delete this`; the destructor cancels under the key that the connection has.
abbrev pub delete : Lifecycle → Lifecycle
delete c = record (cancel_deadline_timer c) { deletions = suc c.deletions }

abbrev pub check_destroy : Lifecycle → Lifecycle
check_destroy c = if not c.is_reading && not c.is_writing then delete c else c

unfoldable pub start : Bool → ℕ → TimerQueue → Lifecycle
start is_tls now q =
    let c = start_deadline now (accepted q) in
    if is_tls then record c { under_way = handshake ∷ c.under_way } else do_read_headers c

-- What `handle` does with the request: it ends the response, a handler keeps it, or it goes
-- to `Router::handleUpgrade`, where a rule takes the socket or none does.
pub data Answer : Type 0 where
  at_once later : Answer
  upgrade : Bool → Answer

-- `completeRequest`, as far as it concerns the connection
abbrev pub complete_request : Lifecycle → Lifecycle
complete_request c = if c.is_open then do_write c else c

abbrev pub handle : Answer → Lifecycle → Lifecycle
handle at_once c = complete_request (record (cancel_deadline_timer c) { has_served = true })
handle later c = record (cancel_deadline_timer c) { has_served = true; is_held = true }
handle (upgrade is_taken) c = record (cancel_deadline_timer c) {
  has_served = true;
  is_upgraded = true;
  is_open = if is_taken then false else c.is_open;
}

abbrev pub fail_read : Lifecycle → Lifecycle
fail_read c = check_destroy (close (cancel_deadline_timer c))

-- The end of each operation, by whether it reports an error.
abbrev pub handshake_done : Bool → Lifecycle → Lifecycle
handshake_done failed c = if failed then check_destroy c else do_read_headers c

abbrev pub header_read : Bool → Bool → Lifecycle → Lifecycle
header_read failed asks_upgrade c =
    let idle = record c { is_reading = false } in
    if failed || not c.is_open && not asks_upgrade then fail_read idle else do_read idle

abbrev pub body_read : Bool → Answer → Lifecycle → Lifecycle
body_read failed answer c =
    let idle = record c { is_reading = false } in
    if failed || not c.is_open then fail_read idle else handle answer idle

abbrev pub written : Bool → Bool → Lifecycle → Lifecycle
written failed keep_alive c =
    let idle = record c { is_writing = false } in
    if failed
    then check_destroy idle
    else if not keep_alive
    then check_destroy (close idle)
    else do_read_headers idle

pub data Event : Type 0 where
  shaken : Bool → Event
  header : Bool → Bool → Event
  body : Bool → Answer → Event
  -- a handler ends the response that it kept
  ended : Event
  wrote : Bool → Bool → Event
  -- `process` of the timer queue, at a time
  ticked : ℕ → Event
  -- another connection adds a timer or cancels under a key, its own or one that is no longer its own
  others_add : ℕ → ℕ → Event
  others_cancel : ℕ → Event

-- The operation at whose end the event occurs is no longer under way.
abbrev pub finish : Lifecycle → Lifecycle
finish c = record c { under_way = [] }

-- The callback of the deadline: a socket that is closed stays so.
abbrev pub deadline_expired : Bool → Lifecycle → Lifecycle
deadline_expired is_called c = if is_called then close c else c

unfoldable pub tick : ℕ → Lifecycle → Lifecycle
tick now c =
    let (q, called) = process now c.queue in
    deadline_expired (any (λ f. f == self) called) (record c { queue = q })

unfoldable pub step : Event → Lifecycle → Lifecycle
unfolding tick
step (shaken failed) c = handshake_done failed (finish c)
step (header failed asks_upgrade) c = header_read failed asks_upgrade (finish c)
step (body failed answer) c = body_read failed answer (finish c)
step ended c = complete_request (record c { is_held = false })
step (wrote failed keep_alive) c = written failed keep_alive (finish c)
step (ticked now) c = tick now c
step (others_add now f) c = (add_to_queue now f c).0
step (others_cancel key) c = record c { queue = cancel key c.queue }

-- When an event can occur.
abbrev pub Enabled : Event → Lifecycle → Type 0
Enabled (shaken failed) c = c.under_way ≡ handshake ∷ []
Enabled (header failed asks_upgrade) c = c.under_way ≡ read_header ∷ []
Enabled (body failed answer) c = c.under_way ≡ read_body ∷ []
Enabled ended c = c.is_held ≡ true
Enabled (wrote failed keep_alive) c = c.under_way ≡ write ∷ []
Enabled (ticked now) c = Unit
Enabled (others_add now f) c = f ≢ self
Enabled (others_cancel key) c = Unit

-- No timer of the list is the connection's.
abbrev pub IsAbsent : List Timer → Type 0
IsAbsent dq = All (λ (t : Timer). t.1 ≢ some self) dq

-- The states that a connection, with or without TLS, can come to. Before it starts, the queue has no
-- timer of it.
pub data Reach : Lifecycle → Type 0 where
  started : (is_tls : Bool) (now : ℕ) (q : TimerQueue) → IsAbsent q.dq → Reach (start is_tls now q)
  stepped : {c : Lifecycle} (e : Event) → Enabled e c → Reach c → Reach (step e c)
