-- ===== src/WebSocket/Frames.antt =====
-- How the queue of http/websocket.h drains, and which frames its messages leave in.
use bmcweb.Prelude.{
  ℕ, zero, suc, ◌≡◌, ◌≢◌, refl, sym, ap, ◌∙◌, Bool, true, false, List, [], ◌∷◌, ◌++◌, append-nil,
  Bytes, length, drop, arith,
}
use bmcweb.WebSocket.{WebSocket, do_write, send, ok, pop_front, write_done}
use bmcweb.WebSocket.Fifo.{Reach, completes, texts, HasFront, Reach-IsFifo}

-- The end of `n` writes without an error, one after the other.
abbrev pub completes_times : ℕ → WebSocket → WebSocket
completes_times zero w = w
completes_times (suc n) w = completes_times n (write_done ok w)

-- A write is under way exactly while there is something in the buffer.
abbrev pub IsBusy : Bool → List Bytes → Type 0
IsBusy writing [] = writing ≡ false
IsBusy writing (msg ∷ rest) = writing ≡ true

next-IsBusy :
    (w : WebSocket)
    → IsBusy (write_done ok w).doing_write (write_done ok w).out_buffer
      × ((write_done ok w).out_buffer ≡ drop 1 w.out_buffer)
unfolding write_done do_write
next-IsBusy w = by_rest (drop 1 w.out_buffer) refl
  where
    by_rest :
        (rest : List Bytes)
        → drop 1 w.out_buffer ≡ rest
        → IsBusy (do_write (pop_front w)).doing_write (do_write (pop_front w)).out_buffer
          × ((do_write (pop_front w)).out_buffer ≡ drop 1 w.out_buffer)
    by_rest [] e = rw e (refl, refl)
    by_rest (msg ∷ rest) e = rw e (refl, refl)

busy_empty :
    (writing : Bool) (buffer : List Bytes)
    → length buffer ≡ 0
    → IsBusy writing buffer
    → (buffer ≡ []) × (writing ≡ false)
busy_empty writing [] e b = (refl, b)
busy_empty writing (msg ∷ rest) e b = absurd (cc)

busy_front :
    (writing : Bool) (buffer : List Bytes) (n : ℕ)
    → length buffer ≡ suc n
    → IsBusy writing buffer
    → (writing ≡ true) × (length (drop 1 buffer) ≡ n)
busy_front writing [] n e b = absurd (cc)
busy_front writing (msg ∷ rest) n e b = (b, omega arith)

front-IsBusy :
    (writing : Bool) (buffer : List Bytes)
    → writing ≡ true
    → length buffer ≢ 0
    → IsBusy writing buffer
front-IsBusy writing [] e h = absurd (h refl)
front-IsBusy writing (msg ∷ rest) e h = e

drained :
    (n : ℕ) (sent : List Bytes) (w : WebSocket)
    → length w.out_buffer ≡ n
    → IsBusy w.doing_write w.out_buffer
    → Reach sent w
    → Reach sent (completes_times n w)
      × ((completes_times n w).out_buffer ≡ [])
      × ((completes_times n w).doing_write ≡ false)
drained zero sent w e b r =
    let (empty, idle) = busy_empty w.doing_write w.out_buffer e b in (r, empty, idle)
drained (suc n) sent w e b r =
    let (writing, shorter) = busy_front w.doing_write w.out_buffer n e b in
    let (busy, left) = next-IsBusy w in
    drained n sent (write_done ok w) (ap length left ∙ shorter) busy (completes ok writing r)

not_empty :
    (writing : Bool) (buffer : List Bytes)
    → writing ≡ true
    → HasFront writing buffer
    → length buffer ≢ 0
not_empty true [] e h z = absurd h
not_empty false [] e h z = cc
not_empty writing (msg ∷ rest) e h z = cc

-- Whatever was sent is handed over in the end: once a write is under way and the writes succeed, as
-- many of them as there are messages in the buffer hand over every message sent, in its order, and
-- leave the buffer empty.
pub handed-completes_times :
    (sent : List Bytes) (w : WebSocket)
    → Reach sent w
    → w.doing_write ≡ true
    → (texts (completes_times (length w.out_buffer) w).handed ≡ sent)
      × ((completes_times (length w.out_buffer) w).out_buffer ≡ [])
handed-completes_times sent w r e =
    let (reached, empty, idle) =
      drained (length w.out_buffer) sent w refl
        (front-IsBusy w.doing_write w.out_buffer e
          (not_empty w.doing_write w.out_buffer e (Reach-IsFifo r).front))
        r in
    let order = (Reach-IsFifo reached).in_order in
    (sym (append-nil _) ∙ (rw (idle, empty) at order), empty)

-- The type of a frame is set on the stream when a message is sent, not when it is written: a text that
-- waits leaves as binary data if binary data is sent behind it.
pub handed-send :
    (w : WebSocket) (front msg note : Bytes)
    → w.doing_write ≡ true
    → w.out_buffer ≡ front ∷ []
    → (write_done ok (send true note (send false msg w))).handed ≡ w.handed ++ ((msg, true) ∷ [])
unfolding write_done send do_write
handed-send w front msg note e f = rw (e, f) refl
