-- ===== src/WebSocket/Fifo.antt =====
-- The queue of http/websocket.h against a list of messages: what was sent is what was handed over and
-- what waits.
use bmcweb.Prelude.{
  ◌≡◌, refl, sym, ap, ◌∙◌, Bool, true, false, List, [], ◌∷◌, ◌++◌, append_assoc, Bytes, drop,
  if◌then◌else◌,
}
use bmcweb.WebSocket.{
  WebSocket, fresh_socket, do_write, send, close, WriteResult, ok, closed, failed, pop_front,
  write_done,
}

-- The sockets that a program and its network can bring about, with all the messages sent by then: a
-- call of the program, or the end of the write under way.
pub data Reach : List Bytes → WebSocket → Type 0 where
  fresh : Reach [] fresh_socket
  sends :
      {sent : List Bytes} {w : WebSocket} (is_binary : Bool) (msg : Bytes)
      → Reach sent w
      → Reach (sent ++ (msg ∷ [])) (send is_binary msg w)
  completes :
      {sent : List Bytes} {w : WebSocket} (r : WriteResult)
      → w.doing_write ≡ true
      → Reach sent w
      → Reach sent (write_done r w)
  closes : {sent : List Bytes} {w : WebSocket} → Reach sent w → Reach sent (close w)

abbrev pub texts : List (Bytes × Bool) → List Bytes
texts [] = []
texts ((msg, is_binary) ∷ ms) = msg ∷ texts ms

texts-append : (ms ns : List (Bytes × Bool)) → texts (ms ++ ns) ≡ texts ms ++ texts ns
texts-append [] ns = refl
texts-append ((msg, is_binary) ∷ ms) ns = ap (◌∷◌ msg) (texts-append ms ns)

-- The message under way is the front of the buffer, and has been handed over.
abbrev pub waiting : WebSocket → List Bytes
waiting w = if w.doing_write then drop 1 w.out_buffer else w.out_buffer

abbrev pub HasFront : Bool → List Bytes → Type 0
HasFront true [] = ⊥
HasFront true (msg ∷ rest) = Unit
HasFront false buffer = Unit

pub record IsFifo (sent : List Bytes) (w : WebSocket) : Type 0 where
  pub in_order : texts w.handed ++ waiting w ≡ sent
  pub front : HasFront w.doing_write w.out_buffer

socket : List Bytes → Bool → Bool → List (Bytes × Bool) → Bool → WebSocket
socket buffer writing is_binary handed is_closing = record {
  out_buffer = buffer;
  doing_write = writing;
  is_binary = is_binary;
  handed = handed;
  is_closing = is_closing;
}

-- `doWrite` hands the front over where no write is under way.
do_write_fields :
    (buffer : List Bytes) (writing is_binary : Bool) (handed : List (Bytes × Bool))
    (is_closing : Bool) (sent : List Bytes)
    → IsFifo sent (socket buffer writing is_binary handed is_closing)
    → IsFifo sent (do_write (socket buffer writing is_binary handed is_closing))
unfolding do_write socket
do_write_fields buffer true is_binary handed is_closing sent h = h
do_write_fields [] false is_binary handed is_closing sent h = h
do_write_fields (msg ∷ rest) false is_binary handed is_closing sent h = record {
  in_order =
      ap (λ ms. ms ++ rest) (texts-append handed ((msg, is_binary) ∷ []))
      ∙ append_assoc (texts handed) (msg ∷ []) rest
      ∙ h.in_order;
  front = tt;
}

do_write-IsFifo : (w : WebSocket) (sent : List Bytes) → IsFifo sent w → IsFifo sent (do_write w)
unfolding socket
do_write-IsFifo w sent h =
    do_write_fields w.out_buffer w.doing_write w.is_binary w.handed w.is_closing sent h

queue_fields :
    (buffer : List Bytes) (writing is_binary mode : Bool) (handed : List (Bytes × Bool))
    (is_closing : Bool) (sent : List Bytes) (msg : Bytes)
    → IsFifo sent (socket buffer writing is_binary handed is_closing)
    → IsFifo (sent ++ (msg ∷ [])) (socket (buffer ++ (msg ∷ [])) writing mode handed is_closing)
unfolding socket
queue_fields [] true is_binary mode handed is_closing sent msg h = absurd h.front
queue_fields (b ∷ rest) true is_binary mode handed is_closing sent msg h = record {
  in_order =
      sym (append_assoc (texts handed) rest (msg ∷ [])) ∙ ap (λ ms. ms ++ (msg ∷ [])) h.in_order;
  front = tt;
}
queue_fields buffer false is_binary mode handed is_closing sent msg h = record {
  in_order =
      sym (append_assoc (texts handed) buffer (msg ∷ [])) ∙ ap (λ ms. ms ++ (msg ∷ [])) h.in_order;
  front = tt;
}

pop_fields :
    (buffer : List Bytes) (writing is_binary : Bool) (handed : List (Bytes × Bool))
    (is_closing to_close : Bool) (sent : List Bytes)
    → writing ≡ true
    → IsFifo sent (socket buffer writing is_binary handed is_closing)
    → IsFifo sent (socket (drop 1 buffer) false is_binary handed to_close)
unfolding socket
pop_fields buffer false is_binary handed is_closing to_close sent e h = absurd (cc)
pop_fields [] true is_binary handed is_closing to_close sent e h = absurd h.front
pop_fields (msg ∷ rest) true is_binary handed is_closing to_close sent e h = record {
  in_order = h.in_order;
  front = tt;
}

write_done-IsFifo :
    (r : WriteResult) (w : WebSocket) (sent : List Bytes)
    → w.doing_write ≡ true
    → IsFifo sent w
    → IsFifo sent (write_done r w)
unfolding write_done socket
write_done-IsFifo ok w sent e h =
    do_write-IsFifo (pop_front w) sent (
      pop_fields w.out_buffer w.doing_write w.is_binary w.handed w.is_closing w.is_closing sent e h)
write_done-IsFifo closed w sent e h =
    pop_fields w.out_buffer w.doing_write w.is_binary w.handed w.is_closing true sent e h
write_done-IsFifo failed w sent e h =
    pop_fields w.out_buffer w.doing_write w.is_binary w.handed w.is_closing w.is_closing sent e h

send-IsFifo :
    (is_binary : Bool) (msg : Bytes) (w : WebSocket) (sent : List Bytes)
    → IsFifo sent w
    → IsFifo (sent ++ (msg ∷ [])) (send is_binary msg w)
unfolding send socket
send-IsFifo is_binary msg w sent h =
    do_write-IsFifo (record w { is_binary = is_binary; out_buffer = w.out_buffer ++ (msg ∷ []) })
      (sent ++ (msg ∷ []))
      (queue_fields w.out_buffer w.doing_write w.is_binary is_binary w.handed w.is_closing sent msg
        h)

-- However sends and the ends of writes follow each other, errors included: the messages handed to
-- the stream, followed by those that wait, are all the messages sent, in the order in which they
-- were sent; and while a write is under way, its message is the front of the buffer.
pub Reach-IsFifo : {sent : List Bytes} {w : WebSocket} → Reach sent w → IsFifo sent w
Reach-IsFifo fresh = record { in_order = refl; front = tt }
Reach-IsFifo (sends is_binary msg r) = send-IsFifo is_binary msg _ _ (Reach-IsFifo r)
Reach-IsFifo (completes r e before) = write_done-IsFifo r _ _ e (Reach-IsFifo before)
Reach-IsFifo (closes before) =
    let h = Reach-IsFifo before in record { in_order = h.in_order; front = h.front }
