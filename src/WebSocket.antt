-- ===== src/WebSocket.antt =====
-- The writing side of `ConnectionImpl` in http/websocket.h: messages queue up behind the one write
-- that may be under way. Beast's stream is not modelled but for what it is told: `handed` are the
-- messages given to `async_write`, each with the type, text or binary, that the stream was set to.
pub mod Fifo
pub mod Frames
use bmcweb.Prelude.{
  ℕ, zero, suc, Bool, true, false, List, [], ◌∷◌, ◌++◌, Bytes, drop, if◌then◌else◌,
}

pub record WebSocket : Type 0 where
  pub out_buffer : List Bytes
  pub doing_write : Bool
  pub is_binary : Bool
  pub handed : List (Bytes × Bool)
  -- whether `async_close` was called
  pub is_closing : Bool

abbrev pub fresh_socket : WebSocket
fresh_socket = record {
  out_buffer = [];
  doing_write = false;
  is_binary = false;
  handed = [];
  is_closing = false;
}

-- The write of `doWrite`, of the front of the queue.
abbrev pub write_front : List Bytes → WebSocket → WebSocket
write_front [] w = w
write_front (msg ∷ rest) w = record w {
  doing_write = true;
  handed = w.handed ++ ((msg, w.is_binary) ∷ []);
}

unfoldable pub do_write : WebSocket → WebSocket
do_write w = if w.doing_write then w else write_front w.out_buffer w

-- `sendBinary` and `sendText`
unfoldable pub send : Bool → Bytes → WebSocket → WebSocket
send is_binary msg w =
    do_write (record w { is_binary = is_binary; out_buffer = w.out_buffer ++ (msg ∷ []) })

-- `close`
abbrev pub close : WebSocket → WebSocket
close w = record w { is_closing = true }

-- What `async_write` reports: no error, that the peer has closed, or another error.
pub data WriteResult : Type 0 where
  ok closed failed : WriteResult

-- What the completion of a write does with the queue, before it looks at the error.
abbrev pub pop_front : WebSocket → WebSocket
pop_front w = record w { doing_write = false; out_buffer = drop 1 w.out_buffer }

unfoldable pub write_done : WriteResult → WebSocket → WebSocket
write_done ok w = do_write (pop_front w)
write_done closed w = close (pop_front w)
write_done failed w = pop_front w
