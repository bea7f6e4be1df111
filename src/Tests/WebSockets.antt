-- ===== src/Tests/WebSockets.antt =====
-- The WebSocket's queue at small inputs.
use bmcweb.Prelude.{◌≡◌, refl, true, false, List, Bytes, [], ◌∷◌, codes, length}
use bmcweb.WebSocket.{WebSocket, fresh_socket, do_write, send, ok, closed, write_done}
use bmcweb.WebSocket.Fifo.{Reach, fresh, sends, completes, texts, IsFifo, Reach-IsFifo}
use bmcweb.WebSocket.Frames.{completes_times, handed-completes_times}

-- Two texts, of which the first is under way.
abbrev two_texts : WebSocket
two_texts = send false (codes "b") (send false (codes "a") fresh_socket)

abbrev both : List Bytes
both = codes "a" ∷ codes "b" ∷ []

two_texts-Reach : Reach both two_texts
two_texts-Reach = sends false (codes "b") (sends false (codes "a") fresh)

is_writing : two_texts.doing_write ≡ true
unfolding send do_write
is_writing = refl

keeps_rest_on_close : (write_done closed two_texts).out_buffer ≡ codes "b" ∷ []
unfolding write_done send do_write
keeps_rest_on_close = refl

Reach-IsFifo_example : IsFifo both (write_done ok two_texts)
Reach-IsFifo_example = Reach-IsFifo (completes ok is_writing two_texts-Reach)

handed-completes_times_example :
    (texts (completes_times (length two_texts.out_buffer) two_texts).handed ≡ both)
    × ((completes_times (length two_texts.out_buffer) two_texts).out_buffer ≡ [])
handed-completes_times_example = handed-completes_times both two_texts two_texts-Reach is_writing
