-- ===== src/Conn/Tests.antt =====
-- A connection of async-server and an answer for it, which waits in the ring.
use friend_serv.Base.{ℕ, ◌≡◌, refl, true, false, [], ◌∷◌, none, some, arith}
use friend_serv.TcpClient.{Event, moved}
use friend_serv.Shmq.Fifo.{Holds}
use friend_serv.Channel.{Channel}
use friend_serv.Channel.Samples.{note, bytes, quiet, waiting, waiting-Holds}
use friend_serv.Linker.{Linker}
use friend_serv.Socket.{Socket}
use friend_serv.Conn.{Conns, set_handler, handle_input}
use friend_serv.Conn.Seats.{Seat, seat, obey_all, addressed}
use friend_serv.Conn.Answers.{handle_input_answers}

abbrev net : ℕ → ℕ → Event
net fd k = moved 1

abbrev link : Linker
link = record { buffers = []; send_pos = 0; is_closed = false; pool = 9; wire = [] }

abbrev client : Socket
client = record { fd = 7; id = 300; ip = 1; bytes = []; size = 4096; link = link }

abbrev conns : Conns
conns = record {
  reactor = record {
    size = 16;
    handlers = set_handler 7 (some client) (λ fd. none);
    last_id = 300;
  };
  turns = λ fd. 0;
  channels = quiet ∷ [];
}

-- The socket took one byte of the answer, and the other waits in a buffer.
abbrev answered : Seat
answered = (
  some (record client {
    link = record {
      buffers = (66 ∷ []) ∷ [];
      send_pos = 0;
      is_closed = false;
      pool = 8;
      wire = 65 ∷ [];
    };
  }),
  1,
)

obeyed :
    obey_all (λ k. true) (net 7) (addressed 7 300 ((note, bytes) ∷ [])) (some client, 0) ≡ answered
unfolding friend_serv.Linker.send_pkg friend_serv.Linker.spread
obeyed = refl

handle_input_answers_example :
    (c' : Channel) × (w' : Conns) × (handle_input (λ k. true) net (λ k. true) waiting conns
      ≡ some (c', w'))
    × Holds c'.queue []
    × (seat 7 w'
        ≡ obey_all (λ k. true) (net 7) (addressed 7 300 ((note, bytes) ∷ [])) (some client, 0))
handle_input_answers_example =
    handle_input_answers (λ k. true) net (λ k. true) ((note, bytes) ∷ []) waiting conns 7 client
      (λ k. refl) waiting-Holds refl (omega arith) (omega arith)
