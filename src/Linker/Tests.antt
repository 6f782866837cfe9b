-- ===== src/Linker/Tests.antt =====
-- Runs of a link, and examples for its theorems.
use friend_serv.Base.{ℕ, ◌≡◌, refl, true, false, some, List, [], ◌∷◌, get_or, arith}
use friend_serv.TcpClient.{moved, again}
use friend_serv.Linker.{Linker, send_pkg, spread, output_loop, behind}
use friend_serv.Linker.Sends.{IsOrdered, AllOf}
use friend_serv.Linker.Order.{Call, sending, writable, run, run-IsOrdered}
use friend_serv.Linker.Supply.{send_pkg_keeps}
use friend_serv.Linker.Input.{Receiver, Plugin, up, handle_input, read}
use friend_serv.Linker.Packets.{Cuts, handle_input-Cuts}

abbrev fresh : Linker
fresh = record { buffers = []; send_pos = 0; is_closed = false; pool = 4; wire = [] }

-- A package taken in part, one behind it, and the rest of both but a byte.
abbrev calls : List Call
calls =
    sending (moved 2) (1 ∷ 2 ∷ 3 ∷ [])
    ∷ sending (moved 9) (4 ∷ 5 ∷ [])
    ∷ writable (moved 1 ∷ moved 1 ∷ again ∷ [])
    ∷ []

runs :
    run calls fresh
    ≡ some (record {
      buffers = (3 ∷ 4 ∷ 5 ∷ []) ∷ [];
      send_pos = 2;
      is_closed = false;
      pool = 3;
      wire = 1 ∷ 2 ∷ 3 ∷ 4 ∷ [];
    })
unfolding send_pkg spread output_loop behind
runs = refl

run-IsOrdered_example : AllOf (IsOrdered (1 ∷ 2 ∷ 3 ∷ 4 ∷ 5 ∷ [])) (run calls fresh)
run-IsOrdered_example = run-IsOrdered calls fresh [] (refl, refl)

-- A package starts with its length in one byte.
abbrev by_first : Plugin Unit
by_first = record {
  pkg_len = λ bytes. get_or bytes 0 0;
  max_pkg_len = 9;
  realloc = λ n. true;
  deliver = λ pkg w. (true, w);
}

abbrev empty_receiver : Receiver Unit
empty_receiver = record { bytes = []; size = 8; packages = []; world = tt }

-- Two packages and the front of a third.
abbrev sent : List ℕ
sent = 2 ∷ 5 ∷ 3 ∷ 6 ∷ 7 ∷ 4 ∷ []

cuts :
    handle_input by_first (moved 6) false sent empty_receiver
    ≡ up (record {
      bytes = 4 ∷ [];
      size = 8;
      packages = (2 ∷ 5 ∷ []) ∷ (3 ∷ 6 ∷ 7 ∷ []) ∷ [];
      world = tt;
    })
unfolding handle_input read
cuts = refl

handle_input-Cuts_example : Cuts sent (handle_input by_first (moved 6) false sent empty_receiver)
handle_input-Cuts_example = handle_input-Cuts by_first 6 sent [] empty_receiver (refl, omega arith)

send_pkg_keeps_example : (l : Linker) × (send_pkg (moved 2) (1 ∷ 2 ∷ 3 ∷ []) fresh ≡ some l)
send_pkg_keeps_example =
    send_pkg_keeps fresh (moved 2) (1 ∷ 2 ∷ 3 ∷ []) refl (omega arith) (omega arith)
