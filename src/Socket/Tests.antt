-- ===== src/Socket/Tests.antt =====
-- A client's socket whose packages begin with their length, and an example for its theorem.
use friend_serv.Base.{
  ℕ, refl, true, false, List, [], ◌∷◌, ◌++◌, none, some, arith, take, min, length, ◌-◌,
}
use friend_serv.TcpClient.{moved}
use friend_serv.Channel.Samples.{quiet, quiet-Carries}
use friend_serv.Linker.{Linker}
use friend_serv.Linker.Packets.{Cuts}
use friend_serv.Linker.Worlds.{Keeps}
use friend_serv.Socket.{Socket, Queues, Gate, read_stream}
use friend_serv.Socket.Feeds.{Owe, handle_input_feeds}

abbrev first_byte : List ℕ → ℕ
first_byte [] = 0
first_byte (b ∷ bs) = b

abbrev gate : Gate
gate = record {
  pkg_len = first_byte;
  max_pkg_len = 9;
  select_channel = some (λ pkg. 0);
  shmq_pushed = none;
  realloc = λ k. true;
}

abbrev link : Linker
link = record { buffers = []; send_pos = 0; is_closed = false; pool = 9; wire = [] }

-- Half of a package of 4 bytes is there.
abbrev half : Socket
half = record { fd = 7; id = 300; ip = 1; bytes = 4 ∷ 65 ∷ []; size = 4096; link = link }

-- The other half, a package of 2 bytes, and the length of a third.
abbrev rest : List ℕ
rest = 66 ∷ 67 ∷ 2 ∷ 68 ∷ 5 ∷ []

abbrev one_channel : Queues
one_channel = record { random_channel = 0; channels = quiet ∷ [] }

handle_input_feeds_example :
    let got = read_stream (λ k. true) gate (moved 5) rest half one_channel in
    Cuts (half.bytes ++ take (min 5 (half.size - length half.bytes)) rest) got
    × Keeps (Owe 40 half ([] ∷ [])) got
handle_input_feeds_example =
    handle_input_feeds 40 (omega arith) (λ k. true) gate (omega arith) half (omega arith)
      (omega arith) ([] ∷ []) 5 rest one_channel refl (omega arith) (quiet-Carries, tt)
