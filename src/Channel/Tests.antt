-- ===== src/Channel/Tests.antt =====
-- Runs of a channel of shmq.cpp, and its theorems at a ring of 40 bytes.
use friend_serv.Base.{ℕ, ◌≡◌, refl, ◌⊎◌, false, List, [], ◌∷◌, ◌++◌, arith, length, ◌+◌, ◌<◌, ◌≤◌}
use friend_serv.Shmq.{Block}
use friend_serv.Shmq.Memory.{window}
use friend_serv.Shmq.Fifo.{Item, IsItem, wires}
use friend_serv.Channel.{Channel, success, failure, recv_push}
use friend_serv.Channel.Purge.{Carries}
use friend_serv.Channel.Push.{recv_push_unsafe}
use friend_serv.Channel.Order.{Call, put, purge, take_one, run, gives, run_in_order}

abbrev note : Block
note = record { fd = 7; id = 300; len = 2; kind = 3 }

abbrev bytes : List ℕ
bytes = 65 ∷ 66 ∷ []

abbrev idle : Channel
idle = record {
  queue = record { mem = λ a. 0; size = 40; w_pos = 0; r_pos = 0; pull_len = 8192 };
  push_list = [];
  woken = 0;
}

-- Nothing in the ring, and one block in the list.
abbrev behind : Channel
behind = record idle { push_list = (note, bytes) ∷ [] }

note-IsItem : IsItem (note, bytes)
note-IsItem = record {
  block = record { fd = omega arith; id = omega arith; len = omega arith; kind = omega arith };
  bytes = refl;
}

idle-Carries : Carries 40 idle []
unfolding window wires
idle-Carries = record {
  ring = [];
  holds = record {
    valid = record {
      write_in = omega arith;
      read_in = omega arith;
      gap = omega arith;
      word = omega arith;
    };
    items = tt;
    bytes = refl;
  };
  size = refl;
  waiting = tt;
  all = refl;
}

behind-Carries : Carries 40 behind ((note, bytes) ∷ [])
unfolding window wires idle-Carries
behind-Carries = record {
  ring = [];
  holds = idle-Carries.holds;
  size = refl;
  waiting = (note-IsItem, omega arith, tt);
  all = refl;
}

recv_push_unsafe_example :
    let (ret, c') = recv_push gives behind note bytes false in
    let owed = length (wires ((note, bytes) ∷ [])) in
    ((owed + 16 + 2 < 40) × (ret ≡ success) × Carries 40 c' ((note, bytes) ∷ (note, bytes) ∷ []))
    ⊎ (((owed < 40)
          × (40 ≤ owed + 16 + 2)
          × (ret ≡ success)
          × Carries 40 c' ((note, bytes) ∷ [])
          × (c'.push_list ≡ []))
        ⊎ ((40 ≤ owed)
            × (ret ≡ failure)
            × Carries 40 c' ((note, bytes) ∷ [])
            × (c'.push_list ≡ [] → ⊥)))
recv_push_unsafe_example =
    recv_push_unsafe 40 gives behind ((note, bytes) ∷ []) note bytes behind-Carries note-IsItem
      (omega arith)

abbrev calls : List Call
calls = put note bytes ∷ take_one ∷ put note bytes ∷ purge ∷ take_one ∷ take_one ∷ []

run_in_order_example :
    let (out, c') = run behind calls in
    (owed : List Item) × Carries 40 c' owed
    × (out ++ owed ≡ (note, bytes) ∷ (note, bytes) ∷ (note, bytes) ∷ [])
run_in_order_example =
    run_in_order 40 calls behind ((note, bytes) ∷ []) behind-Carries
      (note-IsItem, omega arith, (note-IsItem, omega arith, tt))
