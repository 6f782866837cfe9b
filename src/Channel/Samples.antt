-- ===== src/Channel/Samples.antt =====
-- A channel with a ring of 40 bytes, without a block and with one, for examples.
use friend_serv.Base.{ℕ, refl, inl, inr, List, [], ◌∷◌, arith}
use friend_serv.Shmq.{Shmq, Block, push}
use friend_serv.Shmq.Memory.{window}
use friend_serv.Shmq.Fifo.{IsItem, Holds, wires, push_appends}
use friend_serv.Channel.{Channel}
use friend_serv.Channel.Purge.{Carries}

abbrev pub note : Block
note = record { fd = 7; id = 300; len = 2; kind = 3 }

abbrev pub bytes : List ℕ
bytes = 65 ∷ 66 ∷ []

abbrev pub empty_ring : Shmq
empty_ring = record { mem = λ a. 0; size = 40; w_pos = 0; r_pos = 0; pull_len = 8192 }

abbrev pub quiet : Channel
quiet = record { queue = empty_ring; push_list = []; woken = 0 }

empty_ring-Holds : Holds empty_ring []
unfolding window wires
empty_ring-Holds = record {
  valid = record {
    write_in = omega arith;
    read_in = omega arith;
    gap = omega arith;
    word = omega arith;
  };
  items = tt;
  bytes = refl;
}

pub quiet-Carries : Carries 40 quiet []
quiet-Carries = record {
  ring = [];
  holds = empty_ring-Holds;
  size = refl;
  waiting = tt;
  all = refl;
}

pub note-IsItem : IsItem (note, bytes)
note-IsItem = record {
  block = record { fd = omega arith; id = omega arith; len = omega arith; kind = omega arith };
  bytes = refl;
}

-- The channel in, with one note in its ring.
abbrev pub waiting : Channel
waiting = record quiet { queue = (push empty_ring note bytes).1; woken = 1 }

pub waiting-Holds : Holds waiting.queue ((note, bytes) ∷ [])
unfolding wires
waiting-Holds =
    let (cases, _, _) =
      push_appends empty_ring [] note bytes empty_ring-Holds note-IsItem (omega arith) in
    elim cases [ inl (_, _, h) ↦ h | inr (_, more, _) ↦ absurd (omega arith) ]
