-- ===== src/Shmq/Tests.antt =====
-- Runs of shmq.cpp's ring, and its theorems at a ring of 64 bytes.
use friend_serv.Base.{
  ℕ, ◌+◌, ◌≤◌, ◌<◌, ◌≡◌, refl, ◌⊎◌, true, false, List, [], ◌∷◌, arith, length, get_or, some,
}
use friend_serv.Shmq.{
  Shmq, Block, no_memory, pulled, header, read_header, copy_in, copy_out, place, fetch, free_space,
  used_space, push, pull,
}
use friend_serv.Shmq.Memory.{window}
use friend_serv.Shmq.Fifo.{Item, IsItem, Holds, wires, push_appends}
use friend_serv.Shmq.Oldest.{pull_oldest}
use friend_serv.Shmq.Trip.{push_all, pull_all, pull_all-push_all}

abbrev login : Block
login = record { fd = 7; id = 300; len = 4; kind = 2 }

abbrev address : List ℕ
address = 10 ∷ 0 ∷ 0 ∷ 1 ∷ []

abbrev fresh : Shmq
fresh = record { mem = λ a. 0; size = 64; w_pos = 0; r_pos = 0; pull_len = 2 }

pushed : (push fresh login address).1.w_pos ≡ 20
unfolding push place free_space header copy_in
pushed = refl

-- A block that goes round the end of a ring of 36 bytes.
abbrev near_end : Shmq
near_end = record { mem = λ a. 0; size = 36; w_pos = 30; r_pos = 30; pull_len = 2 }

abbrev one_pushed : Shmq
one_pushed = (push near_end login address).1

goes_round : (one_pushed.w_pos ≡ 14) × ((pull (λ n. true) one_pushed).0 ≡ pulled login address)
unfolding push place free_space header copy_in pull fetch used_space read_header copy_out
goes_round = (refl, refl)

login-IsItem : IsItem (login, address)
login-IsItem = record {
  block = record { fd = omega arith; id = omega arith; len = omega arith; kind = omega arith };
  bytes = refl;
}

fresh-Holds : Holds fresh []
unfolding window wires
fresh-Holds = record {
  valid = record {
    write_in = omega arith;
    read_in = omega arith;
    gap = omega arith;
    word = omega arith;
  };
  items = tt;
  bytes = refl;
}

-- A ring with one block at its start.
abbrev one_block : Shmq
one_block = record {
  mem = λ a.
      get_or (7 ∷ 0 ∷ 0 ∷ 0 ∷ 44 ∷ 1 ∷ 0 ∷ 0 ∷ 4 ∷ 0 ∷ 0 ∷ 0 ∷ 2 ∷ 0 ∷ 0 ∷ 0 ∷ 10 ∷ 0 ∷ 0 ∷ 1 ∷ [])
        a 0;
  size = 64;
  w_pos = 20;
  r_pos = 0;
  pull_len = 2;
}

one_block-Holds : Holds one_block ((login, address) ∷ [])
unfolding window wires header
one_block-Holds = record {
  valid = record {
    write_in = omega arith;
    read_in = omega arith;
    gap = omega arith;
    word = omega arith;
  };
  items = (login-IsItem, tt);
  bytes = refl;
}

push_appends_example :
    let (ret, q') = push one_block login address in
    (((ret ≡ 0)
        × (length (wires ((login, address) ∷ [])) + 16 + 4 < 64)
        × Holds q' ((login, address) ∷ (login, address) ∷ []))
      ⊎ ((ret ≡ 1) × (64 ≤ length (wires ((login, address) ∷ [])) + 16 + 4) × (q' ≡ one_block)))
    × (q'.size ≡ 64)
    × (q'.r_pos ≡ 0)
push_appends_example =
    push_appends one_block ((login, address) ∷ []) login address one_block-Holds login-IsItem
      (omega arith)

pull_oldest_example :
    let (out, q') = pull (λ n. false) one_block in
    ((out ≡ pulled login address) ⊎ ((out ≡ no_memory login) × (false ≡ false) × (2 < 4)))
    × Holds q' []
    × (q'.size ≡ 64)
    × (q'.w_pos ≡ 20)
pull_oldest_example = pull_oldest (λ n. false) one_block login address [] one_block-Holds

-- An empty ring whose positions are near its end, and two blocks that go round it.
abbrev late : Shmq
late = record fresh { w_pos = 50; r_pos = 50 }

late-Holds : Holds late []
unfolding window wires
late-Holds = record {
  valid = record {
    write_in = omega arith;
    read_in = omega arith;
    gap = omega arith;
    word = omega arith;
  };
  items = tt;
  bytes = refl;
}

abbrev two_blocks : List Item
two_blocks = (login, address) ∷ (record login { len = 0 }, []) ∷ []

empty_login-IsItem : IsItem (record login { len = 0 }, [])
empty_login-IsItem = record {
  block = record { fd = omega arith; id = omega arith; len = omega arith; kind = omega arith };
  bytes = refl;
}

two_blocks-short : length (wires two_blocks) < 64
unfolding wires header
two_blocks-short = omega arith

pull_all-push_all_example :
    (q1 q2 : Shmq) × (push_all two_blocks late ≡ some q1)
    × (pull_all (λ k. true) 2 q1 ≡ (two_blocks, q2))
    × Holds q2 []
pull_all-push_all_example =
    pull_all-push_all (λ k. true) two_blocks late (λ k. refl) late-Holds
      (login-IsItem, (empty_login-IsItem, tt)) two_blocks-short
