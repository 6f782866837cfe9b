-- ===== src/Shmq/Positions.antt =====
-- The positions of shmq.cpp's ring: the free and the used bytes, and their `uint32_t` arithmetic.
use friend_serv.Base.{ℕ, ◌+◌, ◌-◌, ◌^◌, ◌≤◌, ◌<◌, ◌≡◌, arith, leb, if◌then◌else◌}
use friend_serv.Shmq.{Shmq, free_space, used_space}
use friend_serv.Shmq.Place.{wrap}

-- the bytes between the read and the write position
abbrev pub used : ℕ → ℕ → ℕ → ℕ
used size w r = if leb r w then w - r else size - r + w

abbrev pub load : Shmq → ℕ
load q = used q.size q.w_pos q.r_pos

-- Both positions lie in the ring, its end included, and one byte at least is free.
pub record IsValid (q : Shmq) : Type 0 where
  pub write_in : q.w_pos ≤ q.size
  pub read_in : q.r_pos ≤ q.size
  pub gap : load q < q.size
  pub word : q.size ≤ 2 ^ 31

pub free_space-load : (q : Shmq) → IsValid q → free_space q ≡ q.size - load q
unfolding free_space
free_space-load q v = ground arith

pub used_space-load : (q : Shmq) → IsValid q → used_space q ≡ load q
unfolding used_space
used_space-load q v = ground arith

-- `n` more bytes written, where they leave a byte free.
pub used-write :
    (size w r n : ℕ)
    → w ≤ size
    → r ≤ size
    → used size w r + n < size
    → used size (wrap size w n) r ≡ used size w r + n
used-write size w r n hw hr h = ground arith

-- `n` bytes read, where there are as many.
pub used-read :
    (size w r n : ℕ)
    → w ≤ size
    → r ≤ size
    → used size w r < size
    → n ≤ used size w r
    → used size w (wrap size r n) + n ≡ used size w r
used-read size w r n hw hr g h = ground arith
