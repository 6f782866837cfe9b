-- ===== src/Shmq.antt =====
-- The queue in shared memory of async-server/src/shmq.h and shmq.cpp: `shmq_push`, `shmq_pull`.
-- The bytes behind `base` are a function from addresses to bytes; `memcpy` is `copy_in` or `copy_out`.
-- The three bytes of padding in a header are written as zeros, and are never read.
pub mod Memory
pub mod Place
pub mod Twice
pub mod Header
pub mod Positions
pub mod Append
pub mod Trip
pub mod Fifo
pub mod Oldest
mod Tests
use friend_serv.Base.{
  ℕ, zero, suc, ◌+◌, ◌-◌, ◌*◌, ◌/◌, ◌%◌, ◌^◌, Bool, true, false, ◌&&◌, not, List, [], ◌∷◌, ◌++◌,
  ◌==◌, ltb, leb, if◌then◌else◌, length, get_or, take, drop,
}
use friend_serv.Base.Words.{add32, sub32}

-- `shm_block_t` without its bytes; `kind` is the member `type`.
pub record Block : Type 0 where
  pub fd : ℕ
  pub id : ℕ
  pub len : ℕ
  pub kind : ℕ

abbrev pub Mem : Type 0
Mem = ℕ → ℕ

-- `shm_queue_t` with its `shm_head_t`; the list and the pipe are in `Channel`.
pub record Shmq : Type 0 where
  pub mem : Mem
  pub size : ℕ
  pub w_pos : ℕ
  pub r_pos : ℕ
  pub pull_len : ℕ

abbrev pub head_size : ℕ
head_size = 16

-- The bytes of a 32-bit word, the least first.
abbrev pub le32 : ℕ → List ℕ
le32 n = (n % 256) ∷ (n / 256 % 256) ∷ (n / 65536 % 256) ∷ (n / 16777216 % 256) ∷ []

abbrev pub un32 : List ℕ → ℕ → ℕ
un32 bs i =
    get_or bs i 0
    + 256 * get_or bs (i + 1) 0
    + 65536 * get_or bs (i + 2) 0
    + 16777216 * get_or bs (i + 3) 0

-- The bytes of a `shm_block_t` in memory, which the source copies as they are: the layout and the order
-- of the bytes on the little-endian machines that the program is built for.
pub header : Block → List ℕ
header sb = le32 sb.fd ++ (le32 sb.id ++ (le32 sb.len ++ sb.kind ∷ 0 ∷ 0 ∷ 0 ∷ []))

pub read_header : List ℕ → Block
read_header bs = record { fd = un32 bs 0; id = un32 bs 4; len = un32 bs 8; kind = get_or bs 12 0 }

-- memcpy(base + pos, bytes, length)
pub copy_in : Mem → ℕ → List ℕ → Mem
copy_in m pos [] = m
copy_in m pos (b ∷ bs) = copy_in (λ a. if a == pos then b else m a) (pos + 1) bs

-- memcpy(to, base + pos, n)
pub copy_out : Mem → ℕ → ℕ → List ℕ
copy_out m pos zero = []
copy_out m pos (suc n) = m pos ∷ copy_out m (pos + 1) n

-- "write buf head" and "write buf": one piece if it ends by `size`, else two. `end` is the sum that
-- the source compares.
pub place : ℕ → Mem → ℕ → ℕ → List ℕ → Mem × ℕ
place size m pos end bytes =
    if leb end size
    then (copy_in m pos bytes, end)
    else let n = sub32 size pos in
      (copy_in (copy_in m pos (take n bytes)) 0 (drop n bytes), sub32 (length bytes) n)

-- "read head" and "read buf"
pub fetch : ℕ → Mem → ℕ → ℕ → ℕ → List ℕ × ℕ
fetch size m pos end len =
    if leb end size
    then (copy_out m pos len, end)
    else let n = sub32 size pos in (copy_out m pos n ++ copy_out m 0 (sub32 len n), sub32 len n)

-- the `s` of `shmq_push`
pub free_space : Shmq → ℕ
free_space q =
    if leb q.r_pos q.w_pos then add32 (sub32 q.size q.w_pos) q.r_pos else sub32 q.r_pos q.w_pos

-- the `s` of `shmq_pull`
pub used_space : Shmq → ℕ
used_space q =
    if leb q.r_pos q.w_pos then sub32 q.w_pos q.r_pos else add32 (sub32 q.size q.r_pos) q.w_pos

-- `shmq_push`: its return value, and the queue after it.
pub push : Shmq → Block → List ℕ → ℕ × Shmq
push q sb buf =
    if ltb (free_space q) (add32 (add32 sb.len head_size) 1)
    then (1, q)
    else let (m1, p1) = place q.size q.mem q.w_pos (q.w_pos + head_size) (header sb) in
      let (m2, p2) = place q.size m1 p1 (add32 p1 sb.len) (take sb.len buf) in
      (0, record q { mem = m2; w_pos = p2 })

-- What `shmq_pull` returns: 1, -1 with the header read, or 0 with the header and the bytes of `*buf`.
pub data Pull : Type 0 where
  nothing : Pull
  no_memory : Block → Pull
  pulled : Block → List ℕ → Pull

-- The position after a body that could not be stored.
pub skip : ℕ → ℕ → ℕ → ℕ
skip size pos len = if leb (add32 pos len) size then add32 pos len else sub32 len (sub32 size pos)

-- `shmq_pull`; `realloc` says whether it gives a buffer of so many bytes.
pub pull : (ℕ → Bool) → Shmq → Pull × Shmq
pull realloc q =
    if used_space q == 0
    then (nothing, q)
    else let (h, p1) = fetch q.size q.mem q.r_pos (q.r_pos + head_size) head_size in
      let sb = read_header h in
      if sb.len == 0
      then (pulled sb [], record q { r_pos = p1 })
      else if ltb q.pull_len sb.len && not (realloc sb.len)
      then (no_memory sb, record q { r_pos = skip q.size p1 sb.len })
      else let (body, p2) = fetch q.size q.mem p1 (add32 p1 sb.len) sb.len in
        (
          pulled sb body,
          record q { r_pos = p2; pull_len = if ltb q.pull_len sb.len then sb.len else q.pull_len },
        )
