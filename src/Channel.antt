-- ===== src/Channel.antt =====
-- A channel of async-server/src/shmq.cpp: a queue in shared memory, the list of the blocks that found
-- no room in it, and the bytes written to its pipe to wake the reader up.
-- The two directions of the source, `recv_*` and `send_*`, are the same text on two queues.
pub mod Purge
pub mod Push
pub mod Order
pub mod Drain
pub mod Samples
mod Tests
use friend_serv.Base.{
  ℕ, suc, ◌+◌, Bool, true, false, ◌&&◌, not, List, [], ◌∷◌, ◌++◌, ◌==◌, leb, if◌then◌else◌, take,
}
use friend_serv.Shmq.{Shmq, Block, Pull, nothing, no_memory, pulled, head_size, push, pull}
use friend_serv.Shmq.Fifo.{Item}

pub record Channel : Type 0 where
  pub queue : Shmq
  pub push_list : List Item
  pub woken : ℕ

-- The return values 0 and -1.
pub data Status : Type 0 where
  success failure : Status

abbrev pub is_success : Status → Bool
is_success success = true
is_success failure = false

-- The loop of `pruge_recv`.
pub pruge_list : Shmq → List Item → ℕ → Status × Channel
pruge_list q [] woken = (success, record { queue = q; push_list = []; woken = woken })
pruge_list q (x ∷ xs) woken =
    let (ret, q') = push q x.0 x.1 in
    let rest = pruge_list q' xs (suc woken) in
    if ret == 0 then rest else (failure, record { queue = q'; push_list = x ∷ xs; woken = woken })

pub pruge_recv : Channel → Status × Channel
pruge_recv c = pruge_list c.queue c.push_list c.woken

-- The end of `recv_push`, where the block could not be pushed: `ret` is the status of the purge.
pub defer : (ℕ → Bool) → Status → Channel → Block → List ℕ → Bool → Status × Channel
defer malloc ret c sb buf safe =
    if not safe
    then (ret, c)
    else if malloc (head_size + sb.len)
    then (success, record c { push_list = c.push_list ++ (sb, take sb.len buf) ∷ [] })
    else (failure, c)

-- `recv_push`; `malloc` says whether it gives so many bytes.
pub recv_push : (ℕ → Bool) → Channel → Block → List ℕ → Bool → Status × Channel
recv_push malloc c sb buf safe =
    let (ret, c1) = pruge_recv c in
    let (full, q) = push c1.queue sb buf in
    if leb c1.queue.size sb.len
    then (failure, c1)
    else if is_success ret
    then if full == 0
      then (success, record c1 { queue = q; woken = suc c1.woken })
      else defer malloc ret (record c1 { queue = q }) sb buf safe
    else defer malloc ret c1 sb buf safe

unfoldable pub recv_pull : (ℕ → Bool) → Channel → Pull × Channel
recv_pull realloc c = let (out, q) = pull realloc c.queue in (out, record c { queue = q })

pub pruge_send : Channel → Status × Channel
pruge_send = pruge_recv

unfoldable pub send_push : (ℕ → Bool) → Channel → Block → List ℕ → Bool → Status × Channel
send_push = recv_push

pub send_pull : (ℕ → Bool) → Channel → Pull × Channel
send_pull = recv_pull
