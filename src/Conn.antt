-- ===== src/Conn.antt =====
-- The process that holds the connections of async-server: its table of handlers in reactor.h, and
-- `c_sevent` of shm_sevent.cpp, which takes the answers out of the channel of a worker and gives each to
-- the socket that it is for. Handlers that are no sockets have the link id 0, and stand for none.
mod Tests
pub mod Seats
pub mod Answers
use friend_serv.Base.{
  ℕ, zero, suc, ◌+◌, ◌-◌, ◌^◌, Bool, true, false, ◌||◌, ◌&&◌, not, List, [], ◌∷◌, Option, none,
  some, ◌>>=◌, ◌==◌, leb, ltb, if◌then◌else◌, Option-cases,
}
use friend_serv.Base.Words.{add32}
use friend_serv.TcpClient.{Event}
use friend_serv.Shmq.{Block}
use friend_serv.Channel.{Channel}
use friend_serv.Channel.Drain.{drain}
use friend_serv.Worker.{close_block}
use friend_serv.Socket.{Socket, Left, shut, send_pkg}

-- `c_reactor`: `size` is the length of m_handlers, `last_id` the bits of m_id.
pub record Reactor : Type 0 where
  pub size : ℕ
  pub handlers : ℕ → Option Socket
  pub last_id : ℕ

-- `++m_id > 0 ? m_id : 1`, where a sum over 2 ^ 31 - 1 is a negative number.
abbrev pub make_id : Reactor → ℕ × Reactor
make_id r =
    let next = add32 r.last_id 1 in
    (if ltb 0 next && ltb next (2 ^ 31) then next else 1, record r { last_id = next })

abbrev pub set_handler : ℕ → Option Socket → (ℕ → Option Socket) → ℕ → Option Socket
set_handler fd s handlers other = if fd == other then s else handlers other

abbrev pub add_handler : ℕ → Socket → Reactor → Bool × Reactor
add_handler fd s r =
    if leb r.size fd
    then (false, r)
    else (true, record r { handlers = set_handler fd (some s) r.handlers })

abbrev pub del_handler : ℕ → Reactor → Bool × Reactor
del_handler fd r =
    if leb r.size fd
    then (false, r)
    else (true, record r { handlers = set_handler fd none r.handlers })

abbrev pub get_handler : ℕ → Reactor → Option Socket
get_handler fd r = if leb r.size fd then none else r.handlers fd

-- `channels` is g_shm_queue_mgr.recv_queue, and `turns` how many packages each descriptor was given.
pub record Conns : Type 0 where
  pub reactor : Reactor
  pub turns : ℕ → ℕ
  pub channels : List Channel

-- A handler that handle_fini deleted is out of the table.
abbrev pub put : ℕ → Left → (ℕ → ℕ) → Conns → Conns
put fd (s, cs) turns w = record {
  reactor = record (w.reactor) { handlers = set_handler fd s w.reactor.handlers };
  turns = turns;
  channels = cs;
}

abbrev pub one_more : ℕ → (ℕ → ℕ) → ℕ → ℕ
one_more fd turns other = if fd == other then suc (turns other) else turns other

-- `net` is what `send` gives at the k-th package for a descriptor.
module _ (malloc : ℕ → Bool) (net : (fd k : ℕ) → Event) where
  abbrev pub hand_over : Block → List ℕ → Socket → Conns → Conns
  hand_over sb body s w =
      if sb.kind == close_block
      then put sb.fd (shut malloc s w.channels) w.turns w
      else put sb.fd (send_pkg malloc (net sb.fd (w.turns sb.fd)) body s w.channels)
          (one_more sb.fd w.turns) w

  abbrev pub answer_to : Option Socket → Block → List ℕ → Conns → Conns
  answer_to none sb body w = w
  answer_to (some s) sb body w =
      if not (s.id == sb.id) || s.id == 0 then w else hand_over sb body s w

  -- What handle_input does with a block.
  abbrev pub answer : Block → List ℕ → Conns → Conns
  answer sb body w = answer_to (get_handler sb.fd w.reactor) sb body w

  -- handle_input, whose loop takes at most 1024 blocks.
  abbrev pub handle_input : (realloc : ℕ → Bool) → Channel → Conns → Option (Channel × Conns)
  handle_input realloc c w =
      drain realloc (λ sb body w'. some (answer sb body w')) 1024
        (record c { woken = c.woken - 1024 }) w
