-- ===== src/Socket.antt =====
-- `c_tcp_socket` of async-server/src/tcp_socket.cpp, a client's connection: its stream is cut into
-- packages as in Linker.Input, each of which goes to the channel of a worker, and its answers wait in
-- the list of Linker. The workers are told when it opens and closes.
pub mod Feeds
mod Tests
use friend_serv.Base.{
  ℕ, zero, suc, ◌+◌, ◌%◌, ◌^◌, ◌-◌, Bool, true, false, ◌||◌, ◌&&◌, not, List, [], ◌∷◌, ◌++◌, Option,
  none, some, ◌==◌, leb, if◌then◌else◌, length, get_elem?,
}
use friend_serv.Base.Words.{add32}
use friend_serv.TcpClient.{Event}
use friend_serv.Shmq.{Block, le32}
use friend_serv.Channel.{Channel, Status, is_success, recv_push}
use friend_serv.Worker.{close_block, login_block, proto_block}
use friend_serv.Linker.{Linker, is_empty, buf_len}
use friend_serv.Linker
use friend_serv.Linker.Input.{Receiver, Plugin, Read, up, gone, error, no_rounds}
use friend_serv.Linker.Input

-- The socket with its half that sends; `fd` is m_fd, `ip` the address of the peer.
pub record Socket : Type 0 where
  pub fd : ℕ
  pub id : ℕ
  pub ip : ℕ
  pub bytes : List ℕ
  pub size : ℕ
  pub link : Linker

-- What an operation leaves: the socket, or none where handle_fini deleted it, and the channels.
abbrev pub Left : Type 0
Left = Option Socket × List Channel

-- The static `random_channel` and g_shm_queue_mgr.recv_queue; there is at least one channel.
pub record Queues : Type 0 where
  pub random_channel : ℕ
  pub channels : List Channel

abbrev pub replace_at : ℕ → Channel → List Channel → List Channel
replace_at i c [] = []
replace_at zero c (d ∷ ds) = c ∷ ds
replace_at (suc i) c (d ∷ ds) = d ∷ replace_at i c ds

-- The connection's side of the plugin: get_pkg_len_cli, g_max_pkg_len, select_channel with the `int`
-- that it returns, shmq_pushed with whether it is not -1, and realloc.
pub record Gate : Type 0 where
  pub pkg_len : List ℕ → ℕ
  pub max_pkg_len : ℕ
  pub select_channel : Option (List ℕ → ℕ)
  pub shmq_pushed : Option (List ℕ → Bool → Bool)
  pub realloc : ℕ → Bool

abbrev pub selected : Option (List ℕ → ℕ) → List ℕ → ℕ
selected none pkg = 2 ^ 32 - 1
selected (some f) pkg = f pkg

abbrev pub told : Option (List ℕ → Bool → Bool) → List ℕ → Bool → Bool
told none pkg ok = true
told (some f) pkg ok = f pkg ok

abbrev pub next_random : Queues → Queues
next_random q = record q { random_channel = add32 q.random_channel 1 }

module _ (malloc : ℕ → Bool) where
  -- A safe recv_push to every channel.
  abbrev pub notify_all : Block → List ℕ → List Channel → List Channel
  notify_all sb buf [] = []
  notify_all sb buf (c ∷ cs) = (recv_push malloc c sb buf true).1 ∷ notify_all sb buf cs

  abbrev pub say_closed : Socket → List Channel → List Channel
  say_closed s cs = notify_all (record { fd = s.fd; id = s.id; len = 0; kind = close_block }) [] cs

  -- `start`; `opens` is whether malloc, the reactor, epoll and check_open_cli accept the connection.
  abbrev pub start : (opens : Bool) → Socket → List Channel → Left
  start opens s cs =
      if opens
      then (
        some (record s { bytes = []; size = 4096 }),
        notify_all (record { fd = s.fd; id = s.id; len = 4; kind = login_block }) (le32 s.ip) cs,
      )
      else (none, cs)

  abbrev pub handle_error : Socket → List Channel → Left
  handle_error s cs = (none, if s.link.is_closed then cs else say_closed s cs)

  abbrev pub shut : Socket → List Channel → Left
  shut s cs =
      if is_empty s.link.buffers
      then (none, say_closed s cs)
      else (some (record s { link = record (s.link) { is_closed = true } }), say_closed s cs)

  abbrev pub with_link : Socket → List Channel → Option Linker → Left
  with_link s cs none = handle_error s cs
  with_link s cs (some l) = (some (record s { link = l }), cs)

  -- `send_pkg`: a package is dropped where 1024 buffers wait.
  abbrev pub send_pkg : Event → List ℕ → Socket → List Channel → Left
  send_pkg e buf s cs =
      if not (is_empty s.link.buffers) && leb 1024 (length s.link.buffers)
      then (some s, cs)
      else with_link s cs (Linker.send_pkg e buf s.link)

  -- handle_output, and handle_error of the reactor where it returns false.
  abbrev pub handle_output : List Event → Socket → List Channel → Left
  handle_output es s cs = with_link s cs (Linker.handle_output es s.link)

  -- recv_push of a package without `safe`, and shmq_pushed.
  abbrev pub push_to : Gate → Socket → List ℕ → ℕ → Queues → Option Channel → Bool × Queues
  push_to g s pkg i q none = (true, q)
  push_to g s pkg i q (some c) =
      let sb : Block = record { fd = s.fd; id = s.id; len = length pkg; kind = proto_block } in
      let (ret, c') = recv_push malloc c sb pkg false in
      (told g.shmq_pushed pkg (is_success ret), record q { channels = replace_at i c' q.channels })

  abbrev pub at_channel : Gate → Socket → List ℕ → ℕ → Queues → Bool × Queues
  at_channel g s pkg i q = push_to g s pkg i q (get_elem? q.channels i)

  -- What handle_input does with a package: an invalid channel is only logged.
  abbrev pub deliver : Gate → Socket → List ℕ → Queues → Bool × Queues
  deliver g s pkg q =
      let channel = selected g.select_channel pkg in
      let q' = next_random q in
      if channel == 2 ^ 32 - 1
      then at_channel g s pkg (q'.random_channel % length q.channels) q'
      else at_channel g s pkg channel q

  abbrev pub socket_plugin : Gate → Socket → Plugin Queues
  socket_plugin g s = record {
    pkg_len = g.pkg_len;
    max_pkg_len = g.max_pkg_len;
    realloc = g.realloc;
    deliver = deliver g s;
  }

  abbrev pub read_end : Socket → Read Queues → Option (Option Socket × Queues)
  read_end s (up r) = some (some (record s { bytes = r.bytes; size = r.size }), r.world)
  read_end s (gone packages q) = some (none, record q { channels = (handle_error s q.channels).1 })
  read_end s (error packages q) = some (none, record q { channels = (handle_error s q.channels).1 })
  read_end s no_rounds = none

  -- What handle_input makes of the stream.
  abbrev pub read_stream : Gate → Event → List ℕ → Socket → Queues → Read Queues
  read_stream g e stream s q =
      Linker.Input.handle_input (socket_plugin g s) e s.link.is_closed stream
        (record { bytes = s.bytes; size = s.size; packages = []; world = q })

  -- handle_input, and handle_error of the reactor where it returns false; none is the end of the rounds.
  abbrev pub handle_input :
      Gate → Event → List ℕ → Socket → Queues → Option (Option Socket × Queues)
  handle_input g e stream s q = read_end s (read_stream g e stream s q)
