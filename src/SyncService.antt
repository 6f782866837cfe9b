-- ===== src/SyncService.antt =====
-- `SyncService` of common/service.cpp: a service behind a blocking socket, and its place in the set
-- of the services that the timer connects again.
pub mod Exchange
pub mod Life
mod Tests
use friend_serv.Base.{
  ◌>>=◌, ℕ, ◌+◌, ◌-◌, ◌*◌, ◌^◌, Bool, true, false, not, ◌||◌, Option, none, some, List, [], ◌∷◌,
  ◌++◌, ltb, if◌then◌else◌, get_or,
}
use friend_serv.TcpClient.{
  Event, Ret, all_done, timeout, tc_error, invalid_params, Outcome, send, recv,
}

-- `alive` is `m_fd >= 0`, `waiting` the membership in ReInitable::reinit_set.
pub record SyncService : Type 0 where
  pub alive : Bool
  pub enabled : Bool
  pub waiting : Bool
  pub timeout_ms : ℕ
  pub forbidden : Bool

-- What TcpClient::Connect gives on a closed socket.
pub data Connect : Type 0 where
  connected invalid_host unreachable : Connect

abbrev pub shut : SyncService → SyncService
shut s = record s { alive = false; enabled = false; waiting = false }

abbrev pub set_to_reinit : SyncService → SyncService
set_to_reinit s = record s { waiting = true }

-- An open socket is not connected again.
abbrev pub connect : Bool → Connect → Connect
connect true c = connected
connect false c = c

abbrev pub on_connect : SyncService → Connect → Bool × SyncService
on_connect s connected = (true, record s { alive = true; enabled = true; waiting = false })
on_connect s invalid_host = (false, s)
on_connect s unreachable = (true, set_to_reinit (shut s))

unfoldable pub init : Connect → SyncService → Bool × SyncService
init c s =
    if s.enabled || (ltb s.timeout_ms 1 || ltb 10000 s.timeout_ms)
    then (false, shut s)
    else if s.forbidden
    then (true, shut s)
    else on_connect s (connect s.alive c)

abbrev pub reinit : Connect → SyncService → Bool × SyncService
reinit c s = init c (shut s)

-- The bytes sent, the bytes that come, and the answers of the kernel.
pub record Net : Type 0 where
  pub wire : List ℕ
  pub incoming : List ℕ
  pub events : List Event

pub record Result : Type 0 where
  pub ok : Bool
  pub out : List ℕ
  pub service : SyncService
  pub net : Net

abbrev pub is_done : Ret → Bool
is_done all_done = true
is_done _ = false

abbrev pub give_up : SyncService → Net → Result
give_up s net = record { ok = false; out = []; service = set_to_reinit (shut s); net = net }

abbrev pub answered : SyncService → List ℕ → Net → Result
answered s out net = record { ok = true; out = out; service = s; net = net }

abbrev pub after_send : Net → Outcome → Net
after_send net o = record { wire = net.wire ++ o.done; incoming = net.incoming; events = o.events }

abbrev pub after_recv : Net → Outcome → Net
after_recv net o = record { wire = net.wire; incoming = o.left; events = o.events }

-- SendAndRecv with an answer of a fixed length.
unfoldable pub send_and_recv : SyncService → List ℕ → (out_len : ℕ) → Net → Option Result
send_and_recv s in_buf out_len net = do
  sent ← send s.alive in_buf net.events
  let net1 = after_send net sent
  let give = some (give_up s net1)
  let next = recv sent.alive out_len net1.incoming net1.events >>= (λ got. some (
      if is_done got.ret
      then answered s got.done (after_recv net1 got)
      else give_up s (after_recv net1 got)))
  if is_done sent.ret then next else give

-- `p->len` of the bytes received.
abbrev pub proto_len : List ℕ → ℕ
proto_len out =
    get_or out 0 0 + get_or out 1 0 * 2 ^ 8 + get_or out 2 0 * 2 ^ 16 + get_or out 3 0 * 2 ^ 24

unfoldable pub recv_body : SyncService → Outcome → Net → Option Result
recv_body s head net = do
  body ← recv head.alive (proto_len head.done - 4) net.incoming net.events
  let net' = after_recv net body
  some (if is_done body.ret then answered s (head.done ++ body.done) net' else give_up s net')

unfoldable pub recv_proto : SyncService → (out_buf_len : ℕ) → Outcome → Net → Option Result
recv_proto s out_buf_len sent net = do
  head ← recv sent.alive 4 net.incoming net.events
  let net' = after_recv net head
  let body = recv_body s head net'
  let give = some (give_up s net')
  if is_done head.ret
      then if ltb (proto_len head.done) 8 || ltb out_buf_len (proto_len head.done)
        then give
        else body
      else give

-- SendAndRecv with an answer that starts with its length.
unfoldable pub send_and_recv_proto : SyncService → List ℕ → (out_buf_len : ℕ) → Net → Option Result
send_and_recv_proto s in_buf out_buf_len net =
    let exchange = do
      sent ← send s.alive in_buf net.events
      let net1 = after_send net sent
      let rest = recv_proto s out_buf_len sent net1
      let give = some (give_up s net1)
      if is_done sent.ret then rest else give
    in if ltb out_buf_len 8
      then some (record { ok = false; out = []; service = s; net = net })
      else exchange
