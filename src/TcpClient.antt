-- ===== src/TcpClient.antt =====
-- `TcpClient::Send` and `TcpClient::Recv` of common/tcp_client.cpp, on the events that the kernel
-- answers the system calls with.
pub mod Sending
pub mod Receiving
mod Tests
use friend_serv.Base.{
  ℕ, suc, zero, ◌+◌, ◌-◌, Bool, true, false, Option, none, some, List, [], ◌∷◌, ◌++◌, ◌==◌, leb,
  if◌then◌else◌, length, take, drop, min,
}

-- What one call of `::send` or `::recv` gives: so many bytes at most, EAGAIN, EINTR or another error.
pub data Event : Type 0 where
  moved : ℕ → Event
  again interrupted failed : Event

-- The return values: the length that was asked for, TC_TIMEOUT, TC_ERROR and TC_INVALID_PARAMS.
pub data Ret : Type 0 where
  all_done timeout tc_error invalid_params : Ret

-- A return value, whether the socket is open, the bytes moved and the bytes not moved.
pub record Outcome : Type 0 where
  pub ret : Ret
  pub alive : Bool
  pub done : List ℕ
  pub left : List ℕ
  pub events : List Event

abbrev is_empty : List ℕ → Bool
is_empty [] = true
is_empty (x ∷ xs) = false

-- EAGAIN: a timeout before the first byte, and else an error, on which the socket is closed.
abbrev pub on_again : List ℕ → List ℕ → List Event → Outcome
on_again done left events = record {
  ret = if is_empty done then timeout else tc_error;
  alive = is_empty done;
  done = done;
  left = left;
  events = events;
}

abbrev pub on_failure : List ℕ → List ℕ → List Event → Outcome
on_failure done left events = record {
  ret = tc_error;
  alive = false;
  done = done;
  left = left;
  events = events;
}

abbrev pub on_success : List ℕ → List ℕ → List Event → Outcome
on_success done left events = record {
  ret = all_done;
  alive = true;
  done = done;
  left = left;
  events = events;
}

-- The loop of Send with `left` still to send; none where the kernel has no further answer.
unfoldable pub send_loop : (done left : List ℕ) → List Event → Option Outcome
send_loop done left [] = none
send_loop done left (moved n ∷ events) =
    let r = min n (length left) in
    let sent = done ++ take r left in
    let rest = send_loop sent (drop r left) events in
    if leb (length left) r then some (on_success sent [] events) else rest
send_loop done left (again ∷ events) = some (on_again done left events)
send_loop done left (interrupted ∷ events) = send_loop done left events
send_loop done left (failed ∷ events) = some (on_failure done left events)

abbrev pub refused : Ret → Bool → List ℕ → List Event → Option Outcome
refused ret alive left events =
    some (record { ret = ret; alive = alive; done = []; left = left; events = events })

-- Send of a buffer; `alive` is `m_fd >= 0`.
unfoldable pub send : (alive : Bool) → List ℕ → List Event → Option Outcome
send alive buf events =
    if is_empty buf
    then refused invalid_params alive buf events
    else if alive
    then send_loop [] buf events
    else refused tc_error false buf events

-- The loop of Recv with `want` bytes to come out of the stream `left`; at its end `::recv` gives 0.
unfoldable pub recv_loop : (want : ℕ) → (done left : List ℕ) → List Event → Option Outcome
recv_loop want done left [] = none
recv_loop want done left (moved n ∷ events) =
    let r = min n (min want (length left)) in
    let got = done ++ take r left in
    let rest = recv_loop (want - r) got (drop r left) events in
    if r == 0
    then some (on_failure done left events)
    else if leb want r
    then some (on_success got (drop r left) events)
    else rest
recv_loop want done left (again ∷ events) = some (on_again done left events)
recv_loop want done left (interrupted ∷ events) = recv_loop want done left events
recv_loop want done left (failed ∷ events) = some (on_failure done left events)

unfoldable pub recv : (alive : Bool) → ℕ → List ℕ → List Event → Option Outcome
recv alive want left events =
    if want == 0
    then refused invalid_params alive left events
    else if alive
    then recv_loop want [] left events
    else refused tc_error false left events
