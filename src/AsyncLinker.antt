-- ===== src/AsyncLinker.antt =====
-- `c_tcp_async_linker` of async-server/src/tcp_async_linker.cpp: a link to a server whose connect may be
-- pending. Its buffers are those of Linker, its stream is cut as in Linker.Input; `watch_out` is whether
-- it is registered for EPOLLOUT, without which the reactor does not call handle_output.
mod Tests
pub mod Runs
pub mod Watched
pub mod Stalled
use friend_serv.Base.{
  ℕ, Bool, true, false, ◌||◌, ◌&&◌, not, List, [], ◌∷◌, Option, none, some, ◌>>=◌, if◌then◌else◌,
}
use friend_serv.TcpClient.{Event, moved, again, interrupted, failed}
use friend_serv.Linker
use friend_serv.Linker.{Linker, is_empty}
use friend_serv.Linker.Input
use friend_serv.Linker.Input.{Receiver, Plugin, Read, error}

-- The members for sending and the state of the connect.
pub record AsyncLinker : Type 0 where
  pub is_connected : Bool
  pub watch_out : Bool
  pub link : Linker

-- The loop of `start` on the answers of `connect`, where `again` is also EINPROGRESS; none where
-- they are all EINTR.
abbrev pub connects : List Event → Option Bool
connects [] = none
connects (moved n ∷ es) = some true
connects (again ∷ es) = some true
connects (interrupted ∷ es) = connects es
connects (failed ∷ es) = some false

-- `start`; `registers` is whether add_handler and handle_ctl succeed, and the inner none a link that
-- handle_fini deleted.
abbrev pub start : List Event → (registers : Bool) → Linker → Option (Option AsyncLinker)
start es registers l = connects es >>= (λ ok. some (
    if ok && registers
    then some (record { is_connected = false; watch_out = true; link = l })
    else none))

-- handle_input, which is an error on a link that is not connected.
abbrev pub handle_input :
    {W : Type 0} → Plugin W → Event → List ℕ → AsyncLinker → Receiver W → Read W
handle_input p e stream a r =
    if a.is_connected
    then Linker.Input.handle_input p e a.link.is_closed stream r
    else error r.packages r.world

-- A package for `send_pkg`, with what `::send` gives, and whether handle_ctl would register the link.
pub record Sending : Type 0 where
  pub ctl : Bool
  pub event : Event
  pub package_bytes : List ℕ

-- A package sent. Where the list was empty and bytes are left, the link is registered for EPOLLOUT if
-- handle_ctl succeeds; that it fails is not noticed: `!handle_ctl(...) == -1` is never true.
abbrev with_sent : (ctl : Bool) → AsyncLinker → Option Linker → Option AsyncLinker
with_sent ctl a none = none
with_sent ctl a (some l) = some (record a {
  link = l;
  watch_out = ctl && (is_empty a.link.buffers && not (is_empty l.buffers)) || a.watch_out;
})

-- `send_pkg`; none where it ends in handle_error.
abbrev pub send_pkg : Sending → AsyncLinker → Option AsyncLinker
send_pkg x a = with_sent x.ctl a (Linker.send_pkg x.event x.package_bytes a.link)

abbrev pub send_all : List Sending → AsyncLinker → Option AsyncLinker
send_all [] a = some a
send_all (x ∷ others) a = send_pkg x a >>= send_all others

-- handle_output of a pending link: `memory` and `ctl` are malloc and handle_ctl, `greeting` what
-- link_up_ser sends, which does not close the link.
abbrev pub connected : (memory ctl : Bool) → List Sending → AsyncLinker → Option AsyncLinker
connected memory ctl greeting a =
    if memory && ctl
    then send_all greeting (record a { watch_out = false })
      >>= (λ b. some (record b { is_connected = true }))
    else none

-- The end of handle_output: EPOLLIN alone once the list is empty.
abbrev written : (ctl : Bool) → AsyncLinker → Option Linker → Option AsyncLinker
written ctl a none = none
written ctl a (some l) =
    if is_empty l.buffers
    then if ctl then some (record a { link = l; watch_out = false }) else none
    else some (record a { link = l })

-- handle_output; none where it returns false, upon which the reactor ends the link.
abbrev pub handle_output :
    (memory ctl : Bool) → List Sending → List Event → AsyncLinker → Option AsyncLinker
handle_output memory ctl greeting es a =
    if a.is_connected
    then written ctl a (Linker.handle_output es a.link)
    else connected memory ctl greeting a

abbrev with_shut : AsyncLinker → Option Linker → Option AsyncLinker
with_shut a none = none
with_shut a (some l) = some (record a { link = l })

abbrev pub shut : AsyncLinker → Option AsyncLinker
shut a = with_shut a (Linker.shut a.link)
