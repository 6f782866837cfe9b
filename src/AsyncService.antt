-- ===== src/AsyncService.antt =====
-- `AsyncService` of common/service.h and common/service.cpp: a service behind a socket of the event
-- loop, with `fd_service_map` as far as this service is concerned.
pub mod Phases
pub mod Nulls
mod Tests
use friend_serv.Base.{
  ℕ, ◌-◌, Bool, true, false, ◌||◌, Option, none, some, List, [], ◌∷◌, ◌==◌, ltb, leb, if◌then◌else◌,
}

-- The entries of `fd_service_map`: a descriptor, and whether it holds the service or NULL.
abbrev pub FdMap : Type 0
FdMap = List (ℕ × Bool)

abbrev pub find : FdMap → ℕ → Option Bool
find [] fd = none
find (e ∷ map) fd = let rest = find map fd in if e.0 == fd then some e.1 else rest

abbrev pub erase : FdMap → ℕ → FdMap
erase [] fd = []
erase (e ∷ map) fd = let rest = erase map fd in if e.0 == fd then rest else e ∷ rest

-- A key that is there keeps its value, with `insert` as with `operator[]`.
abbrev pub add : FdMap → ℕ → Bool → Option Bool → FdMap
add map fd this none = (fd, this) ∷ map
add map fd this (some b) = map

abbrev pub insert : FdMap → ℕ → FdMap
insert map fd = add map fd true (find map fd)

abbrev pub index : FdMap → ℕ → FdMap
index map fd = add map fd false (find map fd)

-- `fd` is `m_fd` where it is not negative, `waiting` the membership in ReInitable::reinit_set.
pub record AsyncService : Type 0 where
  pub fd : Option ℕ
  pub connecting : Bool
  pub connect_time_ms : ℕ
  pub enabled : Bool
  pub waiting : Bool
  pub timeout_ms : ℕ
  pub forbidden : Bool
  pub fds : FdMap

-- What async_net_connect_ser gives: a descriptor, -1, or another negative number.
pub data Opened : Type 0 where
  descriptor : ℕ → Opened
  refused bad_params : Opened

abbrev pub without : Option ℕ → FdMap → FdMap
without none map = map
without (some fd) map = erase map fd

abbrev pub shut : AsyncService → AsyncService
shut s = record s {
  fd = none;
  connecting = false;
  enabled = false;
  waiting = false;
  fds = without s.fd s.fds;
}

abbrev pub opened : Opened → (now : ℕ) → AsyncService → Bool × AsyncService
opened (descriptor fd) now s = (
  true,
  record s {
    fd = some fd;
    connecting = true;
    connect_time_ms = now;
    waiting = true;
    fds = insert s.fds fd;
  },
)
opened refused now s = (true, record s { fd = none; connecting = false; waiting = true })
opened bad_params now s = (false, record s { fd = none; connecting = false; waiting = false })

-- A connection that is being set up is left alone until its time is over. The clock is signed in the
-- source, and a difference below 0 is below the timeout as 0 is.
abbrev pub connect : Opened → (now : ℕ) → AsyncService → Bool × AsyncService
connect o now s =
    if s.connecting
    then if leb (now - s.connect_time_ms) s.timeout_ms then (true, s) else opened o now (shut s)
    else opened o now s

unfoldable pub init : Opened → (now : ℕ) → AsyncService → Bool × AsyncService
init o now s =
    if s.enabled || (ltb s.timeout_ms 1 || ltb 10000 s.timeout_ms)
    then (false, shut s)
    else if s.forbidden
    then (true, shut s)
    else connect o now s

abbrev pub disable : AsyncService → AsyncService
disable s = record s { enabled = false }

abbrev pub reinit : Opened → (now : ℕ) → AsyncService → Bool × AsyncService
reinit o now s = init o now (if s.connecting then disable s else shut (disable s))

abbrev pub link_up : AsyncService → AsyncService
link_up s = record s { connecting = false; enabled = true; waiting = false }

abbrev pub link_down : AsyncService → AsyncService
link_down s = record s {
  fd = none;
  connecting = false;
  enabled = false;
  waiting = true;
  fds = without s.fd s.fds;
}

abbrev is_empty : List ℕ → Bool
is_empty [] = true
is_empty (x ∷ xs) = false

-- Send; `sent` says whether net_send_ser gives a positive number.
abbrev pub send : (sent : Bool) → List ℕ → AsyncService → Bool × AsyncService
send sent buf s =
    if is_empty buf
    then (false, s)
    else if sent
    then (true, s)
    else (false, record (shut s) { waiting = true })

abbrev pub has_null : FdMap → Bool
has_null [] = false
has_null (e ∷ map) = let rest = has_null map in if e.1 then rest else true

abbrev pub on_found : (AsyncService → AsyncService) → Option Bool → AsyncService → AsyncService
on_found act (some true) s = act s
on_found act _ s = s

-- The lookups by `operator[]`, which adds a NULL for a descriptor that is not there.
abbrev pub set_service_disconnected : ℕ → AsyncService → AsyncService
set_service_disconnected fd s =
    on_found link_down (find s.fds fd) (record s { fds = index s.fds fd })

-- SetServiceConnected first asks every entry whether it is enabled: none is a NULL among them.
abbrev pub set_service_connected : ℕ → AsyncService → Option AsyncService
set_service_connected fd s =
    if has_null s.fds
    then none
    else some (on_found link_up (find s.fds fd) (record s { fds = index s.fds fd }))
