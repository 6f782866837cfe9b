-- ===== src/Linker.antt =====
-- The sending half of `c_tcp_linker` of async-server/src/tcp_linker.cpp: packages wait in a list of
-- buffers until the socket takes them.
pub mod Spread
pub mod Sends
pub mod Order
pub mod Supply
pub mod Input
pub mod Packets
pub mod Worlds
mod Tests
use friend_serv.Base.{
  ℕ, zero, suc, ◌+◌, ◌-◌, Bool, true, false, Option, none, some, List, [], ◌∷◌, ◌++◌, ◌==◌, leb,
  ltb, if◌then◌else◌, length, take, drop, min,
}
use friend_serv.TcpClient.{Event, moved, again, interrupted, failed}

abbrev pub buf_len : ℕ
buf_len = 8188

-- `buffers` holds the bytes of each buffer of m_send_list, `pool` how many get_buffer still gives,
-- and `wire` what the socket took.
pub record Linker : Type 0 where
  pub buffers : List (List ℕ)
  pub send_pos : ℕ
  pub is_closed : Bool
  pub pool : ℕ
  pub wire : List ℕ

abbrev pub is_empty {ℓ} : {A : Type ℓ} → List A → Bool
is_empty [] = true
is_empty (x ∷ xs) = false

-- Buffers for the bytes `rest`, at least one, each but the last filled to BUF_LEN; none where
-- get_buffer gives none. `rounds` bounds the loop.
unfoldable pub spread : (rounds : ℕ) → (pool : ℕ) → List ℕ → Option (List (List ℕ) × ℕ)
spread zero pool rest = none
spread (suc k) zero rest = none
spread (suc k) (suc pool) rest =
    let left = drop buf_len rest in
    let more = spread k pool left in
    if is_empty left
    then some (rest ∷ [], pool)
    else elim more [ none ↦ none | some found ↦ some (take buf_len rest ∷ found.0, found.1) ]

-- Bytes written behind the last buffer.
unfoldable pub behind :
    (rounds : ℕ) → (pool : ℕ) → List (List ℕ) → List ℕ → Option (List (List ℕ) × ℕ)
behind k pool [] rest = spread k pool rest
behind k pool (last ∷ []) rest =
    let size = min (buf_len - length last) (length rest) in
    let full = last ++ take size rest in
    let left = drop size rest in
    let more = spread k pool left in
    if is_empty left
    then some (full ∷ [], pool)
    else elim more [ none ↦ none | some found ↦ some (full ∷ found.0, found.1) ]
behind k pool (first ∷ second ∷ others) rest = elim (behind k pool (second ∷ others) rest) [
  | none ↦ none
  | some found ↦ some (first ∷ found.0, found.1)
]

-- What `::send` takes of so many bytes: the errors EAGAIN and EINTR take none, and another error is none.
-- A result 0, which `::send` gives for no bytes alone, is like EAGAIN here, where the source looks at
-- an old errno; net_send_ser and net_send_cli send no empty package.
abbrev pub took : Event → ℕ → Option ℕ
took (moved n) len = some (min n len)
took again len = some 0
took interrupted len = some 0
took failed len = none

abbrev pub queued : Linker → List ℕ → Option (List (List ℕ) × ℕ) → Option Linker
queued l wire none = none
queued l wire (some found) = some (record l { buffers = found.0; pool = found.1; wire = wire })

abbrev pub send_now : Linker → List ℕ → Option ℕ → Option Linker
send_now l buf none = none
send_now l buf (some r) =
    let rest = spread (length buf + 1) l.pool (drop r buf) in
    if r == length buf
    then some (record l { wire = l.wire ++ buf })
    else queued l (l.wire ++ take r buf) rest

-- `send_pkg`; none where it ends in handle_error, which closes the link.
unfoldable pub send_pkg : Event → List ℕ → Linker → Option Linker
send_pkg e buf l =
    if is_empty l.buffers
    then send_now l buf (took e (length buf))
    else queued l l.wire (behind (length buf + 1) l.pool l.buffers buf)

-- The end of handle_output: false where the link was shut while bytes waited.
abbrev pub drained : Linker → Option Linker
drained l = if l.is_closed then none else some l

-- The front buffer after `r` more bytes of it were taken.
abbrev pub after_send : ℕ → List ℕ → List (List ℕ) → Linker → Linker
after_send r b bs l =
    let wire = l.wire ++ take r (drop l.send_pos b) in
    if l.send_pos + r == length b
    then record l { buffers = bs; send_pos = 0; pool = suc l.pool; wire = wire }
    else record l { send_pos = l.send_pos + r; wire = wire }

-- The loop of handle_output on the answers of `::send`, EAGAIN behind the last; none where it
-- returns false, upon which the reactor closes the link.
unfoldable pub output_loop : List Event → List (List ℕ) → Linker → Option Linker
output_loop es [] l = drained l
output_loop [] (b ∷ bs) l = some l
output_loop (moved n ∷ es) (b ∷ bs) l =
    let r = min n (length b - l.send_pos) in
    let l1 = after_send r b bs l in
    let rest = output_loop es l1.buffers l1 in if r == 0 then none else rest
output_loop (again ∷ es) (b ∷ bs) l = some l
output_loop (interrupted ∷ es) (b ∷ bs) l = some l
output_loop (failed ∷ es) (b ∷ bs) l = none

abbrev pub handle_output : List Event → Linker → Option Linker
handle_output es l = output_loop es l.buffers l

-- `shut`: at once where nothing waits, and else when all of it is sent.
abbrev pub shut : Linker → Option Linker
shut l = if is_empty l.buffers then none else some (record l { is_closed = true })
