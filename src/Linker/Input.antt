-- ===== src/Linker/Input.antt =====
-- `handle_input` of `c_tcp_linker` in async-server/src/tcp_linker.cpp: the stream cut into packages.
-- `c_tcp_socket` in tcp_socket.cpp cuts its stream by the same text; what becomes of a package is a
-- parameter, over a state that it may change.
use friend_serv.Base.{
  ℕ, zero, suc, ◌+◌, ◌-◌, Bool, true, false, not, ◌&&◌, List, [], ◌∷◌, ◌++◌, ◌==◌, leb, ltb,
  if◌then◌else◌, length, take, drop, min,
}
use friend_serv.TcpClient.{Event, moved, again, interrupted, failed}
use friend_serv.Linker.{is_empty}

-- `bytes` are the first m_recv_pos bytes of m_recv_buf, `size` is m_recv_buf_size, `packages` are the
-- packages taken out so far, and `world` is what they changed.
pub record Receiver (W : Type 0) : Type 0 where
  pub bytes : List ℕ
  pub size : ℕ
  pub packages : List (List ℕ)
  pub world : W

-- The plugin and the memory: get_pkg_len_ser, g_max_pkg_len, whether realloc gives so many bytes,
-- and what a package changes, with whether the link is still up behind it. That is proc_pkg_ser.
pub record Plugin (W : Type 0) : Type 0 where
  pub pkg_len : List ℕ → ℕ
  pub max_pkg_len : ℕ
  pub realloc : ℕ → Bool
  pub deliver : List ℕ → W → Bool × W

-- handle_input returns true with the link up, or ends with the link gone in a package, or returns
-- false; and the end of the rounds.
pub data Read (W : Type 0) : Type 0 where
  up : Receiver W → Read W
  gone error : List (List ℕ) → W → Read W
  no_rounds : Read W

module _ {W : Type 0} where
  -- MOVE.
  abbrev pub move : List ℕ → ℕ → List (List ℕ) → W → Read W
  move rest size packages w =
      up (record { bytes = rest; size = size; packages = packages; world = w })

  -- READ, at the bytes `rest` from `pos` on; `first` is `pos == 0`.
  unfoldable pub read :
      Plugin W → (rounds : ℕ) → (first : Bool) → List ℕ → ℕ → List (List ℕ) → W → Read W
  read p zero first rest size packages w = no_rounds
  read p (suc k) first rest size packages w =
      let len = p.pkg_len rest in
      let pkg = take len rest in
      let left = drop len rest in
      let (stays, w') = p.deliver pkg w in
      let more = read p k false left size (packages ++ pkg ∷ []) w' in
      if ltb p.max_pkg_len len
      then error packages w
      else if len == 0
      then if first && (length rest == size) then error packages w else move rest size packages w
      else if first && ltb size len
      then if p.realloc len then move rest len packages w else error packages w
      else if leb len (length rest)
      then if not stays
        then gone (packages ++ pkg ∷ []) w'
        else if is_empty left
        then move [] size (packages ++ pkg ∷ []) w'
        else more
      else move rest size packages w

  -- The bytes that `recv` put behind those held, at least one and no more than there is room for.
  abbrev pub received : Plugin W → List ℕ → Receiver W → Read W
  received p chunk r =
      let all = r.bytes ++ chunk in read p (length all + 1) true all r.size r.packages r.world

  -- The length asked of `recv`.
  abbrev pub room : Receiver W → ℕ
  room r = r.size - length r.bytes

  -- handle_input on the answer of `::recv` and the bytes that the peer sent; `closed` is m_is_closed.
  unfoldable pub handle_input : Plugin W → Event → (closed : Bool) → List ℕ → Receiver W → Read W
  handle_input p (moved n) closed stream r =
      let chunk = take (min n (room r)) stream in
      if is_empty chunk
      then error r.packages r.world
      else if closed
      then up (record r { bytes = [] })
      else received p chunk r
  handle_input p again closed stream r = up r
  handle_input p interrupted closed stream r = up r
  handle_input p failed closed stream r = error r.packages r.world
