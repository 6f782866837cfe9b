-- ===== src/Proxy/Dispatch.antt =====
-- `ProcPkgCli` of async-proxy/src/proxy.cpp: the cast of a request by its cmd_id and the dispatch.
use friend_serv.Base.{
  ◌>>=◌, ℕ, ◌+◌, ◌-◌, ◌++◌, ◌*◌, ◌^◌, Option, none, some, List, ◌==◌, ltb, if◌then◌else◌, length,
  take, drop, get_elem?, leb,
}
use friend_serv.Proxy.Redis.{Redis, Conn}
use friend_serv.Proxy.Packet.{
  Session, Packet, Header, init, get_error, sys_err, param_err, max_buf_len, c_string, zeros,
}
use friend_serv.Proxy.Attention.{
  Junk, add_attention, drop_attention, add_group, drop_group, update_feed_mimi_id,
}
use friend_serv.Proxy.Query.{
  query_group, query_list, query_list_by_group, query_fans_list, query_relation, query_feed_mimi_id,
}

-- The request structures of proto.h; the bytes behind the fields are the name.
pub data Request : Type 0 where
  add_attention_cmd : (m_id type len : ℕ) → List ℕ → Request
  drop_attention_cmd : (m_id : ℕ) → Request
  add_group_cmd : (len : ℕ) → List ℕ → Request
  drop_group_cmd : (len : ℕ) → List ℕ → Request
  query_group_cmd : Request
  query_idol_list_cmd : (user_id offset count : ℕ) → Request
  query_idol_by_group_cmd : (offset count len : ℕ) → List ℕ → Request
  query_fans_cmd : (user_id offset count : ℕ) → Request
  query_relation_cmd : (m_id : ℕ) → Request
  feed_mimiid_update_cmd : (timer : ℕ) → Request
  feed_mimiid_query_cmd : (begin end count : ℕ) → Request
  master_change_cmd : (port len : ℕ) → List ℕ → Request
  invalid_cmd : Request

-- A field of a packed structure in the host's byte order; none past the end of the packet.
abbrev pub field16 : List ℕ → ℕ → Option ℕ
field16 body i = do a ← get_elem? body i; b ← get_elem? body (i + 1); some (a + b * 256)

abbrev pub field32 : List ℕ → ℕ → Option ℕ
field32 body i = do low ← field16 body i; high ← field16 body (i + 2); some (low + high * 2 ^ 16)

abbrev pub with_name : (at : ℕ) → (ℕ → List ℕ → Request) → List ℕ → Option Request
with_name at req body = do len ← field32 body at; some (req len (drop (at + 4) body))

abbrev pub with_range : (ℕ → ℕ → ℕ → Request) → List ℕ → Option Request
with_range req body = do
  a ← field32 body 0
  b ← field32 body 4
  c ← field32 body 8
  some (req a b c)

abbrev pub add_attention_req : List ℕ → Option Request
add_attention_req body = do
  m_id ← field32 body 0
  type ← field16 body 4
  with_name 6 (Request.add_attention_cmd m_id type) body

abbrev pub by_group_req : List ℕ → Option Request
by_group_req body = do
  offset ← field32 body 0
  count ← field32 body 4
  with_name 8 (Request.query_idol_by_group_cmd offset count) body

abbrev pub master_change_req : List ℕ → Option Request
master_change_req body = do port ← field32 body 0; with_name 4 (Request.master_change_cmd port) body

abbrev pub with_id : (ℕ → Request) → List ℕ → Option Request
with_id req body = do id ← field32 body 0; some (req id)

-- The tests on `cmd_id`, in their order, with the cast of the body that the chosen handler does.
unfoldable pub cast : (cmd_id : ℕ) → List ℕ → Option Request
cast cmd_id body =
    if cmd_id == 45057
    then add_attention_req body
    else if cmd_id == 45058
    then with_id Request.drop_attention_cmd body
    else if cmd_id == 45059
    then with_name 0 Request.add_group_cmd body
    else if cmd_id == 45060
    then with_name 0 Request.drop_group_cmd body
    else if cmd_id == 45313
    then some Request.query_group_cmd
    else if cmd_id == 45314
    then with_range Request.query_idol_list_cmd body
    else if cmd_id == 45315
    then by_group_req body
    else if cmd_id == 45316
    then with_range Request.query_fans_cmd body
    else if cmd_id == 45317
    then with_id Request.query_relation_cmd body
    else if cmd_id == 41217
    then with_id Request.feed_mimiid_update_cmd body
    else if cmd_id == 41218
    then with_range Request.feed_mimiid_query_cmd body
    else if cmd_id == 40961
    then master_change_req body
    else some Request.invalid_cmd

-- What a request depends on besides the connection: the clock, uninitialised memory, and
-- `RedisMasterInfo::ReInit`, which is not in the repository and gives the connection to the new
-- master, or none for -1.
pub record World : Type 0 where
  pub tm : ℕ
  pub junk : Junk
  pub reinit : List ℕ → ℕ → Option Conn

-- `char nip[16]` and the copy of the address into it.
unfoldable pub c_address : List ℕ → ℕ → Option (List ℕ)
c_address p len =
    if leb len 16
    then if leb len (length p) then c_string (take len p ++ zeros (16 - len)) else none
    else none

abbrev pub changed : Session → Option Conn → Session
changed s none = record s { out = get_error param_err s.out }
changed s (some c) = record s { conn = c }

abbrev pub master_change : World → Session → (port len : ℕ) → List ℕ → Option Session
master_change w s port len ip = do nip ← c_address ip len; some (changed s (w.reinit nip port))

-- The handler that the request is dispatched to.
unfoldable pub process : Redis → World → Session → Request → Option Session
process redis w s (Request.add_attention_cmd m_id type len gname) =
    add_attention redis w.tm s m_id type len gname
process redis w s (Request.drop_attention_cmd m_id) = drop_attention redis w.junk s m_id
process redis w s (Request.add_group_cmd len gname) = add_group redis w.tm s len gname
process redis w s (Request.drop_group_cmd len gname) = drop_group redis s len gname
process redis w s Request.query_group_cmd = query_group redis s
process redis w s (Request.query_idol_list_cmd user_id offset count) =
    query_list redis s user_id offset count
process redis w s (Request.query_idol_by_group_cmd offset count len gname) =
    query_list_by_group redis s offset count len gname
process redis w s (Request.query_fans_cmd user_id offset count) =
    query_fans_list redis s user_id offset count
process redis w s (Request.query_relation_cmd m_id) = query_relation redis s m_id
process redis w s (Request.feed_mimiid_update_cmd timer) = update_feed_mimi_id redis s timer
process redis w s (Request.feed_mimiid_query_cmd begin end count) =
    query_feed_mimi_id redis s begin end count
process redis w s (Request.master_change_cmd port len ip) = master_change w s port len ip
process redis w s Request.invalid_cmd = some (record s { out = get_error param_err s.out })

-- The test of the length of the answer behind the dispatch.
abbrev pub limit : Packet → Packet
limit p = if ltb max_buf_len p.pkg_len then get_error sys_err p else p

-- The connection and the answer that a request leaves; none where memory is used out of bounds.
unfoldable pub proc_pkg_cli : Redis → World → Conn → Header → List ℕ → Option Session
proc_pkg_cli redis w c h body = do
  req ← cast h.cmd_id body
  s ← process redis w (record { conn = c; out = init h }) req
  some (record s { out = limit s.out })
