-- ===== src/Proxy/Query.antt =====
-- The requests of buf_processor.cpp that read the relations, with the layout of their answers.
use friend_serv.Base.{
  ◌>>=◌, ℕ, suc, zero, ◌+◌, ◌-◌, ◌*◌, ◌/◌, ◌%◌, ◌^◌, Option, some, List, [], ◌∷◌, ◌++◌, ◌==◌, ltb,
  if◌then◌else◌, length, take, get_elem?,
}
use friend_serv.Base.Words.{add32, sub32}
use friend_serv.Proxy.Redis.{Redis, Conn, Command, Reply, free_reply}
use friend_serv.Proxy.Packet.{
  Session, Packet, header_size, get_error, finish, feed_redis_err, put, grow, u32, atoi, c_name,
}
use friend_serv.Proxy.Attention.{queue, replied}

abbrev pub as_session : Conn → Option Packet → Option Session
as_session c p = p >>= (λ out. some (record { conn = c; out = out }))

-- The loop of QueryGroup: one `group_info` for each element.
unfoldable pub group_infos : List (List ℕ) → Packet → Option Packet
group_infos [] p = some p
group_infos (name ∷ names) p =
    let len = length name % 2 ^ 32 in
    put (u32 len ++ take len name) p >>= (λ p1. group_infos names (grow (4 + len) p1))

abbrev pub group_answer : Reply → Packet → Option Packet
group_answer (Reply.array names) p =
    put (u32 (length names % 2 ^ 32)) p >>= (λ p1. group_infos names (grow 4 p1))
group_answer _ p = some p

abbrev pub query_group : Redis → Session → Option Session
query_group redis s =
    replied redis (λ r s1. as_session (free_reply s1.conn) (group_answer r (finish s1.out)))
      (queue (Command.query_group s.out.user_id) s)

-- The loop of QueryList from index `i` on: `n` pairs of an id and its score.
unfoldable pub idol_infos : (n i : ℕ) → List (List ℕ) → Packet → Option Packet
idol_infos zero i xs p = some p
idol_infos (suc n) i xs p = get_elem? xs (2 * i) >>= (λ id. get_elem? xs (2 * i + 1) >>= (λ time.
    put (u32 (atoi id) ++ u32 (atoi time)) p >>= (λ p1. idol_infos n (i + 1) xs (grow 8 p1))))

-- `res->num`.
abbrev pub idol_count : (count : ℕ) → List (List ℕ) → ℕ
idol_count count xs =
    if count == 0
    then length xs / 2 % 2 ^ 32
    else if ltb (length xs / 2) count
    then length xs / 2
    else count

abbrev pub idol_answer : (count : ℕ) → Reply → Packet → Option Packet
idol_answer count (Reply.array xs) p =
    let num = idol_count count xs in put (u32 num) p >>= (λ p1. idol_infos num 0 xs (grow 4 p1))
idol_answer count _ p = some p

-- The last index of the range, -1 for all of it.
abbrev pub last_index : (offset count : ℕ) → ℕ
last_index offset count = if count == 0 then 2 ^ 32 - 1 else sub32 (add32 offset count) 1

-- The end that QueryList, QueryListByGroup and QueryFansList share: the reply is not freed.
unfoldable pub idol_reply : Redis → (count : ℕ) → Session → Option Session
idol_reply redis count =
    replied redis (λ r s1. as_session s1.conn (idol_answer count r (finish s1.out)))

abbrev pub query_list : Redis → Session → (user_id offset count : ℕ) → Option Session
query_list redis s user_id offset count =
    idol_reply redis count (queue (Command.query_list user_id offset (last_index offset count)) s)

abbrev pub query_list_by_group : Redis → Session → (offset count len : ℕ) → List ℕ → Option Session
query_list_by_group redis s offset count len gname = c_name gname len >>= (λ name.
    idol_reply redis count
      (queue (Command.query_by_group s.out.user_id name offset (last_index offset count)) s))

abbrev pub query_fans_list : Redis → Session → (user_id offset count : ℕ) → Option Session
query_fans_list redis s user_id offset count =
    idol_reply redis count (queue (Command.query_fans user_id offset (last_index offset count)) s)

-- The bit that a rank in the set adds to the relation.
abbrev pub bit : ℕ → Reply → ℕ
bit n (Reply.integer _) = n
bit n _ = 0

-- The end of QueryRelation.
abbrev pub relation_answer : ℕ → Packet → Option Packet
relation_answer relation p =
    put (relation % 256 ∷ []) p
    >>= (λ p1. some (if p1.status_code == 0 then record p1 { pkg_len = header_size + 1 } else p1))

abbrev pub query_relation : Redis → Session → (f_mid : ℕ) → Option Session
query_relation redis s f_mid =
    let mid = s.out.user_id in
    replied redis
      (λ r s1.
        replied redis
          (λ r' s2. as_session (free_reply s2.conn) (relation_answer (bit 1 r + bit 2 r') s2.out))
          (record s1 { conn = free_reply s1.conn }))
      (queue (Command.query_relation_2 mid f_mid) (queue (Command.query_relation_1 mid f_mid) s))

-- The loop of QueryFeedMimiID from index `i` on.
unfoldable pub mimi_ids : (n i : ℕ) → List (List ℕ) → Packet → Option Packet
mimi_ids zero i xs p = some p
mimi_ids (suc n) i xs p =
    get_elem? xs i >>= (λ id. put (u32 (atoi id)) p >>= (λ p1. mimi_ids n (i + 1) xs p1))

abbrev pub feed_answer : Reply → Packet → Option Packet
feed_answer (Reply.array xs) p =
    let num = length xs % 2 ^ 32 in
    put (u32 num) (grow ((num + 1) * 4) p) >>= (λ p1. mimi_ids num 0 xs p1)
feed_answer _ p = some (get_error feed_redis_err p)

abbrev pub query_feed_mimi_id : Redis → Session → (begin end count : ℕ) → Option Session
query_feed_mimi_id redis s begin end count =
    replied redis (λ r s1. as_session (free_reply s1.conn) (feed_answer r (finish s1.out)))
      (queue (Command.query_feed_time end begin count) s)
