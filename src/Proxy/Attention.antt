-- ===== src/Proxy/Attention.antt =====
-- The requests of buf_processor.cpp that change the relations: attention, groups and feed times.
use friend_serv.Base.{◌>>=◌, ℕ, Option, none, some, List, length}
use friend_serv.Proxy.Redis.{Redis, Command, Reply, append_command, get_reply, free_reply}
use friend_serv.Proxy.Packet.{
  Session, Packet, get_error, finish, feed_redis_err, check_zset, check_hash_map,
  check_hash_map_del, c_name,
}

abbrev pub queue : Command → Session → Session
queue cmd s = record s { conn = append_command cmd s.conn }

-- `redisGetReply` and the return with FEED_REDIS_ERR where the server is gone.
unfoldable pub replied : Redis → (Reply → Session → Option Session) → Session → Option Session
replied redis next s = elim (get_reply redis s.conn) [
  | none ↦ some (record s { out = get_error feed_redis_err s.out })
  | some answer ↦ next answer.0 (record s { conn = answer.1 })
]

-- A reply that is checked, logged and freed.
unfoldable pub checked :
    Redis → (Reply → Packet → Packet) → (Session → Option Session) → Session → Option Session
checked redis check next =
    replied redis (λ r s. next (record { conn = free_reply s.conn; out = check r s.out }))

abbrev pub finished : Session → Option Session
finished s = some (record s { out = finish s.out })

abbrev pub add_attention :
    Redis → (tm : ℕ) → Session → (m_id type len : ℕ) → List ℕ → Option Session
add_attention redis tm s m_id type len gname = c_name gname len >>= (λ name.
    let mid = s.out.user_id in
    let s1 = queue (Command.add_attention_1 mid name tm m_id) s in
    let s2 = queue (Command.add_attention_2 mid m_id name type tm) s1 in
    let s3 = queue (Command.add_attention_3 mid tm m_id) s2 in
    let s4 = queue (Command.add_attention_4 m_id tm mid) s3 in
    checked redis check_zset
      (checked redis check_hash_map (checked redis check_zset (checked redis check_zset finished)))
      s4)

-- What the 64 bytes of `gname` hold before they are written, and the arguments that `printf` finds
-- for the last `%u` of commands 4 and 5, to which the source passes none.
pub record Junk : Type 0 where
  pub stale : List ℕ
  pub stray_4 : ℕ
  pub stray_5 : ℕ

-- The group that the reply to HGET names.
abbrev pub dropped_from : List ℕ → Reply → Option (List ℕ)
dropped_from stale (Reply.string text) = c_name text (length text)
dropped_from stale _ = some stale

abbrev pub drop_attention : Redis → Junk → Session → (f_mid : ℕ) → Option Session
drop_attention redis junk s f_mid =
    let mid = s.out.user_id in
    replied redis
      (λ r s0. dropped_from junk.stale r >>= (λ gname.
        let s1 = record s0 { conn = free_reply s0.conn } in
        let s2 = queue (Command.drop_attention_2 mid gname f_mid) s1 in
        let s3 = queue (Command.drop_attention_3 mid f_mid) s2 in
        let s4 = queue (Command.drop_attention_4 mid f_mid junk.stray_4) s3 in
        let s5 = queue (Command.drop_attention_5 f_mid mid junk.stray_5) s4 in
        checked redis check_zset
          (checked redis check_hash_map_del
            (checked redis check_zset (checked redis check_zset finished)))
          s5))
      (queue (Command.drop_attention_1 mid f_mid) s)

-- A reply that is only logged and freed.
abbrev pub unchecked : Reply → Packet → Packet
unchecked r p = p

abbrev pub add_group : Redis → (tm : ℕ) → Session → (len : ℕ) → List ℕ → Option Session
add_group redis tm s len gname = c_name gname len >>= (λ name.
    checked redis unchecked finished (queue (Command.add_group s.out.user_id tm name) s))

abbrev pub drop_group : Redis → Session → (len : ℕ) → List ℕ → Option Session
drop_group redis s len gname =
    c_name gname len
    >>= (λ name. checked redis unchecked finished (queue (Command.drop_group s.out.user_id name) s))

abbrev pub update_feed_mimi_id : Redis → Session → (timer : ℕ) → Option Session
update_feed_mimi_id redis s timer =
    checked redis unchecked finished (queue (Command.update_feed_time timer s.out.user_id) s)
