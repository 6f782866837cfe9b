-- ===== src/Proxy/Meaning.antt =====
-- What the requests of buf_processor.cpp answer, from the replies of redis.
use friend_serv.Base.{
  ℕ, suc, ◌+◌, ◌%◌, ◌≤◌, ◌≡◌, refl, inl, inr, Bool, true, false, ◌&&◌, Option, some, List, [], ◌∷◌,
  ◌++◌, arith, if◌then◌else◌, ◌==◌, Bool-cases, ap, ◌∙◌,
}
use friend_serv.Proxy.Redis.{Redis, Conn, Command, Reply, get_reply}
use friend_serv.Proxy.Packet.{
  Session, Packet, Header, init, get_error, feed_redis_err, finish, check_zset, check_hash_map,
  is_ok, c_name, put,
}
use friend_serv.Proxy.Attention.{replied, checked, add_attention}
use friend_serv.Proxy.Query.{query_relation, bit, relation_answer, as_session}
use friend_serv.Proxy.Replies.{on}

-- A reply that came goes to the handler.
pub replied-some :
    (redis : Redis) (h : List Command) (cmd : Command) (cmds : List Command) (l : ℕ) (out : Packet)
    (next : Reply → Session → Option Session) (r : Reply)
    → redis h cmd ≡ some r
    → replied redis next (on h (cmd ∷ cmds) l out) ≡ next r (on (h ++ cmd ∷ []) cmds (suc l) out)
unfolding replied get_reply
replied-some redis h cmd cmds l out next r e = rw e refl

checked-some :
    (redis : Redis) (h : List Command) (cmd : Command) (cmds : List Command) (l : ℕ) (out : Packet)
    (check : Reply → Packet → Packet) (next : Session → Option Session) (r : Reply)
    → redis h cmd ≡ some r
    → checked redis check next (on h (cmd ∷ cmds) l out)
      ≡ next (on (h ++ cmd ∷ []) cmds l (check r out))
unfolding checked
checked-some redis h cmd cmds l out check next r e = replied-some redis h cmd cmds l out _ r e

-- The replies that the checks accept.
abbrev is_zadd : Reply → Bool
is_zadd (Reply.integer n) = if n == 1 then true else n == 0
is_zadd _ = false

abbrev is_hmset : Reply → Bool
is_hmset (Reply.status text) = is_ok text
is_hmset _ = false

abbrev marked : Bool → Packet → Packet
marked good p = if good then p else get_error feed_redis_err p

check_zset-marked : (r : Reply) (p : Packet) → check_zset r p ≡ marked (is_zadd r) p
unfolding check_zset
check_zset-marked (Reply.integer n) p = elim (Bool-cases (n == 1)) [
  | inl e ↦ rw e refl
  | inr e ↦ rw e refl
]
check_zset-marked (Reply.string t) p = refl
check_zset-marked (Reply.status t) p = refl
check_zset-marked (Reply.array t) p = refl
check_zset-marked Reply.nil p = refl
check_zset-marked (Reply.error t) p = refl

check_hash_map-marked : (r : Reply) (p : Packet) → check_hash_map r p ≡ marked (is_hmset r) p
unfolding check_hash_map
check_hash_map-marked (Reply.integer n) p = refl
check_hash_map-marked (Reply.string t) p = refl
check_hash_map-marked (Reply.status t) p = refl
check_hash_map-marked (Reply.array t) p = refl
check_hash_map-marked Reply.nil p = refl
check_hash_map-marked (Reply.error t) p = refl

-- The checks one after the other, and the length set at the end.
marked_all :
    (a b c d : Bool) (p : Packet)
    → finish (marked d (marked c (marked b (marked a p))))
      ≡ (if a && b && c && d then finish p else get_error feed_redis_err p)
marked_all true true true true p = refl
marked_all true true true false p = refl
marked_all true true false true p = refl
marked_all true true false false p = refl
marked_all true false true true p = refl
marked_all true false true false p = refl
marked_all true false false true p = refl
marked_all true false false false p = refl
marked_all false true true true p = refl
marked_all false true true false p = refl
marked_all false true false true p = refl
marked_all false true false false p = refl
marked_all false false true true p = refl
marked_all false false true false p = refl
marked_all false false false true p = refl
marked_all false false false false p = refl

all_checked :
    (r1 r2 r3 r4 : Reply) (p : Packet)
    → finish (check_zset r4 (check_zset r3 (check_hash_map r2 (check_zset r1 p)))) ≡ (
        if is_zadd r1 && is_hmset r2 && is_zadd r3 && is_zadd r4
        then finish p
        else get_error feed_redis_err p)
all_checked r1 r2 r3 r4 p =
    rw (check_zset-marked r4, check_zset-marked r3, check_hash_map-marked r2, check_zset-marked r1)
      (marked_all (is_zadd r1) (is_hmset r2) (is_zadd r3) (is_zadd r4) p)

-- Where the server answers the four commands and the name is in bounds, AddAttention reports
-- success when the ZADDs are answered by 0 or 1 and HMSET by OK, and else FEED_REDIS_ERR; one bad
-- reply does not stop the others from being read.
pub add_attention_status :
    (redis : Redis) (tm : ℕ) (h : List Command) (l : ℕ) (out : Packet) (m_id type len : ℕ)
    (gname name : List ℕ) (r1 r2 r3 r4 : Reply)
    → let c1 = Command.add_attention_1 out.user_id name tm m_id in
      let c2 = Command.add_attention_2 out.user_id m_id name type tm in
      let c3 = Command.add_attention_3 out.user_id tm m_id in
      let c4 = Command.add_attention_4 m_id tm out.user_id in
      let h1 = h ++ c1 ∷ [] in
      let h2 = h1 ++ c2 ∷ [] in
      let h3 = h2 ++ c3 ∷ [] in
      c_name gname len ≡ some name
      → redis h c1 ≡ some r1
      → redis h1 c2 ≡ some r2
      → redis h2 c3 ≡ some r3
      → redis h3 c4 ≡ some r4
      → add_attention redis tm (on h [] l out) m_id type len gname
        ≡ some (
            on (h3 ++ c4 ∷ []) [] l (
              if is_zadd r1 && is_hmset r2 && is_zadd r3 && is_zadd r4
              then finish out
              else get_error feed_redis_err out))
add_attention_status redis tm h l out m_id type len gname name r1 r2 r3 r4 e e1 e2 e3 e4 =
    let h1 = h ++ Command.add_attention_1 out.user_id name tm m_id ∷ [] in
    let h2 = h1 ++ Command.add_attention_2 out.user_id m_id name type tm ∷ [] in
    let h3 = h2 ++ Command.add_attention_3 out.user_id tm m_id ∷ [] in
    let h4 = h3 ++ Command.add_attention_4 m_id tm out.user_id ∷ [] in
    let answered : Conn = record { history = h4; pending = []; live = l } in
    rw e (
      checked-some redis h _ _ l out check_zset _ r1 e1
      ∙ checked-some redis h1 _ _ l _ check_hash_map _ r2 e2
      ∙ checked-some redis h2 _ _ l _ check_zset _ r3 e3
      ∙ checked-some redis h3 _ _ l _ check_zset _ r4 e4
      ∙ ap (λ p. some (record { conn = answered; out = p })) (all_checked r1 r2 r3 r4 out))

bit_le : (n : ℕ) (r : Reply) → bit n r ≤ n
bit_le n (Reply.integer k) = omega arith
bit_le n (Reply.string t) = omega arith
bit_le n (Reply.status t) = omega arith
bit_le n (Reply.array t) = omega arith
bit_le n Reply.nil = omega arith
bit_le n (Reply.error t) = omega arith

relation_answer_blank :
    (head : Header) (r1 r2 : Reply)
    → relation_answer (bit 1 r1 + bit 2 r2) (init head)
      ≡ some (record (init head) { pkg_len = 18 + 1; body = (bit 1 r1 + bit 2 r2) ∷ [] })
unfolding put
relation_answer_blank head r1 r2 =
    let small : (bit 1 r1 + bit 2 r2) % 256 ≡ bit 1 r1 + bit 2 r2 =
      omega (arith, bit_le 1 r1, bit_le 2 r2) in
    rw small refl

-- Where the server answers both commands, the answer of QueryRelation is one byte: one if the first
-- reply is a rank, so that the other is followed, plus two if the second is one, so that he follows.
pub query_relation_bits :
    (redis : Redis) (h : List Command) (l : ℕ) (head : Header) (f_mid : ℕ) (r1 r2 : Reply)
    → let c1 = Command.query_relation_1 head.user_id f_mid in
      let c2 = Command.query_relation_2 head.user_id f_mid in
      redis h c1 ≡ some r1
      → redis (h ++ c1 ∷ []) c2 ≡ some r2
      → query_relation redis (on h [] l (init head)) f_mid
        ≡ some (
            on
              ((h ++ c1 ∷ []) ++ c2 ∷ [])
              []
              l
              (record (init head) { pkg_len = 18 + 1; body = (bit 1 r1 + bit 2 r2) ∷ [] }))
query_relation_bits redis h l head f_mid r1 r2 e1 e2 =
    let c1 = Command.query_relation_1 head.user_id f_mid in
    let c2 = Command.query_relation_2 head.user_id f_mid in
    replied-some redis h _ _ l (init head) _ r1 e1
    ∙ replied-some redis _ _ [] l (init head) _ r2 e2
    ∙ ap (as_session (record { history = (h ++ c1 ∷ []) ++ c2 ∷ []; pending = []; live = l }))
        (relation_answer_blank head r1 r2)
