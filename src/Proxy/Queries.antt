-- ===== src/Proxy/Queries.antt =====
-- How the queries of buf_processor.cpp end.
use friend_serv.Base.{
  ℕ, ◌+◌, ◌%◌, ◌^◌, ◌≡◌, refl, inl, Option, none, some, List, [], ◌∷◌, arith, length, length-append,
  ap,
}
use friend_serv.Proxy.Redis.{Redis, Conn, Command, Reply}
use friend_serv.Proxy.Packet.{Packet, finish, u32}
use friend_serv.Proxy.Query.{
  as_session, group_infos, group_answer, query_group, idol_infos, idol_count, idol_answer,
  idol_reply, relation_answer, query_relation, mimi_ids, feed_answer, query_feed_mimi_id, bit,
}
use friend_serv.Proxy.Replies.{on, AllOf, IsLaidOut, IsBlank, replied_lem}
use friend_serv.Proxy.Ends.{Ends, gone-Ends, blank-IsLaidOut}
use friend_serv.Proxy.Answers.{
  OnPacket, put-OnPacket, counted-OnPacket, group_infos-IsLaidOut, idol_infos-IsLaidOut,
  mimi_ids-IsLaidOut,
}

group_answer-IsLaidOut :
    (r : Reply) (p : Packet) → IsLaidOut p → OnPacket IsLaidOut (group_answer r p)
group_answer-IsLaidOut (Reply.integer n) p out = out
group_answer-IsLaidOut (Reply.string t) p out = out
group_answer-IsLaidOut (Reply.status t) p out = out
group_answer-IsLaidOut (Reply.array names) p out =
    counted-OnPacket IsLaidOut _ 4 p (group_infos names) refl out (group_infos-IsLaidOut names)
group_answer-IsLaidOut Reply.nil p out = out
group_answer-IsLaidOut (Reply.error t) p out = out

idol_answer-IsLaidOut :
    (count : ℕ) (r : Reply) (p : Packet) → IsLaidOut p → OnPacket IsLaidOut (idol_answer count r p)
idol_answer-IsLaidOut count (Reply.integer n) p out = out
idol_answer-IsLaidOut count (Reply.string t) p out = out
idol_answer-IsLaidOut count (Reply.status t) p out = out
idol_answer-IsLaidOut count (Reply.array xs) p out =
    counted-OnPacket IsLaidOut _ 4 p (idol_infos (idol_count count xs) 0 xs) refl out
      (idol_infos-IsLaidOut (idol_count count xs) 0 xs)
idol_answer-IsLaidOut count Reply.nil p out = out
idol_answer-IsLaidOut count (Reply.error t) p out = out

module _ (redis : Redis) (l : ℕ) where
  feed_answer-IsLaidOut :
      (r : Reply) (p : Packet) → IsBlank p → OnPacket IsLaidOut (feed_answer r (finish p))
  feed_answer-IsLaidOut (Reply.integer n) p b = blank-IsLaidOut redis l p b
  feed_answer-IsLaidOut (Reply.string t) p b = blank-IsLaidOut redis l p b
  feed_answer-IsLaidOut (Reply.status t) p b = blank-IsLaidOut redis l p b
  feed_answer-IsLaidOut (Reply.array xs) p b =
      let num = length xs % 2 ^ 32 in
      put-OnPacket IsLaidOut (u32 num) _ (mimi_ids num 0 xs) (λ room.
        mimi_ids-IsLaidOut num 0 xs _ (omega (arith, ap length b, length-append p.body (u32 num)))
          (omega (arith, room, length-append p.body (u32 num))))
  feed_answer-IsLaidOut Reply.nil p b = blank-IsLaidOut redis l p b
  feed_answer-IsLaidOut (Reply.error t) p b = blank-IsLaidOut redis l p b

  as_session-Ends :
      (k : ℕ) (c : Conn) (o : Option Packet)
      → c.pending ≡ []
      → c.live ≡ l + k
      → OnPacket IsLaidOut o
      → AllOf (Ends redis k l) (as_session c o)
  as_session-Ends k c none e f out = tt
  as_session-Ends k c (some p) e f out = (out, inl (e, f))

  pub query_group-Ends :
      (h : List Command) (out : Packet)
      → IsBlank out
      → AllOf (Ends redis 0 l) (query_group redis (on h [] l out))
  query_group-Ends h out b =
      replied_lem redis (AllOf (Ends redis 0 l)) h _ [] l out _ (gone-Ends redis l 0 h _ [] out b)
        (λ r e.
          as_session-Ends 0 _ _ refl (omega arith)
            (group_answer-IsLaidOut r (finish out) (blank-IsLaidOut redis l out b)))

  pub idol_reply-Ends :
      (h : List Command) (cmd : Command) (count : ℕ) (out : Packet)
      → IsBlank out
      → AllOf (Ends redis 1 l) (idol_reply redis count (on h (cmd ∷ []) l out))
  unfolding idol_reply
  idol_reply-Ends h cmd count out b =
      replied_lem redis (AllOf (Ends redis 1 l)) h cmd [] l out _
        (gone-Ends redis l 1 h cmd [] out b)
        (λ r e.
          as_session-Ends 1 _ _ refl (omega arith)
            (idol_answer-IsLaidOut count r (finish out) (blank-IsLaidOut redis l out b)))

  relation_answer-IsLaidOut :
      (n : ℕ) (p : Packet)
      → IsBlank p
      → p.status_code ≡ 0
      → OnPacket IsLaidOut (relation_answer n p)
  relation_answer-IsLaidOut n p b z = put-OnPacket IsLaidOut (n % 256 ∷ []) p _ (λ room. rw z (
    omega (arith, ap length b, length-append p.body (n % 256 ∷ [])),
    omega (arith, room, length-append p.body (n % 256 ∷ [])),
  ))

  pub query_relation-Ends :
      (h : List Command) (out : Packet) (f_mid : ℕ)
      → IsBlank out
      → out.status_code ≡ 0
      → AllOf (Ends redis 0 l) (query_relation redis (on h [] l out) f_mid)
  query_relation-Ends h out f_mid b z =
      replied_lem redis (AllOf (Ends redis 0 l)) h _ _ l out _ (gone-Ends redis l 0 h _ _ out b)
        (λ r e.
          replied_lem redis (AllOf (Ends redis 0 l)) _ _ [] l out _
            (gone-Ends redis l 0 _ _ [] out b)
            (λ r' e'.
              as_session-Ends 0 _ _ refl (omega arith)
                (relation_answer-IsLaidOut (bit 1 r + bit 2 r') out b z)))

  pub query_feed_mimi_id-Ends :
      (h : List Command) (out : Packet) (begin end count : ℕ)
      → IsBlank out
      → AllOf (Ends redis 0 l) (query_feed_mimi_id redis (on h [] l out) begin end count)
  query_feed_mimi_id-Ends h out begin end count b =
      replied_lem redis (AllOf (Ends redis 0 l)) h _ [] l out _ (gone-Ends redis l 0 h _ [] out b)
        (λ r e. as_session-Ends 0 _ _ refl (omega arith) (feed_answer-IsLaidOut r out b))
