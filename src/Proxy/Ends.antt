-- ===== src/Proxy/Ends.antt =====
-- How each request of buf_processor.cpp ends: the commands it sent and the replies it read, the
-- replies it freed, and the length of its answer.
use friend_serv.Base.{
  ℕ, ◌+◌, ◌*◌, ◌≤◌, ◌≡◌, refl, ◌⊎◌, inl, inr, Option, none, some, List, [], ◌∷◌, ◌++◌, arith, ◌>>=◌,
}
use friend_serv.Proxy.Redis.{Redis, Command, Reply}
use friend_serv.Proxy.Packet.{
  Session, Packet, get_error, feed_redis_err, check_zset, check_hash_map, check_hash_map_del,
  c_name, finish,
}
use friend_serv.Proxy.Attention.{checked, finished, unchecked, add_attention, Junk, drop_attention}
use friend_serv.Proxy.Replies.{
  on, AllOf, Lost, IsLaidOut, IsBlank, replied_lem, checked_lem, KeepsBody, check_zset-KeepsBody,
  check_hash_map-KeepsBody, check_hash_map_del-KeepsBody,
}

-- Every reply is read and all but `k` of them are freed; or the server is gone, the answer says so,
-- and every reply that came is freed.
abbrev pub Ends : Redis → (k l : ℕ) → Session → Type 0
Ends redis k l s =
    IsLaidOut s.out
    × (((s.conn.pending ≡ []) × (s.conn.live ≡ l + k))
        ⊎ ((s.out.status_code ≡ 1003) × (s.out.body ≡ []) × Lost redis s.conn × (s.conn.live ≡ l)))

module _ (redis : Redis) (l : ℕ) where
  pub blank-IsLaidOut : (p : Packet) → IsBlank p → IsLaidOut (finish p)
  blank-IsLaidOut p b = rw b (let e : 18 ≤ 1024 * 1024 = omega arith in (refl, e))

  pub gone-Ends :
      (k : ℕ) (h : List Command) (cmd : Command) (cmds : List Command) (out : Packet)
      → IsBlank out
      → redis h cmd ≡ none
      → AllOf (Ends redis k l) (some (on h (cmd ∷ cmds) l (get_error feed_redis_err out)))
  gone-Ends k h cmd cmds out b e =
      (blank-IsLaidOut out b, inr (refl, b, (cmd, cmds, refl, e), refl))

  pub finished-Ends :
      (h : List Command) (p : Packet) → IsBlank p → AllOf (Ends redis 0 l) (finished (on h [] l p))
  finished-Ends h p b = (blank-IsLaidOut p b, inl (refl, omega arith))

  pub checked-Ends :
      (h : List Command) (cmd : Command) (cmds : List Command) (out : Packet)
      (check : Reply → Packet → Packet) (next : Session → Option Session)
      → KeepsBody check
      → IsBlank out
      → ((p : Packet) → IsBlank p → AllOf (Ends redis 0 l) (next (on (h ++ cmd ∷ []) cmds l p)))
      → AllOf (Ends redis 0 l) (checked redis check next (on h (cmd ∷ cmds) l out))
  checked-Ends h cmd cmds out check next keeps b =
      checked_lem redis (AllOf (Ends redis 0 l)) h cmd cmds l out check next keeps b
        (gone-Ends 0 h cmd cmds out b)

  pub named-Ends :
      (k : ℕ) (name : Option (List ℕ)) (next : List ℕ → Option Session)
      → ((text : List ℕ) → AllOf (Ends redis k l) (next text))
      → AllOf (Ends redis k l) (name >>= next)
  named-Ends k none next all = tt
  named-Ends k (some text) next all = all text

  pub add_attention-Ends :
      (h : List Command) (out : Packet) (tm m_id type len : ℕ) (gname : List ℕ)
      → IsBlank out
      → AllOf (Ends redis 0 l) (add_attention redis tm (on h [] l out) m_id type len gname)
  add_attention-Ends h out tm m_id type len gname b = named-Ends 0 (c_name gname len) _ (λ name.
      checked-Ends h _ _ out check_zset _ check_zset-KeepsBody b (λ p1 b1.
        checked-Ends _ _ _ p1 check_hash_map _ check_hash_map-KeepsBody b1 (λ p2 b2.
          checked-Ends _ _ _ p2 check_zset _ check_zset-KeepsBody b2 (λ p3 b3.
            checked-Ends _ _ _ p3 check_zset _ check_zset-KeepsBody b3
              (λ p4 b4. finished-Ends _ p4 b4)))))

  pub drop_attention-Ends :
      (h : List Command) (out : Packet) (junk : Junk) (f_mid : ℕ)
      → IsBlank out
      → AllOf (Ends redis 0 l) (drop_attention redis junk (on h [] l out) f_mid)
  drop_attention-Ends h out junk f_mid b =
      replied_lem redis (AllOf (Ends redis 0 l)) h _ _ l out _ (gone-Ends 0 h _ _ out b) (λ r e.
        named-Ends 0 _ _ (λ name.
          checked-Ends _ _ _ out check_zset _ check_zset-KeepsBody b (λ p1 b1.
            checked-Ends _ _ _ p1 check_hash_map_del _ check_hash_map_del-KeepsBody b1 (λ p2 b2.
              checked-Ends _ _ _ p2 check_zset _ check_zset-KeepsBody b2 (λ p3 b3.
                checked-Ends _ _ _ p3 check_zset _ check_zset-KeepsBody b3
                  (λ p4 b4. finished-Ends _ p4 b4))))))

  pub unchecked-Ends :
      (h : List Command) (cmd : Command) (out : Packet)
      → IsBlank out
      → AllOf (Ends redis 0 l) (checked redis unchecked finished (on h (cmd ∷ []) l out))
  unchecked-Ends h cmd out b =
      checked-Ends h cmd [] out unchecked finished (λ r p b'. b') b (λ p b'. finished-Ends _ p b')
