-- ===== src/Proxy/Replies.antt =====
-- What one `redisGetReply` of buf_processor.cpp does to the connection and the answer.
use friend_serv.Base.{
  ℕ, suc, ◌+◌, ◌≤◌, ◌≡◌, inl, inr, Option, none, some, List, [], ◌∷◌, ◌++◌, arith, length,
  Option-cases, Bool-cases,
}
use friend_serv.Proxy.Redis.{Redis, Conn, Command, Reply, get_reply}
use friend_serv.Proxy.Packet.{
  Session, Packet, header_size, max_buf_len, get_error, feed_redis_err, check_zset, check_hash_map,
  check_hash_map_del, is_ok,
}
use friend_serv.Proxy.Attention.{replied, checked}

abbrev pub on : List Command → List Command → ℕ → Packet → Session
on history pending live out = record {
  conn = record { history = history; pending = pending; live = live };
  out = out;
}

-- A property of the session that a handler leaves, when it leaves one.
abbrev pub AllOf : (Session → Type 0) → Option Session → Type 0
AllOf P none = Unit
AllOf P (some s) = P s

-- The next reply does not come: the server is gone.
abbrev pub Lost : Redis → Conn → Type 0
Lost redis c =
    (cmd : Command) × (cmds : List Command) × (c.pending ≡ cmd ∷ cmds)
    × (redis c.history cmd ≡ none)

-- The length in the header is the length of the bytes sent, and these fit into the buffer.
abbrev pub IsLaidOut : Packet → Type 0
IsLaidOut p =
    (p.pkg_len ≡ header_size + length p.body) × (header_size + length p.body ≤ max_buf_len)

abbrev pub IsBlank : Packet → Type 0
IsBlank p = p.body ≡ []

pub replied_lem :
    (redis : Redis) (P : Option Session → Type 0) (h : List Command) (cmd : Command)
    (cmds : List Command) (l : ℕ) (out : Packet) (next : Reply → Session → Option Session)
    → (redis h cmd ≡ none → P (some (on h (cmd ∷ cmds) l (get_error feed_redis_err out))))
    → ((r : Reply) → redis h cmd ≡ some r → P (next r (on (h ++ cmd ∷ []) cmds (suc l) out)))
    → P (replied redis next (on h (cmd ∷ cmds) l out))
unfolding replied get_reply
replied_lem redis P h cmd cmds l out next gone came = elim (Option-cases (redis h cmd)) [
  | inl e ↦ rw e (gone e)
  | inr found ↦ rw (found.1) (came found.0 found.1)
]

abbrev pub KeepsBody : (Reply → Packet → Packet) → Type 0
KeepsBody check = (r : Reply) (p : Packet) → IsBlank p → IsBlank (check r p)

pub check_zset-KeepsBody : KeepsBody check_zset
unfolding check_zset
check_zset-KeepsBody (Reply.integer n) p b = ground arith
check_zset-KeepsBody (Reply.string t) p b = b
check_zset-KeepsBody (Reply.status t) p b = b
check_zset-KeepsBody (Reply.array t) p b = b
check_zset-KeepsBody Reply.nil p b = b
check_zset-KeepsBody (Reply.error t) p b = b

pub check_hash_map-KeepsBody : KeepsBody check_hash_map
unfolding check_hash_map
check_hash_map-KeepsBody (Reply.integer n) p b = b
check_hash_map-KeepsBody (Reply.string t) p b = b
check_hash_map-KeepsBody (Reply.status t) p b = elim (Bool-cases (is_ok t)) [
  | inl e ↦ rw e b
  | inr e ↦ rw e b
]
check_hash_map-KeepsBody (Reply.array t) p b = b
check_hash_map-KeepsBody Reply.nil p b = b
check_hash_map-KeepsBody (Reply.error t) p b = b

pub check_hash_map_del-KeepsBody : KeepsBody check_hash_map_del
unfolding check_hash_map_del
check_hash_map_del-KeepsBody (Reply.integer n) p b = ground arith
check_hash_map_del-KeepsBody (Reply.string t) p b = b
check_hash_map_del-KeepsBody (Reply.status t) p b = b
check_hash_map_del-KeepsBody (Reply.array t) p b = b
check_hash_map_del-KeepsBody Reply.nil p b = b
check_hash_map_del-KeepsBody (Reply.error t) p b = b

-- A checked reply goes on with the next command to read, nothing held, and a blank body.
pub checked_lem :
    (redis : Redis) (P : Option Session → Type 0) (h : List Command) (cmd : Command)
    (cmds : List Command) (l : ℕ) (out : Packet) (check : Reply → Packet → Packet)
    (next : Session → Option Session)
    → KeepsBody check
    → IsBlank out
    → (redis h cmd ≡ none → P (some (on h (cmd ∷ cmds) l (get_error feed_redis_err out))))
    → ((p : Packet) → IsBlank p → P (next (on (h ++ cmd ∷ []) cmds l p)))
    → P (checked redis check next (on h (cmd ∷ cmds) l out))
unfolding checked
checked_lem redis P h cmd cmds l out check next keeps blank gone came =
    replied_lem redis P h cmd cmds l out _ gone (λ r e. came (check r out) (keeps r out blank))
