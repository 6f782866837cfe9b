-- ===== src/Proxy/Pipeline.antt =====
-- What `ProcPkgCli` of async-proxy/src/proxy.cpp leaves of the connection to redis, and the length
-- of its answer, for every request.
use friend_serv.Base.{
  ℕ, ◌+◌, ◌≤◌, ◌≡◌, refl, ◌⊎◌, inl, inr, Bool, true, false, Option, none, some, List, [], arith,
  length, ◌>>=◌, le→ltb, ap, sym, subst, ◌*◌,
}
use friend_serv.Proxy.Redis.{Redis, Conn, Command}
use friend_serv.Proxy.Packet.{
  Session, Packet, Header, init, max_buf_len, get_error, param_err, c_name,
}
use friend_serv.Proxy.Replies.{on, AllOf, Lost, IsLaidOut, IsBlank}
use friend_serv.Proxy.Ends.{
  Ends, named-Ends, add_attention-Ends, drop_attention-Ends, unchecked-Ends, blank-IsLaidOut,
}
use friend_serv.Proxy.Queries.{
  query_group-Ends, idol_reply-Ends, query_relation-Ends, query_feed_mimi_id-Ends,
}
use friend_serv.Proxy.Dispatch.{Request, World, cast, process, limit, proc_pkg_cli}

abbrev pub is_master_change : Request → Bool
is_master_change (Request.master_change_cmd port len ip) = true
is_master_change _ = false

-- The replies that a request does not free.
abbrev pub leaks : Request → ℕ
leaks (Request.query_idol_list_cmd user_id offset count) = 1
leaks (Request.query_idol_by_group_cmd offset count len gname) = 1
leaks (Request.query_fans_cmd user_id offset count) = 1
leaks _ = 0

process-Ends :
    (redis : Redis) (w : World) (h : List Command) (l : ℕ) (out : Packet) (req : Request)
    → is_master_change req ≡ false
    → IsBlank out
    → out.status_code ≡ 0
    → AllOf (Ends redis (leaks req) l) (process redis w (on h [] l out) req)
unfolding process
process-Ends redis w h l out (Request.add_attention_cmd m_id type len gname) m b z =
    add_attention-Ends redis l h out w.tm m_id type len gname b
process-Ends redis w h l out (Request.drop_attention_cmd m_id) m b z =
    drop_attention-Ends redis l h out w.junk m_id b
process-Ends redis w h l out (Request.add_group_cmd len gname) m b z =
    named-Ends redis l 0 (c_name gname len) _ (λ name. unchecked-Ends redis l h _ out b)
process-Ends redis w h l out (Request.drop_group_cmd len gname) m b z =
    named-Ends redis l 0 (c_name gname len) _ (λ name. unchecked-Ends redis l h _ out b)
process-Ends redis w h l out Request.query_group_cmd m b z = query_group-Ends redis l h out b
process-Ends redis w h l out (Request.query_idol_list_cmd user_id offset count) m b z =
    idol_reply-Ends redis l h _ count out b
process-Ends redis w h l out (Request.query_idol_by_group_cmd offset count len gname) m b z =
    named-Ends redis l 1 (c_name gname len) _ (λ name. idol_reply-Ends redis l h _ count out b)
process-Ends redis w h l out (Request.query_fans_cmd user_id offset count) m b z =
    idol_reply-Ends redis l h _ count out b
process-Ends redis w h l out (Request.query_relation_cmd m_id) m b z =
    query_relation-Ends redis l h out m_id b z
process-Ends redis w h l out (Request.feed_mimiid_update_cmd timer) m b z =
    unchecked-Ends redis l h _ out b
process-Ends redis w h l out (Request.feed_mimiid_query_cmd begin end count) m b z =
    query_feed_mimi_id-Ends redis l h out begin end count b
process-Ends redis w h l out (Request.master_change_cmd port len ip) m b z = absurd (grind arith)
process-Ends redis w h l out Request.invalid_cmd m b z =
    let q = get_error param_err out in (blank-IsLaidOut redis l out b, inl (refl, omega arith))

limit-IsLaidOut : (p : Packet) → IsLaidOut p → limit p ≡ p
limit-IsLaidOut p out = rw (le→ltb max_buf_len p.pkg_len (omega (arith, out))) refl

limited :
    (redis : Redis) (k l : ℕ) (o : Option Session)
    → AllOf (Ends redis k l) o
    → AllOf (Ends redis k l) (o >>= (λ s. some (record s { out = limit s.out })))
limited redis k l none e = tt
limited redis k l (some s) e = rw (limit-IsLaidOut s.out e.0) e

proc_pkg_cli-Ends :
    (redis : Redis) (w : World) (c : Conn) (h : Header) (body : List ℕ) (req : Request)
    → cast h.cmd_id body ≡ some req
    → is_master_change req ≡ false
    → c.pending ≡ []
    → AllOf (Ends redis (leaks req) c.live) (proc_pkg_cli redis w c h body)
unfolding proc_pkg_cli
proc_pkg_cli-Ends redis w c h body req e m p =
    let c' : c ≡ record { history = c.history; pending = []; live = c.live } =
      ap (λ cmds. record { history = c.history; pending = cmds; live = c.live }) p in
    let ends = process-Ends redis w c.history c.live (init h) req m refl refl in
    rw e (
      subst
        (λ c1. AllOf (Ends redis (leaks req) c.live) (
          process redis w (record { conn = c1; out = init h }) req
          >>= (λ s. some (record s { out = limit s.out }))))
        (sym c') (limited redis (leaks req) c.live _ ends))

implies :
    (P Q : Session → Type 0) (o : Option Session)
    → ((s : Session) → P s → Q s)
    → AllOf P o
    → AllOf Q o
implies P Q none f p = tt
implies P Q (some s) f p = f s p

-- Every command that was sent has its reply read, or the server is gone and the answer says so.
abbrev pub InStep : Redis → Session → Type 0
InStep redis s =
    (s.conn.pending ≡ []) ⊎ ((s.out.status_code ≡ 1003) × (s.out.body ≡ []) × Lost redis s.conn)

-- The header counts the bytes written, they fit, and the test of the length lets them pass.
abbrev pub IsSized : Session → Type 0
IsSized s =
    (s.out.pkg_len ≡ 18 + length s.out.body)
    × (18 + length s.out.body ≤ 1024 * 1024)
    × (limit s.out ≡ s.out)

-- All but `k` of the replies that came are freed.
abbrev pub Holds : Redis → (l k : ℕ) → Session → Type 0
Holds redis l k s = (s.conn.live ≡ l + k) ⊎ (Lost redis s.conn × (s.conn.live ≡ l))

module _ (redis : Redis) (w : World) (c : Conn) (h : Header) (body : List ℕ) (req : Request)
    (e : cast h.cmd_id body ≡ some req) (m : is_master_change req ≡ false)
    (p : c.pending ≡ []) where
  -- From a connection with no unread reply, every request but the change of the master that does
  -- not leave the bounds of memory reads one reply for each command that it sends; otherwise the
  -- next reply does not come, and the answer is FEED_REDIS_ERR with no body.
  pub proc_pkg_cli-InStep : AllOf (InStep redis) (proc_pkg_cli redis w c h body)
  proc_pkg_cli-InStep =
      implies (Ends redis (leaks req) c.live) (InStep redis) (proc_pkg_cli redis w c h body)
        (λ s ends. elim ends.1 [ inl d ↦ inl d.0 | inr lost ↦ inr (lost.0, lost.1, lost.2) ])
        (proc_pkg_cli-Ends redis w c h body req e m p)

  -- From a connection with no unread reply, for every request but the change of the master that
  -- does not leave the bounds of memory: the length in the header of the answer is that of the header and the
  -- body written, and no more than MAX_BUF_LEN: the test of the length in ProcPkgCli never fires.
  pub answer_length : AllOf IsSized (proc_pkg_cli redis w c h body)
  answer_length =
      implies (Ends redis (leaks req) c.live) IsSized (proc_pkg_cli redis w c h body)
        (λ s ends. (ends.0.0, ends.0.1, limit-IsLaidOut s.out ends.0))
        (proc_pkg_cli-Ends redis w c h body req e m p)

  -- From a connection with no unread reply, for every request but the change of the master that
  -- does not leave the bounds of memory: every reply that came is freed, but that QueryList, QueryListByGroup and
  -- QueryFansList keep the one reply that they read.
  pub replies_freed : AllOf (Holds redis c.live (leaks req)) (proc_pkg_cli redis w c h body)
  replies_freed =
      implies (Ends redis (leaks req) c.live) (Holds redis c.live (leaks req))
        (proc_pkg_cli redis w c h body)
        (λ s ends. elim ends.1 [ inl d ↦ inl d.1 | inr lost ↦ inr (lost.2, lost.3) ])
        (proc_pkg_cli-Ends redis w c h body req e m p)
