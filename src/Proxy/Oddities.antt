-- ===== src/Proxy/Oddities.antt =====
-- A change of the master in proxy.cpp, and DropAttention of buf_processor.cpp without a group.
use friend_serv.Base.{ℕ, ◌≡◌, refl, some, List, [], ◌∷◌, ◌++◌}
use friend_serv.Proxy.Redis.{Redis, Conn, Command, Reply, get_reply}
use friend_serv.Proxy.Packet.{Session, Packet, Header, init}
use friend_serv.Proxy.Attention.{Junk, drop_attention, checked, replied}
use friend_serv.Proxy.Replies.{on}
use friend_serv.Proxy.Dispatch.{Request, World, cast, process, proc_pkg_cli, c_address}

-- A change of the master to a server that can be reached replaces the connection and leaves the
-- length of the answer at 0, so that no byte is sent to the client.
pub master_change_silent :
    (redis : Redis) (w : World) (c c' : Conn) (h : Header) (body ip nip : List ℕ) (port len : ℕ)
    → cast h.cmd_id body ≡ some (Request.master_change_cmd port len ip)
    → c_address ip len ≡ some nip
    → w.reinit nip port ≡ some c'
    → (s : Session) × (proc_pkg_cli redis w c h body ≡ some s) × (s.conn ≡ c') × (s.out.pkg_len ≡ 0)
unfolding proc_pkg_cli process
master_change_silent redis w c c' h body ip nip port len e a r =
    rw (e, a, r) (record { conn = c'; out = init h }, refl, refl, refl)

-- A server that answers every command.
abbrev pub always : (List Command → Command → Reply) → Redis
always answer h cmd = some (answer h cmd)

-- Where redis does not know the relation, so that HGET is answered by nil, DropAttention goes on and
-- names the group by what its array on the stack held before; the last two commands end in values
-- that it does not pass.
pub drop_attention_unknown :
    (answer : List Command → Command → Reply) (junk : Junk) (h : List Command) (l : ℕ)
    (out : Packet) (f_mid : ℕ)
    → let mid = out.user_id in
      let h1 = h ++ Command.drop_attention_1 mid f_mid ∷ [] in
      let h2 = h1 ++ Command.drop_attention_2 mid junk.stale f_mid ∷ [] in
      let h3 = h2 ++ Command.drop_attention_3 mid f_mid ∷ [] in
      let h4 = h3 ++ Command.drop_attention_4 mid f_mid junk.stray_4 ∷ [] in
      answer h (Command.drop_attention_1 mid f_mid) ≡ Reply.nil
      → (s : Session) × (drop_attention (always answer) junk (on h [] l out) f_mid ≡ some s)
        × (s.conn.history ≡ h4 ++ Command.drop_attention_5 f_mid mid junk.stray_5 ∷ [])
unfolding checked replied get_reply
drop_attention_unknown answer junk h l out f_mid e = rw e (_, refl, refl)
