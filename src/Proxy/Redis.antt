-- ===== src/Proxy/Redis.antt =====
-- The pipelined connection to redis that buf_processor.cpp uses through hiredis: commands of
-- async-proxy/src/redis_command.h, and replies that come in the order of the commands.
use friend_serv.Base.{ℕ, suc, zero, Option, none, some, List, [], ◌∷◌, ◌++◌}

-- The commands with the arguments that the source prints into them; strings are lists of bytes.
pub data Command : Type 0 where
  add_attention_1 : (mid : ℕ) (gname : List ℕ) (tm f_mid : ℕ) → Command
  add_attention_2 : (mid f_mid : ℕ) (gname : List ℕ) (type tm : ℕ) → Command
  add_attention_3 : (mid tm f_mid : ℕ) → Command
  add_attention_4 : (f_mid tm mid : ℕ) → Command
  drop_attention_1 : (mid f_mid : ℕ) → Command
  drop_attention_2 : (mid : ℕ) (gname : List ℕ) (f_mid : ℕ) → Command
  drop_attention_3 : (mid f_mid : ℕ) → Command
  drop_attention_4 : (mid f_mid stray : ℕ) → Command
  drop_attention_5 : (f_mid mid stray : ℕ) → Command
  add_group : (mid tm : ℕ) (gname : List ℕ) → Command
  drop_group : (mid : ℕ) (gname : List ℕ) → Command
  query_group : (mid : ℕ) → Command
  query_by_group : (mid : ℕ) (gname : List ℕ) (start stop : ℕ) → Command
  query_list : (mid start stop : ℕ) → Command
  query_fans : (mid start stop : ℕ) → Command
  query_relation_1 : (mid f_mid : ℕ) → Command
  query_relation_2 : (mid f_mid : ℕ) → Command
  update_feed_time : (timer mid : ℕ) → Command
  query_feed_time : (end begin count : ℕ) → Command

pub data Reply : Type 0 where
  integer : ℕ → Reply
  string : List ℕ → Reply
  status : List ℕ → Reply
  array : List (List ℕ) → Reply
  nil : Reply
  error : List ℕ → Reply

-- The server, a parameter: what it answers to a command after the commands answered before, or none
-- where the connection is lost, which `redisGetReply` reports as REDIS_ERR.
abbrev pub Redis : Type 0
Redis = List Command → Command → Option Reply

-- The commands answered, the commands whose reply has not been read, and the replies not freed.
pub record Conn : Type 0 where
  pub history : List Command
  pub pending : List Command
  pub live : ℕ

abbrev pub append_command : Command → Conn → Conn
append_command cmd c = record c { pending = c.pending ++ cmd ∷ [] }

-- The first unread command is the one that the next reply answers.
abbrev pub reply_to : Redis → Conn → List Command → Option (Reply × Conn)
reply_to redis c [] = none
reply_to redis c (cmd ∷ cmds) = elim (redis c.history cmd) [
  | none ↦ none
  | some r ↦ some (r, record { history = c.history ++ cmd ∷ []; pending = cmds; live = suc c.live })
]

unfoldable pub get_reply : Redis → Conn → Option (Reply × Conn)
get_reply redis c = reply_to redis c c.pending

abbrev pub one_less : ℕ → ℕ
one_less zero = zero
one_less (suc n) = n

abbrev pub free_reply : Conn → Conn
free_reply c = record c { live = one_less c.live }
