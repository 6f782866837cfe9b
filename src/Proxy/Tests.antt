-- ===== src/Proxy/Tests.antt =====
-- Runs of the feed proxy against small servers, and examples for its theorems.
use friend_serv.Base.{ℕ, ◌≡◌, refl, some, List, [], ◌∷◌, ◌++◌, arith}
use friend_serv.Proxy.Redis.{Redis, Conn, Command, Reply}
use friend_serv.Proxy.Packet.{Header, init, c_name, u32}
use friend_serv.Proxy.Attention.{Junk, add_attention}
use friend_serv.Proxy.Query.{query_list}
use friend_serv.Proxy.Dispatch.{Request, World, cast, proc_pkg_cli, c_address}
use friend_serv.Proxy.Replies.{on, AllOf}
use friend_serv.Proxy.Pipeline.{
  InStep, IsSized, Holds, proc_pkg_cli-InStep, answer_length, replies_freed,
}
use friend_serv.Proxy.Meaning.{add_attention_status}
use friend_serv.Proxy.Listing.{scored, packed, query_list_pairs}
use friend_serv.Proxy.Oddities.{always}

abbrev two_idols : List (ℕ × ℕ)
two_idols = (7, 3) ∷ (8, 2) ∷ []

abbrev answer : List Command → Command → Reply
answer h (Command.add_attention_2 mid f_mid gname type tm) = Reply.status (79 ∷ 75 ∷ [])
answer h (Command.drop_attention_1 mid f_mid) = Reply.nil
answer h (Command.query_list mid start stop) = Reply.array (scored two_idols)
answer h (Command.query_relation_2 mid f_mid) = Reply.nil
answer h _ = Reply.integer 1

abbrev friendly : Redis
friendly = always answer

abbrev fresh : Conn
fresh = record { history = []; pending = []; live = 0 }

abbrev junk : Junk
junk = record { stale = 120 ∷ []; stray_4 = 9; stray_5 = 9 }

abbrev world : World
world = record { tm = 100; junk = junk; reinit = λ nip port. some fresh }

abbrev head : ℕ → Header
head cmd = record { seq_num = 1; cmd_id = cmd; user_id = 5 }

-- A request for the list of user 5 from 0 on, all of it.
abbrev list_body : List ℕ
list_body = 5 ∷ 0 ∷ 0 ∷ 0 ∷ 0 ∷ 0 ∷ 0 ∷ 0 ∷ 0 ∷ 0 ∷ 0 ∷ 0 ∷ []

abbrev list_request : Request
list_request = Request.query_idol_list_cmd 5 0 0

cast_list : cast 45314 list_body ≡ some list_request
unfolding cast
cast_list = refl

proc_pkg_cli-InStep_example :
    AllOf (InStep friendly) (proc_pkg_cli friendly world fresh (head 45314) list_body)
proc_pkg_cli-InStep_example =
    proc_pkg_cli-InStep friendly world fresh (head 45314) list_body list_request cast_list refl refl

answer_length_example : AllOf IsSized (proc_pkg_cli friendly world fresh (head 45314) list_body)
answer_length_example =
    answer_length friendly world fresh (head 45314) list_body list_request cast_list refl refl

replies_freed_example :
    AllOf (Holds friendly 0 1) (proc_pkg_cli friendly world fresh (head 45314) list_body)
replies_freed_example =
    replies_freed friendly world fresh (head 45314) list_body list_request cast_list refl refl

abbrev friends : List ℕ
friends = 97 ∷ 98 ∷ []

friends_name : c_name friends 2 ≡ some friends
unfolding c_name
friends_name = refl

add_attention_status_example :
    add_attention friendly 100 (on [] [] 0 (init (head 45057))) 7 1 2 friends
    ≡ some (
        on
          (Command.add_attention_1 5 friends 100 7
            ∷ Command.add_attention_2 5 7 friends 1 100
            ∷ Command.add_attention_3 5 100 7
            ∷ Command.add_attention_4 7 100 5
            ∷ [])
          []
          0
          (record (init (head 45057)) { pkg_len = 18 }))
add_attention_status_example =
    add_attention_status friendly 100 [] 0 (init (head 45057)) 7 1 2 friends friends
      (Reply.integer 1) (Reply.status (79 ∷ 75 ∷ [])) (Reply.integer 1) (Reply.integer 1)
      friends_name refl refl refl refl

query_list_pairs_example :
    query_list friendly (on [] [] 0 (init (head 45314))) 5 0 0
    ≡ some (
        on
          (Command.query_list 5 0 4294967295 ∷ [])
          []
          1
          (record (init (head 45314)) { pkg_len = 38; body = u32 2 ++ packed two_idols }))
query_list_pairs_example =
    query_list_pairs friendly [] 0 (head 45314) 5 0 0 two_idols refl (omega arith) (omega arith)

-- Port 80 and the address "1".
abbrev master_body : List ℕ
master_body = 80 ∷ 0 ∷ 0 ∷ 0 ∷ 1 ∷ 0 ∷ 0 ∷ 0 ∷ 49 ∷ []

cast_master : cast 40961 master_body ≡ some (Request.master_change_cmd 80 1 (49 ∷ []))
unfolding cast
cast_master = refl

address_one : c_address (49 ∷ []) 1 ≡ some (49 ∷ [])
unfolding c_address
address_one = refl
