-- ===== src/TcpClient/Tests.antt =====
-- Runs of Send and Recv, and examples for their theorems.
use friend_serv.Base.{ℕ, ◌≡◌, ◌≢◌, refl, true, false, some, List, [], ◌∷◌, ◌++◌, arith, length}
use friend_serv.TcpClient.{
  Event, moved, again, interrupted, Outcome, all_done, tc_error, send, recv, send_loop, recv_loop,
}
use friend_serv.TcpClient.Sending.{Progress, send_finishes}
use friend_serv.TcpClient.Receiving.{recv_finishes}

abbrev three : List ℕ
three = 1 ∷ 2 ∷ 3 ∷ []

three_not_empty : three ≢ []
three_not_empty e = grind arith

three_bytes : length three ≢ 0
three_bytes e = grind arith

-- A first call that takes two bytes, a signal, and the rest.
abbrev two_calls : List Event
two_calls = moved 2 ∷ interrupted ∷ moved 5 ∷ moved 1 ∷ []

send_twice :
    send true three two_calls
    ≡ some (record { ret = all_done; alive = true; done = three; left = []; events = moved 1 ∷ [] })
unfolding send send_loop
send_twice = refl

send_cut :
    send true three (moved 1 ∷ again ∷ [])
    ≡ some (record { ret = tc_error; alive = false; done = 1 ∷ []; left = 2 ∷ 3 ∷ []; events = [] })
unfolding send send_loop
send_cut = refl

recv_end :
    recv true 2 (1 ∷ []) (moved 5 ∷ moved 5 ∷ [])
    ≡ some (record { ret = tc_error; alive = false; done = 1 ∷ []; left = []; events = [] })
unfolding recv recv_loop
recv_end = refl

send_finishes_example :
    (o : Outcome) × (send true three two_calls ≡ some o)
    × (o.ret ≡ all_done)
    × (o.done ≡ three)
    × (o.alive ≡ true)
    × Progress 0 o.events
send_finishes_example =
    send_finishes 0 three two_calls three_not_empty (omega arith, (omega arith, (omega arith, tt)))

recv_finishes_example :
    (o : Outcome) × (recv true 3 (three ++ three) two_calls ≡ some o)
    × (o.ret ≡ all_done)
    × (o.done ≡ three)
    × (o.left ≡ three)
    × (o.alive ≡ true)
    × Progress 0 o.events
recv_finishes_example =
    recv_finishes 0 three three two_calls three_bytes
      (omega arith, (omega arith, (omega arith, tt)))
