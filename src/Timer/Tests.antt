-- ===== src/Timer/Tests.antt =====
-- A run of the timer, and an example for its theorem.
use friend_serv.Base.{ℕ, ◌≡◌, refl, some, [], ◌∷◌, arith}
use friend_serv.Timer.{TimerEvent, timer_check_event}
use friend_serv.Timer.Expiry.{Splits, timer_check_event-Splits}

abbrev at : ℕ → TimerEvent
at t = record { node = t; expire_time = t; func = some t }

-- An expired event behind one that has not expired is not taken out.
waits_behind : timer_check_event 5 (at 9 ∷ at 1 ∷ []) ≡ ([], at 9 ∷ at 1 ∷ [])
waits_behind = refl

timer_check_event-Splits_example :
    Splits 5 (at 1 ∷ at 4 ∷ at 5 ∷ []) (timer_check_event 5 (at 1 ∷ at 4 ∷ at 5 ∷ []))
timer_check_event-Splits_example =
    timer_check_event-Splits 5 (at 1 ∷ at 4 ∷ at 5 ∷ [])
      ((omega arith, (omega arith, tt)), ((omega arith, tt), (tt, tt)))
