-- ===== src/Timer.antt =====
-- The timer list of async-proxy/src/timer.cpp.
pub mod Expiry
mod Tests
use friend_serv.Base.{
  ℕ, Bool, true, false, Option, none, some, List, [], ◌∷◌, ◌++◌, ◌==◌, leb, if◌then◌else◌,
}

-- An event that is in the list: its node, `expire_time`, and `func` with its arguments, if any.
pub record TimerEvent : Type 0 where
  pub node : ℕ
  pub expire_time : ℕ
  pub func : Option ℕ

-- timer_add_event, on an event that is in no list.
abbrev pub timer_add_event : List TimerEvent → TimerEvent → List TimerEvent
timer_add_event timer event = timer ++ event ∷ []

-- timer_del_event of a node.
abbrev pub timer_del_event : List TimerEvent → ℕ → List TimerEvent
timer_del_event [] node = []
timer_del_event (e ∷ timer) node =
    let rest = timer_del_event timer node in if e.node == node then rest else e ∷ rest

-- timer_check_event: the events taken out, in order, and the list that is left. The functions called
-- are those of the events taken out; they do not change the list here.
abbrev pub timer_check_event :
    (current_time : ℕ) → List TimerEvent → List TimerEvent × List TimerEvent
timer_check_event now [] = ([], [])
timer_check_event now (e ∷ timer) =
    let rest = timer_check_event now timer in
    if leb now e.expire_time then ([], e ∷ timer) else (e ∷ rest.0, rest.1)

-- is_event_works.
abbrev pub is_event_works : List TimerEvent → ℕ → Bool
is_event_works [] node = false
is_event_works (e ∷ timer) node =
    let rest = is_event_works timer node in if e.node == node then true else rest
