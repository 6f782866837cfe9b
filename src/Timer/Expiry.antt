-- ===== src/Timer/Expiry.antt =====
-- Which events timer_check_event of timer.cpp takes out.
use friend_serv.Base.{
  ℕ, ◌≤◌, ◌<◌, ◌≡◌, refl, inl, inr, false, List, [], ◌∷◌, ◌++◌, leb, leb→le, ◌==◌, Bool-cases,
  arith, ap,
}
use friend_serv.Timer.{TimerEvent, timer_del_event, timer_check_event, is_event_works}

abbrev pub All : (TimerEvent → Type 0) → List TimerEvent → Type 0
All P [] = Unit
All P (e ∷ es) = P e × All P es

-- Events in the order of their times, which timer_add_event does not look after.
abbrev pub IsSorted : List TimerEvent → Type 0
IsSorted [] = Unit
IsSorted (e ∷ es) = All (λ e'. e.expire_time ≤ e'.expire_time) es × IsSorted es

later :
    (now : ℕ) (e : TimerEvent) (es : List TimerEvent)
    → now ≤ e.expire_time
    → All (λ e'. e.expire_time ≤ e'.expire_time) es
    → All (λ e'. now ≤ e'.expire_time) es
later now e [] h a = tt
later now e (e' ∷ es) h a = (omega (arith, h, a.0), later now e es h a.1)

-- The events taken out and then those left are the events of the list, in order; those taken out
-- have expired; and in a list that is sorted by time, all that are left have not.
abbrev pub Splits : ℕ → List TimerEvent → List TimerEvent × List TimerEvent → Type 0
Splits now timer s =
    (s.0 ++ s.1 ≡ timer) × All (λ e. e.expire_time < now) s.0 × All (λ e. now ≤ e.expire_time) s.1

-- On a list that is sorted by time, timer_check_event takes out exactly the events whose time is
-- past, in the order of the list, and keeps the others as they are.
pub timer_check_event-Splits :
    (now : ℕ) (timer : List TimerEvent)
    → IsSorted timer
    → Splits now timer (timer_check_event now timer)
timer_check_event-Splits now [] sorted = (refl, tt, tt)
timer_check_event-Splits now (e ∷ timer) sorted = elim (Bool-cases (leb now e.expire_time)) [
  | inl keep ↦ rw keep (refl, tt, (leb→le _ _ keep, later now e timer (leb→le _ _ keep) sorted.0))
  | inr past ↦
      let rest = timer_check_event-Splits now timer sorted.1 in
      let gone : e.expire_time < now = ground arith in
      rw past (ap (λ l. e ∷ l) rest.0, (gone, rest.1), rest.2)
]

-- An event that timer_del_event took out of a list is in no place of it.
pub is_event_works-timer_del_event :
    (timer : List TimerEvent) (node : ℕ) → is_event_works (timer_del_event timer node) node ≡ false
is_event_works-timer_del_event [] node = refl
is_event_works-timer_del_event (e ∷ timer) node =
    let rest = is_event_works-timer_del_event timer node in
    elim (Bool-cases (e.node == node)) [
      | inl same ↦ rw same rest
      | inr other ↦ rw (other, other) rest
    ]
