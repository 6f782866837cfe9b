-- ===== src/SyncService/Tests.antt =====
-- Runs of a SyncService, and examples for its theorems.
use friend_serv.Base.{ℕ, ◌≡◌, ◌≢◌, refl, true, false, some, List, [], ◌∷◌, ◌++◌, arith}
use friend_serv.TcpClient.{Event, moved, interrupted}
use friend_serv.SyncService.{
  SyncService, connected, unreachable, Net, answered, send_and_recv_proto, init, reinit,
}
use friend_serv.SyncService.Exchange.{send_and_recv_proto-answered}
use friend_serv.SyncService.Life.{Reach, init_step, reinit_step, IsSound, Reach-IsSound}

abbrev ready : SyncService
ready = record {
  alive = true;
  enabled = true;
  waiting = false;
  timeout_ms = 2000;
  forbidden = false;
}

abbrev fresh : SyncService
fresh = record {
  alive = false;
  enabled = false;
  waiting = false;
  timeout_ms = 2000;
  forbidden = false;
}

abbrev request : List ℕ
request = 8 ∷ 0 ∷ 0 ∷ 0 ∷ 1 ∷ 0 ∷ 0 ∷ 0 ∷ []

abbrev len_field : List ℕ
len_field = 8 ∷ 0 ∷ 0 ∷ 0 ∷ []

abbrev answer_body : List ℕ
answer_body = 1 ∷ 0 ∷ 0 ∷ 0 ∷ []

abbrev moves : List Event
moves =
    moved 5
    ∷ interrupted
    ∷ moved 5
    ∷ moved 3
    ∷ moved 3
    ∷ moved 9
    ∷ moved 1
    ∷ moved 1
    ∷ moved 1
    ∷ moved 1
    ∷ moved 1
    ∷ moved 1
    ∷ moved 1
    ∷ moved 1
    ∷ moved 1
    ∷ moved 1
    ∷ moved 1
    ∷ moved 1
    ∷ []

abbrev net : Net
net = record { wire = []; incoming = len_field ++ (answer_body ++ 7 ∷ []); events = moves }

request_not_empty : request ≢ []
request_not_empty e = grind arith

send_and_recv_proto-answered_example :
    (events : List Event) × (send_and_recv_proto ready request 64 net
      ≡ some (
          answered ready
            (len_field ++ answer_body)
            (record { wire = request; incoming = 7 ∷ []; events = events })))
send_and_recv_proto-answered_example =
    send_and_recv_proto-answered ready request len_field answer_body (7 ∷ []) 64 net refl
      request_not_empty refl refl (omega arith) (omega arith) refl
      (
        omega arith,
        (
          omega arith,
          (
            omega arith,
            (
              omega arith,
              (
                omega arith,
                (
                  omega arith,
                  (
                    omega arith,
                    (
                      omega arith,
                      (
                        omega arith,
                        (
                          omega arith,
                          (
                            omega arith,
                            (
                              omega arith,
                              (omega arith, (omega arith, (omega arith, (omega arith, tt)))),
                            ),
                          ),
                        ),
                      ),
                    ),
                  ),
                ),
              ),
            ),
          ),
        ),
      )

-- Not reached at first, and connected again by the timer.
two_steps : Reach fresh (reinit connected (init unreachable fresh).1).1
two_steps =
    Reach.next (Reach.next Reach.here (init_step unreachable fresh))
      (reinit_step connected (init unreachable fresh).1)

Reach-IsSound_example : IsSound (reinit connected (init unreachable fresh).1).1
Reach-IsSound_example = Reach-IsSound two_steps (refl, refl)
