-- ===== src/AsyncService/Tests.antt =====
-- Runs of an AsyncService, and examples for its theorems.
use friend_serv.Base.{◌≡◌, refl, true, false, none, some, [], ◌∷◌}
use friend_serv.AsyncService.{
  AsyncService, descriptor, init, link_up, send, set_service_connected, set_service_disconnected,
}
use friend_serv.AsyncService.Phases.{
  Phase, down, Reach, init_step, connected_step, send_step, Reach-Phase,
}
use friend_serv.AsyncService.Nulls.{null_dereferenced}

abbrev fresh : AsyncService
fresh = record {
  fd = none;
  connecting = false;
  connect_time_ms = 0;
  enabled = false;
  waiting = false;
  timeout_ms = 2000;
  forbidden = false;
  fds = [];
}

abbrev linking : AsyncService
linking = record {
  fd = some 4;
  connecting = true;
  connect_time_ms = 10;
  enabled = false;
  waiting = true;
  timeout_ms = 2000;
  forbidden = false;
  fds = (4, true) ∷ [];
}

opens : (init (descriptor 4) 10 fresh).1 ≡ linking
unfolding init
opens = refl

-- Opened, linked up, and lost in a Send.
three_steps : Reach fresh (send false (1 ∷ []) (link_up (init (descriptor 4) 10 fresh).1)).1
unfolding init
three_steps =
    Reach.next
      (Reach.next (Reach.next Reach.here (init_step (descriptor 4) 10 fresh))
        (connected_step 4 linking (link_up linking) refl refl))
      (send_step false (1 ∷ []) (link_up linking))

Reach-Phase_example : Phase (send false (1 ∷ []) (link_up (init (descriptor 4) 10 fresh).1)).1
Reach-Phase_example = Reach-Phase three_steps (down 0 2000 false false)

null_dereferenced_example : set_service_connected 5 (set_service_disconnected 4 fresh) ≡ none
null_dereferenced_example = null_dereferenced fresh 4 5 refl
