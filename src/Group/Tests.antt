-- ===== src/Group/Tests.antt =====
-- Runs of a group of common/service_group.cpp over SyncServices, and examples for the theorems on
-- configurations, levels, replicas, groups and handlers.
use friend_serv.Base.{
  ℕ, ◌≡◌, ◌≢◌, ◌↔◌, refl, get_or, Bool, true, false, List, [], ◌∷◌, Option, none, some, ◌==◌,
  if◌then◌else◌, arith,
}
use friend_serv.TcpClient.{moved, failed, send, recv, send_loop, recv_loop}
use friend_serv.SyncService
use friend_serv.SyncService.{SyncService, Connect, connected, Net, send_and_recv}
use friend_serv.Config.{HostInfo, ReplicasInfo, GroupInfo, strategy_fixed, strategy_roll, group_eq}
use friend_serv.Config.Equality.{group_eq_iff}
use friend_serv.Strategy.{fixed, roll, roll_scan}
use friend_serv.Strategy.Chooser.{fixed_chooser, roll_chooser, create_strategy, choose_by_nothing}
use friend_serv.Level.{Parts, answers, new_level, init_level, init_children, close, dispatch}
use friend_serv.Replicas.{Replicas, is_plain}
use friend_serv.Replicas
use friend_serv.Replicas.Sync.{
  Peer, sync_parts, sync_service, new_service, send_and_recv_recovers, sync_parts-FailsOff,
}
use friend_serv.Level.Sound.{IsSound}
use friend_serv.Level.Steps.{Course, init_step, Course-IsSound}
use friend_serv.Level.Setup.{Succeeds, init_level-true}
use friend_serv.Level.Recovery.{Recovered, retry}
use friend_serv.Group.Whole.{IsWhole, init-IsWhole, any_service}
use friend_serv.Group.Used.{init-Used-IsWhole, as_made, called}
use friend_serv.Group.Reach.{group_reaches, Arrives}
use friend_serv.Group.Deleted.{close_group}
use friend_serv.Handler.{Handler, reload_service_group, sync_groups}
use friend_serv.Handler.Reload.{reload_lem}
use friend_serv.Group.{Group, Kind, by_nothing, no_replicas_info, no_group_info, replicas_parts}
use friend_serv.Group

abbrev host : ℕ → HostInfo
host n = record { ip = n ∷ []; port = 80; timeout_ms = 2000; forbidden = false }

abbrev pair_info : ReplicasInfo
pair_info = record {
  vec = host 1 ∷ host 2 ∷ [];
  replicas_strategy = strategy_fixed;
  forbidden = false;
}

abbrev group_info : GroupInfo
group_info = record { vec = pair_info ∷ []; group_strategy = strategy_roll; forbidden = false }

-- The socket of the first host breaks at once, that of the second sends and receives.
abbrev first_net : Net
first_net = record { wire = []; incoming = []; events = failed ∷ [] }

abbrev second_net : Net
second_net = record { wire = []; incoming = 9 ∷ 9 ∷ []; events = moved 1 ∷ moved 2 ∷ [] }

abbrev net_for : List ℕ → HostInfo → Connect × Net
net_for path hi = (connected, if get_or path 0 0 == 0 then first_net else second_net)

abbrev always : List ℕ → Bool
always path = true

abbrev ps : Parts HostInfo Peer
ps = sync_parts always net_for

abbrev up : HostInfo → SyncService
up hi = record (new_service hi) { alive = true; enabled = true }

abbrev first : Peer
first = record { service = up (host 1); network = connected; net = first_net }

abbrev second : Peer
second = record { service = up (host 2); network = connected; net = second_net }

abbrev pair : Replicas Peer
pair = record {
  inited = true;
  info = pair_info;
  strategy = some fixed_chooser;
  children = first ∷ second ∷ [];
  enabled = true;
  freed = false;
}

abbrev group : Group Peer
group = record {
  inited = true;
  info = group_info;
  strategy = some (roll_chooser 0);
  children = pair ∷ [];
  enabled = true;
  freed = false;
}

pair_made : Replicas.init ps (0 ∷ []) pair_info (new_level no_replicas_info) ≡ some (true, pair)
unfolding init_level init_children create_strategy SyncService.init
pair_made = refl

group_made :
    Group.init ps always by_nothing group_info (new_level no_group_info) ≡ some (true, group)
unfolding init_level init_children create_strategy SyncService.init
group_made = refl

group_eq_iff_example :
    (group_eq group_info (record group_info { forbidden = true }) ≡ true)
    ↔ (group_info ≡ record group_info { forbidden = true })
group_eq_iff_example = group_eq_iff group_info (record group_info { forbidden = true })

init_level-true_example :
    (init_level ps
        (0 ∷ [])
        pair_info
        false
        true
        strategy_fixed
        pair_info.vec
        (new_level no_replicas_info)
      ≡ some (true, pair))
    ↔ Succeeds ps (0 ∷ []) no_replicas_info pair_info strategy_fixed pair_info.vec false true pair
init_level-true_example =
    init_level-true ps (0 ∷ []) no_replicas_info pair_info strategy_fixed pair_info.vec false true
      pair

Course-IsSound_example : IsSound ps pair
Course-IsSound_example =
    Course-IsSound ps (sync_parts-FailsOff always net_for)
      (Course.next Course.here (
        init_step (0 ∷ []) pair_info false true strategy_fixed pair_info.vec
          (new_level no_replicas_info) true pair pair_made))
      (record { agrees = refl; ready = refl; bare = λ _. refl })

-- The bytes asked for are the two that the second host sends.
abbrev one_byte : List ℕ
one_byte = 5 ∷ []

abbrev answered_second : SyncService.Result
answered_second = record {
  ok = true;
  out = 9 ∷ 9 ∷ [];
  service = up (host 2);
  net = record { wire = 5 ∷ []; incoming = []; events = [] };
}

second_answers : send_and_recv (up (host 2)) one_byte 2 second_net ≡ some answered_second
unfolding send_and_recv send recv send_loop recv_loop
second_answers = refl

abbrev lost_first : SyncService.Result
lost_first = record {
  ok = false;
  out = [];
  service = record (new_service (host 1)) { waiting = true };
  net = record { wire = []; incoming = []; events = [] };
}

first_fails : send_and_recv (up (host 1)) one_byte 2 first_net ≡ some lost_first
unfolding send_and_recv send recv send_loop recv_loop
first_fails = refl

send_and_recv_recovers_example :
    (out : List ℕ) × (r' : Replicas Peer) × (retry 2
        (Replicas.send_and_recv ps sync_service one_byte 2)
        []
        pair
      ≡ answers true out r')
    × Recovered ps [] (sync_service.send_and_recv one_byte 2) [] (first ∷ second ∷ []) out r'
send_and_recv_recovers_example =
    send_and_recv_recovers always net_for 2 pair one_byte 2 (first ∷ []) second [] answered_second
      (record { on = refl; by = refl; fresh = refl; these = refl }) ((lost_first, first_fails), tt)
      refl second_answers refl (omega arith)

-- The group behind a call that went to the first service.
abbrev lost : Peer
lost = record { service = lost_first.service; network = connected; net = lost_first.net }

abbrev pair_left : Replicas Peer
pair_left = record pair { children = lost ∷ second ∷ [] }

abbrev group_left : Group Peer
group_left = record group { strategy = some (roll_chooser 1); children = pair_left ∷ [] }

one_call :
    dispatch
      (replicas_parts ps always)
      choose_by_nothing
      []
      (dispatch ps choose_by_nothing [] (sync_service.send_and_recv one_byte 2))
      group
    ≡ answers false [] group_left
unfolding dispatch send_and_recv send recv send_loop recv_loop fixed roll roll_scan
one_call = refl

init-Used-IsWhole_example : IsWhole ps always by_nothing group_left
init-Used-IsWhole_example =
    init-Used-IsWhole ps always by_nothing group_info group group_left
      (sync_parts-FailsOff always net_for) group_made
      (called (List ℕ) 0 [] [] (sync_service.send_and_recv one_byte 2) group group false []
        group_left one_call (as_made group))

group-IsWhole : IsWhole ps always by_nothing group
group-IsWhole =
    init-IsWhole ps (sync_parts-FailsOff always net_for) always by_nothing no_group_info group_info
      group group_made

group_reaches_example :
    (any_service ps group.children ≡ true
      → Arrives ps always [] (sync_service.send_and_recv one_byte 2) group)
    × (any_service ps group.children ≡ false
        → Group.send_and_recv_by_nothing ps always sync_service one_byte 2 group
          ≡ answers false [] group)
group_reaches_example =
    group_reaches ps always [] (sync_service.send_and_recv one_byte 2) group group-IsWhole refl

close_group_example : close (replicas_parts ps always) group ≡ none
close_group_example = close_group ps (λ c. refl) always by_nothing group group-IsWhole

abbrev handler : Handler (Group Peer)
handler = record { inited = true; sg = some group }

abbrev reloaded : Option (Bool × Handler (Group Peer))
reloaded =
    reload_service_group (sync_groups ps always true by_nothing)
      (record group_info { forbidden = true }) handler

abbrev no_more : GroupInfo
no_more = record group_info { forbidden = true }

reload_lem_example :
    (no_more ≡ group_info → reloaded ≡ some (true, handler))
    × (no_more ≢ group_info → true ≡ false → reloaded ≡ some (false, handler))
    × ((g : Group Peer)
        → no_more ≢ group_info
        → Group.init ps always by_nothing no_more (new_level no_group_info) ≡ some (false, g)
        → reloaded ≡ some (false, handler))
    × ((g : Group Peer)
        → no_more ≢ group_info
        → ◌≡◌ {A = Bool} true true
        → Group.init ps always by_nothing no_more (new_level no_group_info) ≡ some (true, g)
        → reloaded ≡ none)
reload_lem_example =
    reload_lem ps (λ c. refl) always by_nothing no_more handler group true refl refl group-IsWhole
