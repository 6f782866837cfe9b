-- ===== src/Group.antt =====
-- ServiceGroup of common/service_group.h and common/service_group.cpp: replicas behind one strategy,
-- in the classes that a handler makes, which differ in the strategies that they take and in the seed
-- of a call.
pub mod Whole
pub mod Used
mod Tests
pub mod Deleted
pub mod Reach
use friend_serv.Base.{ℕ, Bool, true, false, List, [], Option, none, some, if◌then◌else◌}
use friend_serv.Config.{
  StrategyType, strategy_min, strategy_fixed, strategy_roll, stratety_int_region,
  stratety_string_region, strategy_max, HostInfo, ReplicasInfo, GroupInfo,
}
use friend_serv.Strategy.Chooser.{choose_by_nothing, choose_by_int, choose_by_string}
use friend_serv.Level.{Parts, Level, Answer, new_level, init_level, close, dispatch}
use friend_serv.Replicas.{ISendAndRecv, ISend, Replicas, is_plain, sync_replicas, async_replicas}
use friend_serv.Replicas

-- SyncServiceGroup and AsyncServiceGroup, those by int, and those by string.
pub data Kind : Type 0 where
  by_nothing by_int by_string : Kind

abbrev pub Group : Type 0 → Type 0
Group S = Level GroupInfo (Replicas S)

-- `m_aph` is the handler that the packages of the services go to.
pub record AsyncGroup (S : Type 0) : Type 0 where
  pub group : Group S
  pub aph : Option ℕ

abbrev is_int_region : StrategyType → Bool
is_int_region stratety_int_region = true
is_int_region _ = false

abbrev is_string_region : StrategyType → Bool
is_string_region stratety_string_region = true
is_string_region _ = false

abbrev pub check_strategy : Kind → StrategyType → Bool
check_strategy by_nothing s = is_plain s
check_strategy by_int s = is_int_region s
check_strategy by_string s = is_string_region s

-- What the members of a new ServiceReplicas hold.
abbrev pub no_replicas_info : ReplicasInfo
no_replicas_info = record { vec = []; replicas_strategy = strategy_min; forbidden = false }

abbrev pub no_group_info : GroupInfo
no_group_info = record { vec = []; group_strategy = strategy_min; forbidden = false }

abbrev pub is_some : {A : Type 0} → Option A → Bool
is_some none = false
is_some (some a) = true

module _ {S : Type 0} (p : Parts HostInfo S) (new_replicas : List ℕ → Bool) where
  -- The destructor of a ServiceReplicas is Close.
  abbrev pub replicas_parts : Parts ReplicasInfo (Replicas S)
  replicas_parts = record {
    create = λ path i. if new_replicas path then some (new_level no_replicas_info) else none;
    init_child = Replicas.init p;
    is_enable = λ r. r.enabled;
    destroy = λ r. is_some (close p r);
    memory = p.memory;
  }

  -- `_Init`, which is Init of the synchronous groups
  abbrev pub init : Kind → GroupInfo → Group S → Option (Bool × Group S)
  init k sgi g =
      init_level replicas_parts [] sgi sgi.forbidden (check_strategy k sgi.group_strategy)
        sgi.group_strategy sgi.vec g

  abbrev with_aph : ℕ → Option (Bool × Group S) → Option (Bool × AsyncGroup S)
  with_aph aph none = none
  with_aph aph (some (ok, g)) = some (ok, record { group = g; aph = some aph })

  abbrev pub init_async : Kind → GroupInfo → Option ℕ → AsyncGroup S → Option (Bool × AsyncGroup S)
  init_async k sgi none g = some (false, g)
  init_async k sgi (some aph) g = with_aph aph (init k sgi g.group)

  abbrev pub send_and_recv_by_nothing :
      ISendAndRecv S → List ℕ → ℕ → Group S → Answer (List ℕ) (Group S)
  send_and_recv_by_nothing c in_buf n g =
      dispatch replicas_parts choose_by_nothing [] ((sync_replicas p c).send_and_recv in_buf n) g

  abbrev pub send_and_recv_by_nothing_proto :
      ISendAndRecv S → List ℕ → ℕ → Group S → Answer (List ℕ) (Group S)
  send_and_recv_by_nothing_proto c in_buf n g =
      dispatch replicas_parts choose_by_nothing []
        ((sync_replicas p c).send_and_recv_proto in_buf n) g

  abbrev pub send_and_recv_by_int :
      ISendAndRecv S → List ℕ → ℕ → (seed : ℕ) → Group S → Answer (List ℕ) (Group S)
  send_and_recv_by_int c in_buf n seed g =
      dispatch replicas_parts (choose_by_int seed) [] ((sync_replicas p c).send_and_recv in_buf n) g

  abbrev pub send_and_recv_by_int_proto :
      ISendAndRecv S → List ℕ → ℕ → (seed : ℕ) → Group S → Answer (List ℕ) (Group S)
  send_and_recv_by_int_proto c in_buf n seed g =
      dispatch replicas_parts (choose_by_int seed) []
        ((sync_replicas p c).send_and_recv_proto in_buf n) g

  abbrev pub send_and_recv_by_string :
      ISendAndRecv S → List ℕ → ℕ → (seed : List ℕ) → Group S → Answer (List ℕ) (Group S)
  send_and_recv_by_string c in_buf n seed g =
      dispatch replicas_parts (choose_by_string seed) []
        ((sync_replicas p c).send_and_recv in_buf n) g

  abbrev pub send_and_recv_by_string_proto :
      ISendAndRecv S → List ℕ → ℕ → (seed : List ℕ) → Group S → Answer (List ℕ) (Group S)
  send_and_recv_by_string_proto c in_buf n seed g =
      dispatch replicas_parts (choose_by_string seed) []
        ((sync_replicas p c).send_and_recv_proto in_buf n) g

  abbrev pub send : ISend S → List ℕ → Group S → Answer Unit (Group S)
  send c buf g = dispatch replicas_parts choose_by_nothing tt ((async_replicas p c).send buf) g

  abbrev pub send_by_int : ISend S → List ℕ → (seed : ℕ) → Group S → Answer Unit (Group S)
  send_by_int c buf seed g =
      dispatch replicas_parts (choose_by_int seed) tt ((async_replicas p c).send buf) g

  abbrev pub send_by_string : ISend S → List ℕ → (seed : List ℕ) → Group S → Answer Unit (Group S)
  send_by_string c buf seed g =
      dispatch replicas_parts (choose_by_string seed) tt ((async_replicas p c).send buf) g
