-- ===== src/Replicas.antt =====
-- ServiceReplicas of common/service_replicas.h and common/service_replicas.cpp: services of one kind
-- behind one strategy. The services are a parameter: their Parts and their interface; Sync is the
-- instance for SyncService.
pub mod Sync
use friend_serv.Base.{ℕ, Bool, true, false, List, [], Option}
use friend_serv.Config.{
  StrategyType, strategy_min, strategy_fixed, strategy_roll, stratety_int_region,
  stratety_string_region, strategy_max, HostInfo, ReplicasInfo,
}
use friend_serv.Strategy.Chooser.{choose_by_nothing}
use friend_serv.Level.{Parts, Level, Answer, init_level, dispatch}

-- The abstract classes of common/service.h that the children are cast to.
pub record ISendAndRecv (S : Type 0) : Type 0 where
  pub send_and_recv : (in_buf : List ℕ) → (out_len : ℕ) → S → Answer (List ℕ) S
  pub send_and_recv_proto : (in_buf : List ℕ) → (out_buf_len : ℕ) → S → Answer (List ℕ) S

pub record ISend (S : Type 0) : Type 0 where
  pub send : List ℕ → S → Answer Unit S

abbrev pub Replicas : Type 0 → Type 0
Replicas S = Level ReplicasInfo S

-- The strategies that Init of ServiceReplicas goes on with.
abbrev pub is_plain : StrategyType → Bool
is_plain strategy_fixed = true
is_plain strategy_roll = true
is_plain strategy_min = false
is_plain stratety_int_region = false
is_plain stratety_string_region = false
is_plain strategy_max = false

module _ {S : Type 0} (p : Parts HostInfo S) where
  abbrev pub init : (path : List ℕ) → ReplicasInfo → Replicas S → Option (Bool × Replicas S)
  init path sri r =
      init_level p path sri sri.forbidden (is_plain sri.replicas_strategy) sri.replicas_strategy
        sri.vec r

  -- SyncServiceReplicas
  abbrev pub send_and_recv : ISendAndRecv S → List ℕ → ℕ → Replicas S → Answer (List ℕ) (Replicas S)
  send_and_recv c in_buf out_len r =
      dispatch p choose_by_nothing [] (c.send_and_recv in_buf out_len) r

  abbrev pub send_and_recv_proto :
      ISendAndRecv S → List ℕ → ℕ → Replicas S → Answer (List ℕ) (Replicas S)
  send_and_recv_proto c in_buf out_buf_len r =
      dispatch p choose_by_nothing [] (c.send_and_recv_proto in_buf out_buf_len) r

  abbrev pub sync_replicas : ISendAndRecv S → ISendAndRecv (Replicas S)
  sync_replicas c = record {
    send_and_recv = send_and_recv c;
    send_and_recv_proto = send_and_recv_proto c;
  }

  -- AsyncServiceReplicas
  abbrev pub send : ISend S → List ℕ → Replicas S → Answer Unit (Replicas S)
  send c buf r = dispatch p choose_by_nothing tt (c.send buf) r

  abbrev pub async_replicas : ISend S → ISend (Replicas S)
  async_replicas c = record { send = send c }
