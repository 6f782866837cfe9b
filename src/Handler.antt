-- ===== src/Handler.antt =====
-- The protocol handlers of common/proto_handler.h and common/proto_handler.cpp: each holds a service
-- group, makes a new one when its configuration changes, and hands calls to it.
-- The constructor leaves `m_sg` unset, so a handler is modelled from its first Init on, where none is
-- NULL. `faults` and none are as for a Level.
pub mod Reload
use friend_serv.Base.{ℕ, Bool, true, false, not, List, [], Option, none, some, ◌>>=◌, if◌then◌else◌}
use friend_serv.Config.{HostInfo, GroupInfo, group_eq}
use friend_serv.Level.{Parts, Answer, answers, faults, waits, new_level, close}
use friend_serv.Replicas.{ISendAndRecv, ISend}
use friend_serv.Group.{Kind, Group, AsyncGroup, no_group_info, replicas_parts}
use friend_serv.Group

-- ISyncProtoHandler and IAsyncProtoHandler, by the class of the group.
pub record Handler (G : Type 0) : Type 0 where
  pub inited : Bool
  pub sg : Option G

-- What the two kinds of groups offer a handler: CreateServiceGroup, Init, the configuration, and
-- whether the destructor ends.
pub record Groups (G : Type 0) : Type 0 where
  pub create_service_group : Option G
  pub init_group : GroupInfo → G → Option (Bool × G)
  pub get_service_group_info : G → GroupInfo
  pub delete_group : G → Bool

module _ {G : Type 0} (o : Groups G) where
  abbrev pub inited_with : Handler G → Bool × G → Option (Bool × Handler G)
  inited_with h (ok, g) =
      if ok
      then some (true, record { inited = true; sg = some g })
      else some (false, record h { sg = some g })

  abbrev pub init_created : GroupInfo → Handler G → Option G → Option (Bool × Handler G)
  init_created sgi h none = some (false, record h { sg = none })
  init_created sgi h (some g) = o.init_group sgi g >>= inited_with h

  unfoldable pub init : GroupInfo → Handler G → Option (Bool × Handler G)
  init sgi h = init_created sgi h o.create_service_group

  -- `delete m_sg; m_sg = sg` behind an Init that returned true.
  abbrev pub replaced : Handler G → G → Bool × G → Option (Bool × Handler G)
  replaced h old (ok, g) =
      if not ok
      then some (false, h)
      else if o.delete_group old
      then some (true, record h { sg = some g })
      else none

  abbrev pub reload_created : GroupInfo → Handler G → G → Option G → Option (Bool × Handler G)
  reload_created sgi h old none = some (false, h)
  reload_created sgi h old (some g) = o.init_group sgi g >>= replaced h old

  abbrev pub reload_group : GroupInfo → Handler G → Option G → Option (Bool × Handler G)
  reload_group sgi h none = none
  reload_group sgi h (some old) =
      if group_eq sgi (o.get_service_group_info old)
      then some (true, h)
      else reload_created sgi h old o.create_service_group

  unfoldable pub reload_service_group : GroupInfo → Handler G → Option (Bool × Handler G)
  reload_service_group sgi h = if not h.inited then some (false, h) else reload_group sgi h h.sg

module _ {G O : Type 0} where
  abbrev on_group : Handler G → Answer O G → Answer O (Handler G)
  on_group h (answers ok out g) = answers ok out (record h { sg = some g })
  on_group h faults = faults
  on_group h waits = waits

  abbrev through : O → (G → Answer O G) → Handler G → Option G → Answer O (Handler G)
  through out call h none = answers false out h
  through out call h (some g) = on_group h (call g)

  -- Send and SendAndRecv of a handler.
  unfoldable pub relay : O → (G → Answer O G) → Handler G → Answer O (Handler G)
  relay out call h = if h.inited then through out call h h.sg else answers false out h

abbrev pub ends : {G : Type 0} → Option G → Bool
ends none = false
ends (some g) = true

module _ {S : Type 0} where
  abbrev in_async : AsyncGroup S → Answer Unit (Group S) → Answer Unit (AsyncGroup S)
  in_async g (answers ok out g') = answers ok out (record g { group = g' })
  in_async g faults = faults
  in_async g waits = waits

  abbrev at_async : (Group S → Answer Unit (Group S)) → AsyncGroup S → Answer Unit (AsyncGroup S)
  at_async call g = in_async g (call g.group)

module _ {S : Type 0} (p : Parts HostInfo S) (new_replicas : List ℕ → Bool) where
  -- The groups of the synchronous handlers; `memory` is whether `new` gives a group.
  abbrev pub sync_groups : (memory : Bool) → Kind → Groups (Group S)
  sync_groups memory k = record {
    create_service_group = if memory then some (new_level no_group_info) else none;
    init_group = Group.init p new_replicas k;
    get_service_group_info = λ g. g.info;
    delete_group = λ g. ends (close (replicas_parts p new_replicas) g);
  }

  -- The groups of the asynchronous handler `this`.
  abbrev pub async_groups : (memory : Bool) → (this : ℕ) → Kind → Groups (AsyncGroup S)
  async_groups memory this k = record {
    create_service_group =
        if memory then some (record { group = new_level no_group_info; aph = none }) else none;
    init_group = λ sgi g. Group.init_async p new_replicas k sgi (some this) g;
    get_service_group_info = λ g. g.group.info;
    delete_group = λ g. ends (close (replicas_parts p new_replicas) g.group);
  }

  -- ISyncProtoHandler
  abbrev pub sync_init :
      (memory : Bool) → Kind → GroupInfo → Handler (Group S) → Option (Bool × Handler (Group S))
  sync_init memory k sgi h = init (sync_groups memory k) sgi h

  abbrev pub sync_reload :
      (memory : Bool) → Kind → GroupInfo → Handler (Group S) → Option (Bool × Handler (Group S))
  sync_reload memory k sgi h = reload_service_group (sync_groups memory k) sgi h

  -- IAsyncProtoHandler
  abbrev pub async_init :
      (memory : Bool)
      → (this : ℕ) → Kind
      → GroupInfo
      → Handler (AsyncGroup S)
      → Option (Bool × Handler (AsyncGroup S))
  async_init memory this k sgi h = init (async_groups memory this k) sgi h

  abbrev pub async_reload :
      (memory : Bool)
      → (this : ℕ) → Kind
      → GroupInfo
      → Handler (AsyncGroup S)
      → Option (Bool × Handler (AsyncGroup S))
  async_reload memory this k sgi h = reload_service_group (async_groups memory this k) sgi h

  abbrev pub send_and_recv_by_nothing :
      ISendAndRecv S → List ℕ → ℕ → Handler (Group S) → Answer (List ℕ) (Handler (Group S))
  send_and_recv_by_nothing c in_buf n h =
      relay [] (Group.send_and_recv_by_nothing p new_replicas c in_buf n) h

  abbrev pub send_and_recv_by_nothing_proto :
      ISendAndRecv S → List ℕ → ℕ → Handler (Group S) → Answer (List ℕ) (Handler (Group S))
  send_and_recv_by_nothing_proto c in_buf n h =
      relay [] (Group.send_and_recv_by_nothing_proto p new_replicas c in_buf n) h

  abbrev pub send_and_recv_by_int :
      ISendAndRecv S
      → List ℕ
      → ℕ
      → (seed : ℕ) → Handler (Group S)
      → Answer (List ℕ) (Handler (Group S))
  send_and_recv_by_int c in_buf n seed h =
      relay [] (Group.send_and_recv_by_int p new_replicas c in_buf n seed) h

  abbrev pub send_and_recv_by_int_proto :
      ISendAndRecv S
      → List ℕ
      → ℕ
      → (seed : ℕ) → Handler (Group S)
      → Answer (List ℕ) (Handler (Group S))
  send_and_recv_by_int_proto c in_buf n seed h =
      relay [] (Group.send_and_recv_by_int_proto p new_replicas c in_buf n seed) h

  abbrev pub send_and_recv_by_string :
      ISendAndRecv S
      → List ℕ
      → ℕ
      → (seed : List ℕ) → Handler (Group S)
      → Answer (List ℕ) (Handler (Group S))
  send_and_recv_by_string c in_buf n seed h =
      relay [] (Group.send_and_recv_by_string p new_replicas c in_buf n seed) h

  abbrev pub send_and_recv_by_string_proto :
      ISendAndRecv S
      → List ℕ
      → ℕ
      → (seed : List ℕ) → Handler (Group S)
      → Answer (List ℕ) (Handler (Group S))
  send_and_recv_by_string_proto c in_buf n seed h =
      relay [] (Group.send_and_recv_by_string_proto p new_replicas c in_buf n seed) h

  abbrev pub send : ISend S → List ℕ → Handler (AsyncGroup S) → Answer Unit (Handler (AsyncGroup S))
  send c buf h = relay tt (at_async (Group.send p new_replicas c buf)) h

  abbrev pub send_by_int :
      ISend S → List ℕ → (seed : ℕ) → Handler (AsyncGroup S) → Answer Unit (Handler (AsyncGroup S))
  send_by_int c buf seed h = relay tt (at_async (Group.send_by_int p new_replicas c buf seed)) h

  abbrev pub send_by_string :
      ISend S
      → List ℕ
      → (seed : List ℕ) → Handler (AsyncGroup S)
      → Answer Unit (Handler (AsyncGroup S))
  send_by_string c buf seed h =
      relay tt (at_async (Group.send_by_string p new_replicas c buf seed)) h
