-- ===== src/Worker.antt =====
-- A worker process of async-server: `c_revent` of shm_revent.cpp, which takes the blocks of its channel
-- and calls the plugin, and `net_send_cli`, `net_close_cli` of net.cpp, by which the plugin answers.
-- `none` is an index out of g_link_flags. `head->idle`, by which a channel may be chosen, is left out.
mod Tests
pub mod Refines
pub mod Serves
pub mod Addressed
use friend_serv.Base.{
  ℕ, zero, suc, ◌-◌, Bool, true, false, ◌||◌, not, List, [], ◌∷◌, ◌++◌, Option, none, some, ◌>>=◌,
  ◌==◌, leb, ltb, if◌then◌else◌, length,
}
use friend_serv.Shmq.{Block, Pull, nothing, no_memory, pulled, un32}
use friend_serv.Channel.Drain.{drain}
use friend_serv.Channel.{Channel, recv_pull, send_push}

-- The calls of the plugin: proc_pkg_cli, link_down_cli and link_up_cli, with their arguments.
pub data Call : Type 0 where
  proc_pkg_cli : (fd : ℕ) → List ℕ → Call
  link_down_cli : (fd : ℕ) → Call
  link_up_cli : (fd ip : ℕ) → Call

-- What a plugin calls in its turn.
pub data Action : Type 0 where
  send : (fd : ℕ) → List ℕ → Action
  close : (fd : ℕ) → Action

-- The plugin: what it does in a call, behind all the calls before; and which functions it has.
pub record Plugin : Type 0 where
  pub acts : List Call → Call → List Action
  pub has_link_down : Bool
  pub has_link_up : Bool

-- `flags` is g_link_flags, `out` the channel to the connections, `calls` what the plugin was called for.
pub record Work (C : Type 0) : Type 0 where
  pub flags : ℕ → ℕ
  pub out : C
  pub calls : List Call

abbrev pub close_block : ℕ
close_block = 1

abbrev pub login_block : ℕ
login_block = 2

abbrev pub proto_block : ℕ
proto_block = 3

abbrev pub set_flag : ℕ → ℕ → (ℕ → ℕ) → ℕ → ℕ
set_flag fd id flags other = if fd == other then id else flags other

-- A safe send_push, whose result net.cpp does not look at.
abbrev pub push_out : (malloc : ℕ → Bool) → Block → List ℕ → Channel → Channel
push_out malloc sb buf c = (send_push malloc c sb buf true).1

-- `push` writes a block to `out`; `max_connect` is g_max_connect.
module _ {C : Type 0} (push : Block → List ℕ → C → C) (max_connect : ℕ) where
  abbrev sent : ℕ → List ℕ → Work C → Work C
  sent fd buf w = record w {
    out =
        push (record { fd = fd; id = w.flags fd; len = length buf; kind = proto_block }) buf w.out;
  }

  -- The length sent, or none for -1.
  abbrev pub net_send_cli : ℕ → List ℕ → Work C → Option ℕ × Work C
  net_send_cli fd buf w =
      if leb max_connect fd || (w.flags fd == 0 || length buf == 0)
      then (none, w)
      else (some (length buf), sent fd buf w)

  abbrev closed : ℕ → Work C → Work C
  closed fd w = record w {
    out = push (record { fd = fd; id = w.flags fd; len = 0; kind = close_block }) [] w.out;
    flags = set_flag fd 0 w.flags;
  }

  abbrev pub net_close_cli : ℕ → Work C → Work C
  net_close_cli fd w = if leb max_connect fd || w.flags fd == 0 then w else closed fd w

  abbrev pub act : Action → Work C → Work C
  act (send fd buf) w = (net_send_cli fd buf w).1
  act (close fd) w = net_close_cli fd w

  abbrev pub act_all : List Action → Work C → Work C
  act_all [] w = w
  act_all (a ∷ others) w = act_all others (act a w)

  module _ (p : Plugin) where
    abbrev pub perform : Call → Work C → Work C
    perform c w = act_all (p.acts w.calls c) (record w { calls = w.calls ++ c ∷ [] })

    abbrev pub flagged : ℕ → ℕ → Work C → Work C
    flagged fd id w = record w { flags = set_flag fd id w.flags }

    abbrev pub on_login : Block → List ℕ → Work C → Work C
    on_login sb body w = if p.has_link_up then perform (link_up_cli sb.fd (un32 body 0)) w else w

    -- The part of handle_input that the type of a block chooses.
    abbrev pub on_block : Block → List ℕ → Work C → Work C
    on_block sb body w =
        if sb.kind == proto_block
        then perform (proc_pkg_cli sb.fd body) (flagged sb.fd sb.id w)
        else if sb.kind == close_block
        then if w.flags sb.fd == 0
          then w
          else flagged sb.fd 0 (if p.has_link_down then perform (link_down_cli sb.fd) w else w)
        else if sb.kind == login_block
        then on_login sb body (flagged sb.fd sb.id w)
        else w

    abbrev pub take_block : Block → List ℕ → Work C → Option (Work C)
    take_block sb body w = if ltb sb.fd max_connect then some (on_block sb body w) else none

    -- handle_input, which first reads at most 1024 bytes from the pipe, then takes 1024 blocks at most.
    abbrev pub handle_input : (realloc : ℕ → Bool) → Channel → Work C → Option (Channel × Work C)
    handle_input realloc c w = drain realloc take_block 1024 (record c { woken = c.woken - 1024 }) w
