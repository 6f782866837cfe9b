-- ===== src/AsyncLinker/Tests.antt =====
-- Runs of a pending link, and examples for its theorems.
use friend_serv.Base.{◌≡◌, refl, true, false, List, [], ◌∷◌, some, ◌>>=◌}
use friend_serv.TcpClient.{moved, again}
use friend_serv.Linker.{Linker}
use friend_serv.AsyncLinker.{AsyncLinker, Sending, send_pkg, handle_output}
use friend_serv.AsyncLinker.Runs.{Call, sending, writable, run, Each}
use friend_serv.AsyncLinker.Watched.{IsWatched, connected_watches}
use friend_serv.AsyncLinker.Stalled.{IsStalled, connected_stalls}

abbrev idle : AsyncLinker
idle = record {
  is_connected = false;
  watch_out = true;
  link = record { buffers = []; send_pos = 0; is_closed = false; pool = 4; wire = [] };
}

-- A package sent while the connect is pending.
abbrev eager : AsyncLinker
eager = record idle {
  link = record {
    buffers = (1 ∷ 2 ∷ []) ∷ [];
    send_pos = 0;
    is_closed = false;
    pool = 3;
    wire = [];
  };
}

-- One byte of a package is taken, and the other when the link is writable.
abbrev calls : List Call
calls =
    sending (record { ctl = true; event = moved 1; package_bytes = 5 ∷ 6 ∷ [] })
    ∷ writable true true [] (moved 1 ∷ [])
    ∷ sending (record { ctl = true; event = again; package_bytes = 7 ∷ [] })
    ∷ []

connected_watches_example : Each IsWatched (handle_output true true [] [] idle >>= run calls)
connected_watches_example =
    connected_watches true true [] [] calls idle tt (refl, (tt, (refl, tt))) refl refl

connected_stalls_example : Each (IsStalled []) (handle_output true true [] [] eager >>= run calls)
connected_stalls_example = connected_stalls true true [] [] calls eager refl refl

-- A link that is up, and a package of which one byte is taken while handle_ctl fails.
abbrev link_up : AsyncLinker
link_up = record idle { is_connected = true; watch_out = false }

abbrev half_taken : Sending
half_taken = record { ctl = false; event = moved 1; package_bytes = 5 ∷ 6 ∷ [] }

abbrev half_left : AsyncLinker
half_left = record link_up {
  link = record {
    buffers = (6 ∷ []) ∷ [];
    send_pos = 0;
    is_closed = false;
    pool = 3;
    wire = 5 ∷ [];
  };
}

waits_for_ever :
    (handle_output true true [] [] eager >>= run calls)
    ≡ some (record {
      is_connected = true;
      watch_out = false;
      link = record {
        buffers = (1 ∷ 2 ∷ 5 ∷ 6 ∷ 7 ∷ []) ∷ [];
        send_pos = 0;
        is_closed = false;
        pool = 3;
        wire = [];
      };
    })
unfolding friend_serv.Linker.send_pkg friend_serv.Linker.behind
waits_for_ever = refl
