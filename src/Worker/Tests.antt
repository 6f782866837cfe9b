-- ===== src/Worker/Tests.antt =====
-- A worker of async-server whose plugin sends each note back, and an example for its theorem.
use friend_serv.Base.{ℕ, ◌≡◌, refl, true, false, List, [], ◌∷◌, arith, ◌==◌, if◌then◌else◌}
use friend_serv.Shmq.Fifo.{Item}
use friend_serv.Channel.Samples.{note, bytes, quiet, quiet-Carries, waiting, waiting-Holds}
use friend_serv.Channel.Order.{gives}
use friend_serv.Worker.{
  Call, proc_pkg_cli, link_down_cli, link_up_cli, Action, send, close, Plugin, Work, push_out,
  handle_input,
}
use friend_serv.Worker.Refines.{lift, Short}
use friend_serv.Worker.Addressed.{ForLinks, serve-ForLinks}
use friend_serv.Worker.Serves.{serve, Served, handle_input_serves}

abbrev back : Call → List Action
back (proc_pkg_cli fd body) = send fd (1 ∷ []) ∷ close fd ∷ []
back (link_down_cli fd) = []
back (link_up_cli fd ip) = []

abbrev echo : Plugin
echo = record { acts = λ calls call. back call; has_link_down = true; has_link_up = false }

back-Short : (calls : List Call) (call : Call) → Short 40 (back call)
back-Short calls (proc_pkg_cli fd body) = (omega arith, tt)
back-Short calls (link_down_cli fd) = tt
back-Short calls (link_up_cli fd ip) = tt

abbrev before : Work (List Item)
before = record { flags = λ fd. 0; out = []; calls = [] }

-- The answer, and that the link is closed.
abbrev after : Work (List Item)
after = record {
  flags = λ fd. if 7 == fd then 0 else if 7 == fd then 300 else 0;
  out =
      (record { fd = 7; id = 300; len = 1; kind = 3 }, 1 ∷ [])
      ∷ (record { fd = 7; id = 300; len = 0; kind = 1 }, [])
      ∷ [];
  calls = proc_pkg_cli 7 bytes ∷ [];
}

served_once : serve 16 echo ((note, bytes) ∷ []) before ≡ after
served_once = refl

handle_input_serves_example :
    Served 40 16 echo 1024
      ((note, bytes) ∷ [])
      waiting
      before
      (handle_input (push_out gives) 16 echo gives waiting (lift quiet before))
handle_input_serves_example =
    handle_input_serves 40 (omega arith) (omega arith) gives (λ k. refl) 16 (omega arith) echo
      back-Short gives (λ k. refl) ((note, bytes) ∷ []) waiting quiet before waiting-Holds
      (omega arith, tt) quiet-Carries (λ fd. omega arith)

-- The link of the note.
abbrev IsNoted : ℕ → ℕ → Type 0
IsNoted fd id = (fd ≡ 7) × (id ≡ 300)

serve-ForLinks_example : ForLinks IsNoted (serve 16 echo ((note, bytes) ∷ []) before).out
serve-ForLinks_example =
    serve-ForLinks IsNoted 16 echo ((note, bytes) ∷ []) before ((refl, refl), tt)
      (λ fd h. absurd (cc)) tt
