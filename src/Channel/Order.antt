-- ===== src/Channel/Order.antt =====
-- Runs of calls on a channel of shmq.cpp, and what they deliver.
use friend_serv.Base.{
  ℕ, ◌<◌, ◌≡◌, refl, inl, inr, Bool, true, List, [], ◌∷◌, ◌++◌, ap, sym, ◌∙◌, append_assoc,
  append-nil,
}
use friend_serv.Shmq.{Block, Pull, nothing, no_memory, pulled}
use friend_serv.Shmq.Fifo.{Item, IsItem, Holds}
use friend_serv.Shmq.Oldest.{pull_oldest, pull_empty}
use friend_serv.Channel.{Channel, pruge_recv, recv_push, recv_pull}
use friend_serv.Channel.Purge.{Carries, pruge_recv-Carries}
use friend_serv.Channel.Push.{recv_push_safe}

-- What the two ends of a channel do: a safe push, a purge of the writer's loop, a pull.
pub data Call : Type 0 where
  put : Block → List ℕ → Call
  purge take_one : Call

abbrev delivered : Pull → List Item
delivered (pulled sb body) = (sb, body) ∷ []
delivered (no_memory sb) = []
delivered nothing = []

abbrev pub gives : ℕ → Bool
gives n = true

-- The blocks that a run of calls delivers, and the channel at its end; memory never runs out.
abbrev pub run : Channel → List Call → List Item × Channel
run c [] = ([], c)
run c (put sb body ∷ calls) = run (recv_push gives c sb body true).1 calls
run c (purge ∷ calls) = run (pruge_recv c).1 calls
run c (take_one ∷ calls) =
    let (out, c') = recv_pull gives c in
    let (rest, c'') = run c' calls in (delivered out ++ rest, c'')

abbrev pub puts : List Call → List Item
puts [] = []
puts (put sb body ∷ calls) = (sb, body) ∷ puts calls
puts (purge ∷ calls) = puts calls
puts (take_one ∷ calls) = puts calls

-- Every block put is whole and shorter than the ring.
abbrev pub Proper : ℕ → List Call → Type 0
Proper n [] = Unit {0}
Proper n (put sb body ∷ calls) = IsItem (sb, body) × (sb.len < n) × Proper n calls
Proper n (purge ∷ calls) = Proper n calls
Proper n (take_one ∷ calls) = Proper n calls

recv_pull-Carries :
    (n : ℕ) (c : Channel) (xs : List Item)
    → Carries n c xs
    → let (out, c') = recv_pull gives c in
      (ys : List Item) × Carries n c' ys × (delivered out ++ ys ≡ xs)
unfolding recv_pull
recv_pull-Carries n c xs k = go k.ring k.holds k.all
  where
    go :
        (ring : List Item)
        → Holds c.queue ring
        → xs ≡ ring ++ c.push_list
        → let (out, c') = recv_pull gives c in
          (ys : List Item) × Carries n c' ys × (delivered out ++ ys ≡ xs)
    go [] h e = rw (pull_empty gives c.queue h) (xs, k, refl)
    go ((sb, body) ∷ ring) h e =
        let (cases, h', size, _) = pull_oldest gives c.queue sb body ring h in
        elim cases [
          | inl out ↦ rw out (
            ring ++ c.push_list,
            record {
              ring = ring;
              holds = h';
              size = size ∙ k.size;
              waiting = k.waiting;
              all = refl;
            },
            sym e,
          )
          | inr (_, no_room, _) ↦ absurd (cc)
        ]

-- Any run of safe pushes, purges and pulls, in any order, on a channel with a ring of `n` bytes that
-- owes `xs`, if malloc and realloc always succeed and every block put is whole and shorter than the
-- ring: what the run delivers, followed by what the channel still owes at the end, is `xs` followed by
-- the blocks put, in order. Under these conditions no block is lost, doubled or overtaken, whether it
-- went through the list or not.
pub run_in_order :
    (n : ℕ) (calls : List Call) (c : Channel) (xs : List Item)
    → Carries n c xs
    → Proper n calls
    → let (out, c') = run c calls in
      (owed : List Item) × Carries n c' owed × (out ++ owed ≡ xs ++ puts calls)
run_in_order n [] c xs k p = (xs, k, sym (append-nil xs))
run_in_order n (put sb body ∷ calls) c xs k (item, small, p) =
    let (_, k') = recv_push_safe n gives c xs sb body k item small refl in
    let (owed, k'', e) = run_in_order n calls _ _ k' p in
    (owed, k'', e ∙ append_assoc xs ((sb, body) ∷ []) (puts calls))
run_in_order n (purge ∷ calls) c xs k p =
    let (k', _, _) = pruge_recv-Carries n c xs k in run_in_order n calls _ xs k' p
run_in_order n (take_one ∷ calls) c xs k p =
    let (ys, k', e') = recv_pull-Carries n c xs k in
    let (owed, k'', e) = run_in_order n calls _ ys k' p in
    let d = delivered (recv_pull gives c).0 in
    (
      owed,
      k'',
      append_assoc d _ owed
          ∙ ap (◌++◌ d) e
          ∙ sym (append_assoc d ys (puts calls))
          ∙ ap (λ l. l ++ puts calls) e',
    )
