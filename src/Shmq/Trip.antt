-- ===== src/Shmq/Trip.antt =====
-- Blocks pushed into a ring of shmq.cpp and pulled out of it again.
use friend_serv.Base.{
  ℕ, zero, suc, ◌<◌, ◌≡◌, refl, inl, inr, Bool, true, List, [], ◌∷◌, ◌++◌, Option, none, some,
  length, arith, append_assoc, append-nil, subst, sym, if◌then◌else◌, ◌==◌,
}
use friend_serv.Shmq.{Shmq, nothing, no_memory, pulled, push, pull}
use friend_serv.Shmq.Fifo.{Item, AllItems, Holds, wires, push_appends, length-wires_next}
use friend_serv.Shmq.Oldest.{pull_oldest}

-- All of the blocks, one after the other; none where one finds no room.
abbrev pub push_all : List Item → Shmq → Option Shmq
push_all [] q = some q
push_all ((sb, body) ∷ xs) q =
    let rest = push_all xs (push q sb body).1 in if (push q sb body).0 == 0 then rest else none

-- So many pulls, until one of them gives no block.
pub pull_all : (realloc : ℕ → Bool) → (count : ℕ) → Shmq → List Item × Shmq
pull_all realloc zero q = ([], q)
pull_all realloc (suc count) q =
    let (out, q') = pull realloc q in
    let (rest, q'') = pull_all realloc count q' in
    elim out [
      | nothing ↦ ([], q')
      | no_memory sb ↦ ([], q')
      | pulled sb body ↦ ((sb, body) ∷ rest, q'')
    ]

push_all-Holds :
    (xs ys : List Item) (q : Shmq)
    → Holds q ys
    → AllItems xs
    → length (wires (ys ++ xs)) < q.size
    → (q' : Shmq) × (push_all xs q ≡ some q') × Holds q' (ys ++ xs)
push_all-Holds [] ys q h items room = (q, refl, subst (Holds q) (sym (append-nil ys)) h)
push_all-Holds ((sb, body) ∷ xs) ys q h (item, items) room =
    let next = length-wires_next ys sb body xs item.bytes in
    let (cases, size, _) = push_appends q ys sb body h item (omega (arith, room, next)) in
    elim cases [
      | inl (done, _, h1) ↦
          let one_on = append_assoc ys ((sb, body) ∷ []) xs in
          let (q', all, h') =
            push_all-Holds xs (ys ++ (sb, body) ∷ []) (push q sb body).1 h1 items
              (rw one_on (omega (arith, size, room))) in
          (q', rw done all, subst (Holds q') one_on h')
      | inr (_, full, _) ↦ absurd (omega (arith, full, room, next))
    ]

pull_all-Holds :
    (realloc : ℕ → Bool) (xs : List Item) (q : Shmq)
    → ((k : ℕ) → realloc k ≡ true)
    → Holds q xs
    → (q' : Shmq) × (pull_all realloc (length xs) q ≡ (xs, q')) × Holds q' []
unfolding pull_all
pull_all-Holds realloc [] q memory h = (q, refl, h)
pull_all-Holds realloc ((sb, body) ∷ xs) q memory h =
    let (cases, h1, _, _) = pull_oldest realloc q sb body xs h in
    let (q', all, h') = pull_all-Holds realloc xs (pull realloc q).1 memory h1 in
    elim cases [
      | inl out ↦ (q', rw (pull_all, out, all) refl, h')
      | inr (_, fails, _) ↦ absurd (ground (arith, fails, memory sb.len))
    ]

-- Blocks pushed into an empty ring, wherever its positions are, and all of which with their headers
-- take fewer bytes than the ring: each push finds room, and as many pulls, where memory does not run
-- out, give the same blocks back, in their order, with each field and byte as it was, and leave the ring
-- empty.
pub pull_all-push_all :
    (realloc : ℕ → Bool) (xs : List Item) (q : Shmq)
    → ((k : ℕ) → realloc k ≡ true)
    → Holds q []
    → AllItems xs
    → length (wires xs) < q.size
    → (q1 q2 : Shmq) × (push_all xs q ≡ some q1)
      × (pull_all realloc (length xs) q1 ≡ (xs, q2))
      × Holds q2 []
pull_all-push_all realloc xs q memory h items room =
    let (q1, pushes, h1) = push_all-Holds xs [] q h items room in
    let (q2, pulls, h2) = pull_all-Holds realloc xs q1 memory h1 in (q1, q2, pushes, pulls, h2)
