-- ===== src/Channel/Purge.antt =====
-- What a channel of shmq.cpp still has to deliver, and `pruge_recv`.
use friend_serv.Base.{
  ℕ, suc, ◌+◌, ◌≤◌, ◌<◌, ◌≡◌, refl, ◌⊎◌, inl, inr, List, [], ◌∷◌, ◌++◌, arith, ap, sym, ◌∙◌, subst,
  length, append_assoc, append-nil,
}
use friend_serv.Shmq.{Shmq, Block, push}
use friend_serv.Shmq.Fifo.{
  Item, IsItem, Holds, push_appends, wires, length-wires_next, length-Holds,
}
use friend_serv.Channel.{Channel, success, failure, pruge_list, pruge_recv}

-- The blocks that wait in the list are whole and may fit a ring of `n` bytes.
abbrev pub Waiting : ℕ → List Item → Type 0
Waiting n [] = Unit {0}
Waiting n (x ∷ xs) = IsItem x × (x.0.len < n) × Waiting n xs

-- The channel has a ring of `n` bytes, and owes its reader the blocks `xs` in this order.
pub record Carries (n : ℕ) (c : Channel) (xs : List Item) : Type 0 where
  pub ring : List Item
  pub holds : Holds c.queue ring
  pub size : c.queue.size ≡ n
  pub waiting : Waiting n c.push_list
  pub all : xs ≡ ring ++ c.push_list

pruge_list-Carries :
    (n : ℕ) (q : Shmq) (ring waiting : List Item) (woken : ℕ)
    → Holds q ring
    → q.size ≡ n
    → Waiting n waiting
    → let (ret, c) = pruge_list q waiting woken in
      Carries n c (ring ++ waiting)
      × (((ret ≡ success) × (c.push_list ≡ [])) ⊎ ((ret ≡ failure) × (c.push_list ≡ [] → ⊥)))
      × (c.woken + length c.push_list ≡ woken + length waiting)
unfolding pruge_list
pruge_list-Carries n q ring [] woken h e w =
    (record { ring = ring; holds = h; size = e; waiting = tt; all = refl }, inl (refl, refl), refl)
pruge_list-Carries n q ring ((sb, body) ∷ xs) woken h e (item, small, w) =
    let (cases, size, _) = push_appends q ring sb body h item (rw e small) in
    elim cases [
      | inl (done, _, h') ↦
          let (carries, ends, count) =
            pruge_list-Carries n (push q sb body).1 (ring ++ (sb, body) ∷ []) xs (suc woken) h'
              (size ∙ e) w in
          rw done (
            subst (Carries n _) (append_assoc ring ((sb, body) ∷ []) xs) carries,
            ends,
            omega arith,
          )
      | inr (full, _, same) ↦
          rw (full, same)
            (
              record { ring = ring; holds = h; size = e; waiting = (item, small, w); all = refl },
              inr (refl, λ z. cc),
              refl,
            )
    ]

pruge_list-pushed :
    (q : Shmq) (sb : Block) (body : List ℕ) (xs : List Item) (woken : ℕ)
    → (push q sb body).0 ≡ 0
    → pruge_list q ((sb, body) ∷ xs) woken ≡ pruge_list (push q sb body).1 xs (suc woken)
unfolding pruge_list
pruge_list-pushed q sb body xs woken done = rw done refl

-- A purge that leaves a block in the list found no room for all that was owed.
pruge_list-full :
    (n : ℕ) (q : Shmq) (ring waiting : List Item) (woken : ℕ)
    → Holds q ring
    → q.size ≡ n
    → Waiting n waiting
    → (pruge_list q waiting woken).0 ≡ failure
    → n ≤ length (wires (ring ++ waiting))
unfolding pruge_list
pruge_list-full n q ring [] woken h e w bad = absurd (cc)
pruge_list-full n q ring ((sb, body) ∷ xs) woken h e (item, small, w) bad =
    let (cases, size, _) = push_appends q ring sb body h item (rw e small) in
    elim cases [
      | inl (done, _, h') ↦
          subst (λ l. n ≤ length (wires l)) (append_assoc ring ((sb, body) ∷ []) xs)
            (pruge_list-full n (push q sb body).1 (ring ++ (sb, body) ∷ []) xs (suc woken) h'
              (size ∙ e) w (ap (λ r. r.0) (sym (pruge_list-pushed q sb body xs woken done)) ∙ bad))
      | inr (full, more, same) ↦
          omega (arith, more, e, length-wires_next ring sb body xs item.bytes)
    ]

-- `pruge_recv` loses, doubles and reorders nothing: the channel owes the same blocks in the same
-- order. It returns 0 exactly when the list is empty after it, and writes one byte to the pipe for
-- each block that moved from the list to the ring.
pub pruge_recv-Carries :
    (n : ℕ) (c : Channel) (xs : List Item)
    → Carries n c xs
    → let (ret, c') = pruge_recv c in
      Carries n c' xs
      × (((ret ≡ success) × (c'.push_list ≡ [])) ⊎ ((ret ≡ failure) × (c'.push_list ≡ [] → ⊥)))
      × (c'.woken + length c'.push_list ≡ c.woken + length c.push_list)
unfolding pruge_recv
pruge_recv-Carries n c xs k =
    let (carries, ends, count) =
      pruge_list-Carries n c.queue k.ring c.push_list c.woken k.holds k.size k.waiting in
    (subst (Carries n _) (sym k.all) carries, ends, count)

pub pruge_recv-full :
    (n : ℕ) (c : Channel) (xs : List Item)
    → Carries n c xs
    → (pruge_recv c).0 ≡ failure
    → n ≤ length (wires xs)
unfolding pruge_recv
pruge_recv-full n c xs k bad =
    subst (λ l. n ≤ length (wires l)) (sym k.all)
      (pruge_list-full n c.queue k.ring c.push_list c.woken k.holds k.size k.waiting bad)

-- A channel with an empty list owes less than the ring holds.
pub Carries-room :
    (n : ℕ) (c : Channel) (xs : List Item)
    → Carries n c xs
    → c.push_list ≡ []
    → length (wires xs) < n
Carries-room n c xs k e =
    let same : xs ≡ k.ring = k.all ∙ ap (◌++◌ k.ring) e ∙ append-nil k.ring in
    rw same (omega (arith, length-Holds c.queue k.ring k.holds, k.holds.valid.gap, k.size))
