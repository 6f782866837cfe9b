-- ===== src/Channel/Push.antt =====
-- `recv_push` of shmq.cpp on each of its branches.
use friend_serv.Base.{
  ℕ, suc, ◌+◌, ◌≤◌, ◌<◌, ◌≡◌, refl, ◌⊎◌, inl, inr, Bool, true, false, List, [], ◌∷◌, ◌++◌, arith,
  ap, sym, ◌∙◌, length, append_assoc, append-nil, leb, take_all,
}
use friend_serv.Shmq.{Block, push, head_size}
use friend_serv.Shmq.Fifo.{Item, IsItem, push_appends, wires}
use friend_serv.Channel.{Channel, Status, success, failure, pruge_recv, recv_push, defer}
use friend_serv.Channel.Purge.{Carries, Waiting, pruge_recv-Carries, pruge_recv-full, Carries-room}

Waiting-append :
    (n : ℕ) (xs : List Item) (y : Item)
    → Waiting n xs
    → IsItem y
    → y.0.len < n
    → Waiting n (xs ++ y ∷ [])
Waiting-append n [] y w v s = (v, s, tt)
Waiting-append n (x ∷ xs) y w v s = (w.0, w.1, Waiting-append n xs y w.2 v s)

le→leb : (a b : ℕ) → a ≤ b → leb a b ≡ true
le→leb a b h = ground arith

lt→leb : (a b : ℕ) → b < a → leb a b ≡ false
lt→leb a b h = ground arith

module _ (n : ℕ) (malloc : ℕ → Bool) (sb : Block) (body : List ℕ) (item : IsItem (sb, body))
    (small : sb.len < n) where
  defer_safe :
      (ret : Status) (c : Channel) (xs : List Item)
      → malloc (head_size + sb.len) ≡ true
      → Carries n c xs
      → let (ret', c') = defer malloc ret c sb body true in
        (ret' ≡ success) × Carries n c' (xs ++ (sb, body) ∷ [])
  unfolding defer
  defer_safe ret c xs m k =
      let whole = take_all sb.len body (omega (arith, item.bytes)) in
      rw (m, whole)
        (
          refl,
          record {
            ring = k.ring;
            holds = k.holds;
            size = k.size;
            waiting = Waiting-append n c.push_list (sb, body) k.waiting item small;
            all =
                ap (λ l. l ++ (sb, body) ∷ []) k.all
                ∙ append_assoc k.ring c.push_list ((sb, body) ∷ []);
          },
        )

  -- The two ways in which the push into the ring ends, behind a purge that emptied the list.
  direct :
      (c : Channel) (xs : List Item)
      → Carries n c xs
      → c.push_list ≡ []
      → let (full, q) = push c.queue sb body in
        ((full ≡ 0)
          × (length (wires xs) + 16 + sb.len < n)
          × Carries n (record c { queue = q; woken = suc c.woken }) (xs ++ (sb, body) ∷ []))
        ⊎ ((full ≡ 1) × (q ≡ c.queue) × (n ≤ length (wires xs) + 16 + sb.len))
  direct c xs k e =
      let (cases, size, _) =
        push_appends c.queue k.ring sb body k.holds item (omega (arith, k.size, small)) in
      let same : xs ≡ k.ring = k.all ∙ ap (◌++◌ k.ring) e ∙ append-nil k.ring in
      elim cases [
        | inl (done, fits, h) ↦ inl (
          done,
          rw same (omega (arith, k.size)),
          record {
            ring = k.ring ++ (sb, body) ∷ [];
            holds = h;
            size = size ∙ k.size;
            waiting = k.waiting;
            all =
                ap (λ l. l ++ (sb, body) ∷ []) same
                ∙ sym (
                    ap (◌++◌ (k.ring ++ (sb, body) ∷ [])) e
                    ∙ append-nil (k.ring ++ (sb, body) ∷ []));
          },
        )
        | inr (full, more, same_q) ↦ inr (full, same_q, rw same (omega (arith, k.size)))
      ]

-- `recv_push` with `safe` set, of a block shorter than the ring, returns 0 and makes that block the
-- last one that the channel owes, whether the ring had room or not, if `malloc` gives the copy.
pub recv_push_safe :
    (n : ℕ) (malloc : ℕ → Bool) (c : Channel) (xs : List Item) (sb : Block) (body : List ℕ)
    → Carries n c xs
    → IsItem (sb, body)
    → sb.len < n
    → malloc (head_size + sb.len) ≡ true
    → let (ret, c') = recv_push malloc c sb body true in
      (ret ≡ success) × Carries n c' (xs ++ (sb, body) ∷ [])
unfolding recv_push
recv_push_safe n malloc c xs sb body k item small m =
    let (k1, ends, _) = pruge_recv-Carries n c xs k in
    let short : leb (pruge_recv c).1.queue.size sb.len ≡ false =
      lt→leb _ _ (omega (arith, k1.size)) in
    elim ends [
      | inl (done, empty) ↦ elim (direct n malloc sb body item small _ xs k1 empty) [
        | inl (ok, _, k2) ↦ rw (short, done, ok) (refl, k2)
        | inr (full, same, _) ↦
            rw (short, done, full, same) (defer_safe n malloc sb body item small success _ xs m k1)
      ]
      | inr (bad, _) ↦ rw (short, bad) (defer_safe n malloc sb body item small failure _ xs m k1)
    ]

-- `recv_push` without `safe`, of a block shorter than the ring, by the bytes of the blocks that the
-- channel owes: with room in the ring for these, the block, its 16 bytes of header and one byte more it
-- returns 0 and the block is the last one owed; with room for those owed alone, and a byte more, the
-- block is dropped, the list is empty, and it still returns 0; and else the block is dropped, blocks are
-- left in the list, and it returns -1. What was owed stays so, in its order.
pub recv_push_unsafe :
    (n : ℕ) (malloc : ℕ → Bool) (c : Channel) (xs : List Item) (sb : Block) (body : List ℕ)
    → Carries n c xs
    → IsItem (sb, body)
    → sb.len < n
    → let (ret, c') = recv_push malloc c sb body false in
      let owed = length (wires xs) in
      ((owed + 16 + sb.len < n) × (ret ≡ success) × Carries n c' (xs ++ (sb, body) ∷ []))
      ⊎ (((owed < n)
            × (n ≤ owed + 16 + sb.len)
            × (ret ≡ success)
            × Carries n c' xs
            × (c'.push_list ≡ []))
          ⊎ ((n ≤ owed) × (ret ≡ failure) × Carries n c' xs × (c'.push_list ≡ [] → ⊥)))
unfolding recv_push defer
recv_push_unsafe n malloc c xs sb body k item small =
    let (k1, ends, _) = pruge_recv-Carries n c xs k in
    let short : leb (pruge_recv c).1.queue.size sb.len ≡ false =
      lt→leb _ _ (omega (arith, k1.size)) in
    elim ends [
      | inl (done, empty) ↦ elim (direct n malloc sb body item small _ xs k1 empty) [
        | inl (ok, fits, k2) ↦ rw (short, done, ok) (inl (fits, refl, k2))
        | inr (full, same, more) ↦
            let room = Carries-room n (pruge_recv c).1 xs k1 empty in
            rw (short, done, full, same) (inr (inl (room, more, refl, k1, empty)))
      ]
      | inr (bad, left) ↦
          let over = pruge_recv-full n c xs k bad in
          rw (short, bad) (inr (inr (over, refl, k1, left)))
    ]
