-- ===== src/Conn/Answers.antt =====
-- Which answers reach a connection: handle_input of shm_sevent.cpp, seen from one descriptor.
use friend_serv.Base.{
  ℕ, ◌-◌, ◌<◌, ◌≡◌, refl, inl, inr, Bool, true, false, ◌&&◌, List, [], ◌∷◌, Option, none, some,
  ◌==◌, leb, take, drop, arith, sym, ◌∙◌, ap, subst, Bool-cases,
}
use friend_serv.TcpClient.{Event}
use friend_serv.Shmq.{Block}
use friend_serv.Shmq.Fifo.{Item, Holds}
use friend_serv.Channel.{Channel}
use friend_serv.Channel.Drain.{drain, drain_lem, run_all, Drained}
use friend_serv.Socket.{Socket}
use friend_serv.Conn.Seats.{
  Seat, seat, addressed, obey, obey_all, Named, obey-Named, answer-size, answer-seat, obey_all-none,
  answer-empty,
}
use friend_serv.Conn.{Conns, answer, handle_input}

module _ (malloc : ℕ → Bool) (net : (fd k : ℕ) → Event) where
  abbrev answers : List Item → Conns → Conns
  answers [] w = w
  answers ((sb, body) ∷ xs) w = answers xs (answer malloc net sb body w)

  module _ (fd id : ℕ) (named : (id == 0) ≡ false) where
    answers-seat :
        (xs : List Item) (w : Conns) (v : Seat)
        → seat fd w ≡ v
        → Named id v.0
        → leb w.reactor.size fd ≡ false
        → seat fd (answers xs w) ≡ obey_all malloc (net fd) (addressed fd id xs) v
    answers-seat [] w (o, k) e n small = e
    answers-seat ((sb, body) ∷ xs) w (none, k) e n small =
        answers-seat xs (answer malloc net sb body w) (none, k)
          (answer-empty malloc net fd k sb body w e) tt
          (ap (λ m. leb m fd) (answer-size malloc net sb body w) ∙ small)
        ∙ obey_all-none malloc net fd k (addressed fd id xs)
        ∙ sym (obey_all-none malloc net fd k (addressed fd id ((sb, body) ∷ xs)))
    answers-seat ((sb, body) ∷ xs) w (some s, k) e n small =
        let is : w.reactor.handlers fd ≡ some s = ap (λ v. v.0) e in
        let turn : w.turns fd ≡ k = ap (λ v. v.1) e in
        let small' = ap (λ m. leb m fd) (answer-size malloc net sb body w) ∙ small in
        let step = answer-seat malloc net fd sb body w s is (ap (λ m. m == 0) n ∙ named) small in
        elim (Bool-cases (sb.fd == fd && id == sb.id)) [
          | inl own ↦ rw own (
              answers-seat xs (answer malloc net sb body w) (obey malloc (net fd) (sb, body) s k)
                (step ∙ rw (n, turn, own) refl)
                (subst (λ m. Named m (obey malloc (net fd) (sb, body) s k).0) n
                  (obey-Named malloc (net fd) (sb, body) s k))
                small')
          | inr other ↦ rw other (
              answers-seat xs (answer malloc net sb body w) (some s, k)
                (step ∙ rw (n, turn, other) refl) n small')
        ]

  abbrev step : Block → List ℕ → Conns → Option Conns
  step sb body w = some (answer malloc net sb body w)

  run_all-answers : (xs : List Item) (w : Conns) → run_all step xs w ≡ some (answers xs w)
  unfolding run_all
  run_all-answers [] w = refl
  run_all-answers ((sb, body) ∷ xs) w = run_all-answers xs (answer malloc net sb body w)

  -- handle_input of the process with the connections, on a channel whose ring holds the blocks `xs`,
  -- seen from a connection: its loop ends, behind the oldest 1024 blocks or all; and the connection did
  -- what it does alone, in their order, by those of them that carry its descriptor and its id, until
  -- one of them ends it. Those for an earlier connection at the descriptor do nothing, and the others
  -- nothing to it. Memory for a block must not run out, and the id of the connection is not 0.
  pub handle_input_answers :
      (realloc : ℕ → Bool) (xs : List Item) (c : Channel) (w : Conns) (fd : ℕ) (s : Socket)
      → ((k : ℕ) → realloc k ≡ true)
      → Holds c.queue xs
      → w.reactor.handlers fd ≡ some s
      → 0 < s.id
      → fd < w.reactor.size
      → (c' : Channel) × (w' : Conns) × (handle_input malloc net realloc c w ≡ some (c', w'))
        × Holds c'.queue (drop 1024 xs)
        × (seat fd w'
            ≡ obey_all malloc (net fd) (addressed fd s.id (take 1024 xs)) (some s, w.turns fd))
  handle_input_answers realloc xs c w fd s room holds is named small =
      let c1 : Channel = record c { woken = c.woken - 1024 } in
      let (c', same, holds', list) =
        subst (λ r. Drained realloc step 1024 xs c1 r (drain realloc step 1024 c1 w))
          (run_all-answers (take 1024 xs) w) (drain_lem realloc step room 1024 xs c1 w holds) in
      (
        c',
        answers (take 1024 xs) w,
        same,
        holds',
        answers-seat fd s.id (ground (arith, named)) (take 1024 xs) w (some s, w.turns fd)
            (ap (λ o. (o, w.turns fd)) is) refl (ground (arith, small)),
      )
