-- ===== src/Channel/Drain.antt =====
-- The loops of shm_revent.cpp and shm_sevent.cpp, which pull blocks out of a channel and serve each.
use friend_serv.Base.{
  ℕ, zero, suc, ◌≡◌, refl, inl, inr, Bool, true, List, [], ◌∷◌, Option, none, some, ◌>>=◌, take,
  drop, ap, ◌∙◌, arith, Option-cases,
}
use friend_serv.Shmq.{Block, nothing, no_memory, pulled, pull}
use friend_serv.Shmq.Fifo.{Item, Holds}
use friend_serv.Shmq.Oldest.{pull_oldest, pull_empty}
use friend_serv.Channel.{Channel, recv_pull}

module _ {W : Type 0} (step : Block → List ℕ → W → Option W) where
  -- The steps for the blocks of a list.
  unfoldable pub run_all : List Item → W → Option W
  run_all [] w = some w
  run_all ((sb, body) ∷ xs) w = step sb body w >>= (λ w'. run_all xs w')

module _ {W : Type 0} (realloc : ℕ → Bool) (step : Block → List ℕ → W → Option W) where
  -- At most `count` blocks, until a pull does not return 0; none where a step is none.
  unfoldable pub drain : (count : ℕ) → Channel → W → Option (Channel × W)
  drain zero c w = some (c, w)
  drain (suc count) c w =
      let (out, c') = recv_pull realloc c in
      elim out [
        | nothing ↦ some (c, w)
        | no_memory sb ↦ some (c', w)
        | pulled sb body ↦ step sb body w >>= (λ w'. drain count c' w')
      ]

  -- The channel behind the steps, and what the channel holds then.
  abbrev pub Drained : ℕ → List Item → Channel → Option W → Option (Channel × W) → Type 0
  Drained count xs c none got = got ≡ none
  Drained count xs c (some w') got =
      (c' : Channel) × (got ≡ some (c', w'))
      × Holds c'.queue (drop count xs)
      × (c'.push_list ≡ c.push_list)

  abbrev behind_pull : Channel → Channel
  behind_pull c = record c { queue = (pull realloc c.queue).1 }

  drain-nothing :
      (count : ℕ) (c : Channel) (w : W)
      → (pull realloc c.queue).0 ≡ nothing
      → drain (suc count) c w ≡ some (c, w)
  unfolding drain recv_pull
  drain-nothing count c w e = rw (drain, recv_pull, e) refl

  drain-pulled :
      (count : ℕ) (c : Channel) (w : W) (sb : Block) (body : List ℕ)
      → (pull realloc c.queue).0 ≡ pulled sb body
      → drain (suc count) c w ≡ (step sb body w >>= (λ w'. drain count (behind_pull c) w'))
  unfolding drain recv_pull
  drain-pulled count c w sb body e = rw (drain, recv_pull, e) refl

  -- From the channel behind a pull to the one before.
  Drained-pulled :
      (count : ℕ) (xs : List Item) (c : Channel) (ran : Option W) (got got' : Option (Channel × W))
      → got ≡ got'
      → Drained count xs (behind_pull c) ran got'
      → Drained count xs c ran got
  Drained-pulled count xs c none got got' e d = e ∙ d
  Drained-pulled count xs c (some w') got got' e (c', same, holds, list) =
      (c', e ∙ same, holds, list)

  module _ (room : (k : ℕ) → realloc k ≡ true) where
    -- A loop over a ring that holds `xs` does the steps for the oldest of them, in their order, and
    -- leaves the others in the ring, if memory does not run out.
    pub drain_lem :
        (count : ℕ) (xs : List Item) (c : Channel) (w : W)
        → Holds c.queue xs
        → Drained count xs c (run_all step (take count xs) w) (drain count c w)
    unfolding drain run_all
    drain_lem zero xs c w holds = (c, refl, holds, refl)
    drain_lem (suc count) [] c w holds =
        (c, drain-nothing count c w (ap (λ r. r.0) (pull_empty realloc c.queue holds)), holds, refl)
    drain_lem (suc count) ((sb, body) ∷ xs) c w holds =
        let (ways, holds', _, _) = pull_oldest realloc c.queue sb body xs holds in
        elim ways [
          | inl e ↦ elim (Option-cases (step sb body w)) [
            | inl stop ↦ rw stop (
                drain-pulled count c w sb body e ∙ ap (λ r. r >>= drain count (behind_pull c)) stop)
            | inr (w', goes) ↦ rw goes (
                Drained-pulled count xs c (run_all step (take count xs) w') _ _
                  (drain-pulled count c w sb body e
                    ∙ ap (λ r. r >>= drain count (behind_pull c)) goes)
                  (drain_lem count xs (behind_pull c) w' holds'))
          ]
          | inr (_, full, _) ↦ absurd (ground (arith, full, room sb.len))
        ]
