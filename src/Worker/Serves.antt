-- ===== src/Worker/Serves.antt =====
-- handle_input of shm_revent.cpp over the bytes of the two channels, as the service of the blocks of one
-- queue into another.
use friend_serv.Base.{
  ℕ, zero, suc, ◌-◌, ◌^◌, ◌≤◌, ◌<◌, ◌≡◌, refl, inl, inr, Bool, true, false, ◌||◌, List, [], ◌∷◌,
  ◌++◌, Option, some, ◌>>=◌, ◌==◌, leb, if◌then◌else◌, length, take, drop, arith, sym, ◌∙◌, ap,
  subst, lt→ltb, Bool-cases,
}
use friend_serv.Shmq.{Block, un32}
use friend_serv.Shmq.Fifo.{Item, Holds, AllItems}
use friend_serv.Channel.Drain.{Drained, drain, drain_lem, run_all}
use friend_serv.Channel.{Channel}
use friend_serv.Channel.Purge.{Carries}
use friend_serv.Worker.{
  Call, proc_pkg_cli, link_down_cli, link_up_cli, Action, send, close, Plugin, Work, push_out,
  net_send_cli, net_close_cli, act, act_all, perform, flagged, on_login, on_block, take_block,
  handle_input, proto_block, close_block, login_block,
}
use friend_serv.Worker.Refines.{
  append_out, Short, lift, Goes, Words, set_flag-lt, net_send_cli-Goes, net_close_cli-Goes,
}

module _ (max_connect : ℕ) where
  -- The descriptors of the blocks are below g_max_connect.
  abbrev pub InRange : List Item → Type 0
  InRange [] = Unit {0}
  InRange ((sb, body) ∷ xs) = (sb.fd < max_connect) × InRange xs

module _ (max_connect : ℕ) (p : Plugin) where
  -- The blocks served one after the other, over a list.
  abbrev pub serve : List Item → Work (List Item) → Work (List Item)
  serve [] v = v
  serve ((sb, body) ∷ xs) v = serve xs (on_block append_out max_connect p sb body v)

module _ (n max_connect : ℕ) (p : Plugin) where
  -- What the loop leaves, on a channel that held `xs`, behind at most `count` blocks.
  abbrev pub Served :
      ℕ → List Item → Channel → Work (List Item) → Option (Channel × Work Channel) → Type 0
  Served count xs c_in v got =
      (c_in' : Channel) × (c' : Channel) × (got
        ≡ some (c_in', lift c' (serve max_connect p (take count xs) v)))
      × Holds c_in'.queue (drop count xs)
      × (c_in'.push_list ≡ c_in.push_list)
      × Carries n c' (serve max_connect p (take count xs) v).out

-- A worker over bytes that goes as one over a list, whose ids are words.
abbrev Works : ℕ → Work Channel → Work (List Item) → Type 0
Works n x y = Goes n x y × Words y

if-Works :
    (n : ℕ) (b : Bool) (x x' : Work Channel) (y y' : Work (List Item))
    → (b ≡ true → Works n x y)
    → (b ≡ false → Works n x' y')
    → Works n (if b then x else x') (if b then y else y')
if-Works n true x x' y y' l r = l refl
if-Works n false x x' y y' l r = r refl

-- One operation behind another.
Works-then :
    (n : ℕ) (x : Work Channel) (y : Work (List Item)) (f : Work Channel → Work Channel)
    (g : Work (List Item) → Work (List Item))
    → Works n x y
    → ((c : Channel) (v : Work (List Item))
        → Carries n c v.out
        → Words v
        → Works n (f (lift c v)) (g v))
    → Works n (f x) (g y)
Works-then n x y f g ((c, k, e), words) h = subst (λ z. Works n (f z) (g y)) (sym e) (h c y k words)

net_send_cli-Words :
    (max_connect fd : ℕ) (buf : List ℕ) (v : Work (List Item))
    → Words v
    → Words (net_send_cli append_out max_connect fd buf v).1
net_send_cli-Words max_connect fd buf v words =
    elim (Bool-cases (leb max_connect fd || (v.flags fd == 0 || length buf == 0))) [
      | inl e ↦ rw e words
      | inr e ↦ rw e words
    ]

net_close_cli-Words :
    (max_connect fd : ℕ) (v : Work (List Item))
    → Words v
    → Words (net_close_cli append_out max_connect fd v)
net_close_cli-Words max_connect fd v words =
    elim (Bool-cases (leb max_connect fd || v.flags fd == 0)) [
      | inl e ↦ rw e words
      | inr e ↦ rw e (set_flag-lt fd 0 v.flags (omega arith) words)
    ]

module _ (n : ℕ) (small : n ≤ 2 ^ 31) (pos : 0 < n) (malloc : ℕ → Bool)
    (memory : (k : ℕ) → malloc k ≡ true) (max_connect : ℕ) (few : max_connect ≤ 2 ^ 32) where
  abbrev out : Block → List ℕ → Channel → Channel
  out = push_out malloc

  act-Works :
      (a : Action) (c : Channel) (v : Work (List Item))
      → Short n (a ∷ [])
      → Carries n c v.out
      → Words v
      → Works n (act out max_connect a (lift c v)) (act append_out max_connect a v)
  act-Works (send fd buf) c v (short, _) k words = (
    net_send_cli-Goes n small pos malloc memory max_connect few fd buf c v k words short,
    net_send_cli-Words max_connect fd buf v words,
  )
  act-Works (close fd) c v short k words = (
    net_close_cli-Goes n small pos malloc memory max_connect few fd c v k words,
    net_close_cli-Words max_connect fd v words,
  )

  act_all-Works :
      (actions : List Action) (c : Channel) (v : Work (List Item))
      → Short n actions
      → Carries n c v.out
      → Words v
      → Works n
          (act_all out max_connect actions (lift c v))
          (act_all append_out max_connect actions v)
  act_all-Works [] c v short k words = ((c, k, refl), words)
  act_all-Works (send fd buf ∷ others) c v (short, shorts) k words =
      Works-then n _ _ (act_all out max_connect others) (act_all append_out max_connect others)
        (act-Works (send fd buf) c v (short, tt) k words)
        (λ c' v' k' words'. act_all-Works others c' v' shorts k' words')
  act_all-Works (close fd ∷ others) c v shorts k words =
      Works-then n _ _ (act_all out max_connect others) (act_all append_out max_connect others)
        (act-Works (close fd) c v tt k words)
        (λ c' v' k' words'. act_all-Works others c' v' shorts k' words')

  module _ (p : Plugin)
      (polite : (calls : List Call) (call : Call) → Short n (p.acts calls call)) where
    perform-Works :
        (call : Call) (c : Channel) (v : Work (List Item))
        → Carries n c v.out
        → Words v
        → Works n
            (perform out max_connect p call (lift c v))
            (perform append_out max_connect p call v)
    perform-Works call c v k words =
        act_all-Works (p.acts v.calls call) c (record v { calls = v.calls ++ call ∷ [] })
          (polite v.calls call) k words

    flagged-Works :
        (fd id : ℕ) (c : Channel) (v : Work (List Item))
        → id < 2 ^ 32
        → Carries n c v.out
        → Words v
        → Works n
            (flagged out max_connect p fd id (lift c v))
            (flagged append_out max_connect p fd id v)
    flagged-Works fd id c v h k words = ((c, k, refl), set_flag-lt fd id v.flags h words)

    on_login-Works :
        (sb : Block) (body : List ℕ) (c : Channel) (v : Work (List Item))
        → Carries n c v.out
        → Words v
        → Works n
            (on_login out max_connect p sb body (lift c v))
            (on_login append_out max_connect p sb body v)
    on_login-Works sb body c v k words =
        if-Works n p.has_link_up _ _ _ _
          (λ e. perform-Works (link_up_cli sb.fd (un32 body 0)) c v k words)
          (λ e. ((c, k, refl), words))

    on_block-Works :
        (sb : Block) (body : List ℕ) (c : Channel) (v : Work (List Item))
        → sb.id < 2 ^ 32
        → Carries n c v.out
        → Words v
        → Works n
            (on_block out max_connect p sb body (lift c v))
            (on_block append_out max_connect p sb body v)
    on_block-Works sb body c v word k words =
        let with_flag = flagged-Works sb.fd sb.id c v word k words in
        if-Works n (sb.kind == proto_block) _ _ _ _
          (λ e.
            Works-then n _ _ (perform out max_connect p (proc_pkg_cli sb.fd body))
              (perform append_out max_connect p (proc_pkg_cli sb.fd body)) with_flag
              (λ c' v' k' words'. perform-Works (proc_pkg_cli sb.fd body) c' v' k' words'))
          (λ e.
            if-Works n (sb.kind == close_block) _ _ _ _
              (λ e1.
                if-Works n (v.flags sb.fd == 0) _ _ _ _ (λ e2. ((c, k, refl), words))
                  (λ e2.
                    Works-then n _ _ (flagged out max_connect p sb.fd 0)
                      (flagged append_out max_connect p sb.fd 0)
                      (if-Works n p.has_link_down _ _ _ _
                        (λ e3. perform-Works (link_down_cli sb.fd) c v k words)
                        (λ e3. ((c, k, refl), words)))
                      (λ c' v' k' words'. flagged-Works sb.fd 0 c' v' (omega arith) k' words')))
              (λ e1.
                if-Works n (sb.kind == login_block) _ _ _ _
                  (λ e2.
                    Works-then n _ _ (on_login out max_connect p sb body)
                      (on_login append_out max_connect p sb body) with_flag
                      (λ c' v' k' words'. on_login-Works sb body c' v' k' words'))
                  (λ e2. ((c, k, refl), words))))

    abbrev step : Block → List ℕ → Work Channel → Option (Work Channel)
    step sb body w = take_block out max_connect p sb body w

    step-in :
        (sb : Block) (body : List ℕ) (w : Work Channel)
        → sb.fd < max_connect
        → step sb body w ≡ some (on_block out max_connect p sb body w)
    step-in sb body w h = rw (lt→ltb sb.fd max_connect h) refl

    -- The oldest blocks, served as over a list.
    run_all-serve :
        (count : ℕ) (xs : List Item) (c : Channel) (v : Work (List Item))
        → AllItems xs
        → InRange max_connect xs
        → Carries n c v.out
        → Words v
        → let v' = serve max_connect p (take count xs) v in
          (c' : Channel) × (run_all step (take count xs) (lift c v) ≡ some (lift c' v'))
          × Carries n c' v'.out
    unfolding run_all
    run_all-serve zero xs c v items range k words = (c, refl, k)
    run_all-serve (suc count) [] c v items range k words = (c, refl, k)
    run_all-serve (suc count) ((sb, body) ∷ xs) c v (item, items) (range, ranges) k words =
        let v1 = on_block append_out max_connect p sb body v in
        let ((c1, k1, e1), words1) = on_block-Works sb body c v item.block.id k words in
        let (c', same, k') = run_all-serve count xs c1 v1 items ranges k1 words1 in
        (
          c',
          ap (λ r. r >>= run_all step (take count xs)) (step-in sb body (lift c v) range)
              ∙ ap (run_all step (take count xs)) e1
              ∙ same,
          k',
        )

    module _ (realloc : ℕ → Bool) (room : (k : ℕ) → realloc k ≡ true) where
      -- handle_input of a worker, on a channel whose ring holds the blocks `xs`: it serves the oldest of
      -- them, 1024 at most, one after the other as over a list, and leaves the others in the ring; and
      -- the channel out owes its reader, in their order, the blocks that it owed and those that the
      -- plugin sent meanwhile. Memory must not run out, the descriptors must be below g_max_connect,
      -- and all that the plugin sends must be shorter than the ring.
      pub handle_input_serves :
          (xs : List Item) (c_in c : Channel) (v : Work (List Item))
          → Holds c_in.queue xs
          → InRange max_connect xs
          → Carries n c v.out
          → Words v
          → Served n max_connect p 1024 xs c_in v
              (handle_input out max_connect p realloc c_in (lift c v))
      handle_input_serves xs c_in c v holds range k words =
          let (c', same, k') = run_all-serve 1024 xs c v holds.items range k words in
          let woken : Channel = record c_in { woken = c_in.woken - 1024 } in
          let (c_in', same', rest, list) =
            subst
              (λ r. Drained realloc step 1024 xs woken r (drain realloc step 1024 woken (lift c v)))
              same (drain_lem realloc step room 1024 xs woken (lift c v) holds) in
          (c_in', c', same', rest, list, k')
