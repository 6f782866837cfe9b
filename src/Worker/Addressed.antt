-- ===== src/Worker/Addressed.antt =====
-- Whom the blocks are for that a worker sends: net_send_cli and net_close_cli under shm_revent.cpp.
use friend_serv.Base.{
  ℕ, ◌≡◌, refl, inl, inr, Bool, true, false, ◌||◌, List, [], ◌∷◌, ◌==◌, leb, if◌then◌else◌, length,
  Bool-cases, subst, ==_iff,
}
use friend_serv.Shmq.{Block, un32}
use friend_serv.Shmq.Fifo.{Item}
use friend_serv.Worker.{
  Call, proc_pkg_cli, link_down_cli, link_up_cli, Action, send, close, Plugin, Work, net_send_cli,
  net_close_cli, act_all, perform, flagged, on_block, set_flag, proto_block, close_block,
  login_block,
}
use friend_serv.Worker.Refines.{append_out}
use friend_serv.Worker.Serves.{serve}

module _ (IsLink : (fd id : ℕ) → Type 0) where
  -- The descriptor and id of each block are those of a link.
  abbrev pub FromLinks : List Item → Type 0
  FromLinks [] = Unit
  FromLinks (x ∷ xs) = IsLink x.0.fd x.0.id × FromLinks xs

  -- The same, with no id 0.
  abbrev pub ForLinks : List Item → Type 0
  ForLinks [] = Unit
  ForLinks (x ∷ xs) = (IsLink x.0.fd x.0.id × ((x.0.id == 0) ≡ false)) × ForLinks xs

  -- The flags that are set are ids of links.
  abbrev pub Known : Work (List Item) → Type 0
  Known v = (fd : ℕ) → (v.flags fd == 0) ≡ false → IsLink fd (v.flags fd)

  abbrev IsAddressed : Work (List Item) → Type 0
  IsAddressed v = Known v × ForLinks v.out

  append_out-ForLinks :
      (sb : Block) (body : List ℕ) (xs : List Item)
      → ForLinks xs
      → IsLink sb.fd sb.id
      → (sb.id == 0) ≡ false
      → ForLinks (append_out sb body xs)
  append_out-ForLinks sb body [] h link id = ((link, id), tt)
  append_out-ForLinks sb body (x ∷ xs) (h, hs) link id =
      (h, append_out-ForLinks sb body xs hs link id)

  set_flag-Known :
      (fd id : ℕ) (v : Work (List Item))
      → Known v
      → ((id == 0) ≡ false → IsLink fd id)
      → (other : ℕ) → (set_flag fd id v.flags other == 0) ≡ false
      → IsLink other (set_flag fd id v.flags other)
  set_flag-Known fd id v known link other = elim (Bool-cases (fd == other)) [
    | inl e ↦ rw e (λ h. subst (λ k. IsLink k id) ((==_iff fd other).0 e) (link h))
    | inr e ↦ rw e (known other)
  ]

  if-IsAddressed :
      (b : Bool) (x y : Work (List Item))
      → (b ≡ true → IsAddressed x)
      → (b ≡ false → IsAddressed y)
      → IsAddressed (if b then x else y)
  if-IsAddressed true x y l r = l refl
  if-IsAddressed false x y l r = r refl

  middle : (a b c : Bool) → (a || (b || c)) ≡ false → b ≡ false
  middle true b c e = absurd (cc)
  middle false true c e = absurd (cc)
  middle false false c e = refl

  second : (a b : Bool) → (a || b) ≡ false → b ≡ false
  second true b e = absurd (cc)
  second false b e = e

  module _ (max_connect : ℕ) where
    net_send_cli-IsAddressed :
        (fd : ℕ) (buf : List ℕ) (v : Work (List Item))
        → IsAddressed v
        → IsAddressed (net_send_cli append_out max_connect fd buf v).1
    net_send_cli-IsAddressed fd buf v (known, out) =
        elim (Bool-cases (leb max_connect fd || (v.flags fd == 0 || length buf == 0))) [
          | inl e ↦ rw e (known, out)
          | inr e ↦
              let set = middle (leb max_connect fd) (v.flags fd == 0) (length buf == 0) e in
              rw e (known, append_out-ForLinks _ buf v.out out (known fd set) set)
        ]

    net_close_cli-IsAddressed :
        (fd : ℕ) (v : Work (List Item))
        → IsAddressed v
        → IsAddressed (net_close_cli append_out max_connect fd v)
    net_close_cli-IsAddressed fd v (known, out) =
        elim (Bool-cases (leb max_connect fd || v.flags fd == 0)) [
          | inl e ↦ rw e (known, out)
          | inr e ↦
              let set = second (leb max_connect fd) (v.flags fd == 0) e in
              rw e (
                set_flag-Known fd 0 v known (λ z. absurd (cc)),
                append_out-ForLinks _ [] v.out out (known fd set) set,
              )
        ]

    act_all-IsAddressed :
        (actions : List Action) (v : Work (List Item))
        → IsAddressed v
        → IsAddressed (act_all append_out max_connect actions v)
    act_all-IsAddressed [] v h = h
    act_all-IsAddressed (send fd buf ∷ others) v h =
        act_all-IsAddressed others _ (net_send_cli-IsAddressed fd buf v h)
    act_all-IsAddressed (close fd ∷ others) v h =
        act_all-IsAddressed others _ (net_close_cli-IsAddressed fd v h)

    module _ (p : Plugin) where
      perform-IsAddressed :
          (c : Call) (v : Work (List Item))
          → IsAddressed v
          → IsAddressed (perform append_out max_connect p c v)
      perform-IsAddressed c v h = act_all-IsAddressed (p.acts v.calls c) _ h

      on_block-IsAddressed :
          (sb : Block) (body : List ℕ) (v : Work (List Item))
          → IsLink sb.fd sb.id
          → IsAddressed v
          → IsAddressed (on_block append_out max_connect p sb body v)
      on_block-IsAddressed sb body v link (known, out) =
          let with_flag : IsAddressed (flagged append_out max_connect p sb.fd sb.id v) =
            (set_flag-Known sb.fd sb.id v known (λ e. link), out) in
          if-IsAddressed (sb.kind == proto_block) _ _
            (λ e. perform-IsAddressed (proc_pkg_cli sb.fd body) _ with_flag)
            (λ e.
              if-IsAddressed (sb.kind == close_block) _ _
                (λ e1.
                  if-IsAddressed (v.flags sb.fd == 0) _ _ (λ e2. (known, out))
                    (λ e2.
                      let w =
                        if p.has_link_down
                        then perform append_out max_connect p (link_down_cli sb.fd) v
                        else v in
                      let (known', out') : IsAddressed w =
                        if-IsAddressed p.has_link_down _ _
                          (λ e3. perform-IsAddressed (link_down_cli sb.fd) v (known, out))
                          (λ e3. (known, out)) in
                      (set_flag-Known sb.fd 0 w known' (λ z. absurd (cc)), out')))
                (λ e1.
                  if-IsAddressed (sb.kind == login_block) _ _
                    (λ e2.
                      if-IsAddressed p.has_link_up _ _
                        (λ e3. perform-IsAddressed (link_up_cli sb.fd (un32 body 0)) _ with_flag)
                        (λ e3. with_flag))
                    (λ e2. (known, out))))

      -- The blocks served by a worker whose flags were ids of links: if each of them came from a link,
      -- then each block that the worker sent, whatever the plugin does, is for the descriptor and the id
      -- of one of those links, and no id is 0.
      pub serve-ForLinks :
          (xs : List Item) (v : Work (List Item))
          → FromLinks xs
          → Known v
          → ForLinks v.out
          → ForLinks (serve max_connect p xs v).out
      serve-ForLinks [] v from known out = out
      serve-ForLinks ((sb, body) ∷ xs) v (link, links) known out =
          let (known', out') = on_block-IsAddressed sb body v link (known, out) in
          serve-ForLinks xs _ links known' out'
