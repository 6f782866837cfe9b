-- ===== src/Worker/Refines.antt =====
-- The worker of async-server over the bytes of its two channels does what it does over two queues.
use friend_serv.Base.{
  ℕ, ◌+◌, ◌^◌, ◌≤◌, ◌<◌, ◌≡◌, refl, inl, inr, Bool, true, false, ◌||◌, List, [], ◌∷◌, ◌++◌, ◌==◌,
  leb, if◌then◌else◌, length, arith, sym, subst, Bool-cases,
}
use friend_serv.Shmq.{Block, head_size}
use friend_serv.Shmq.Fifo.{Item, IsItem}
use friend_serv.Channel.{Channel, send_push}
use friend_serv.Channel.Purge.{Carries}
use friend_serv.Channel.Push.{recv_push_safe}
use friend_serv.Worker.{
  Action, send, close, Work, push_out, net_send_cli, net_close_cli, set_flag, proto_block,
  close_block,
}

-- A list of blocks as the channel out of the worker.
abbrev pub append_out : Block → List ℕ → List Item → List Item
append_out sb buf xs = xs ++ (sb, buf) ∷ []

-- All that the plugin sends is shorter than the ring of `n` bytes.
abbrev pub Short : ℕ → List Action → Type 0
Short n [] = Unit {0}
Short n (send fd buf ∷ others) = (length buf < n) × Short n others
Short n (close fd ∷ others) = Short n others

-- The worker `v` with a channel in place of its list.
abbrev pub lift : {C : Type 0} → C → Work (List Item) → Work C
lift c v = record { flags = v.flags; out = c; calls = v.calls }

-- The worker `x` is `y` over a channel that owes its reader the list of `y`.
abbrev pub Goes : ℕ → Work Channel → Work (List Item) → Type 0
Goes n x y = (c : Channel) × Carries n c y.out × (x ≡ lift c y)

-- The ids in g_link_flags are words.
abbrev pub Words : {C : Type 0} → Work C → Type 0
Words v = (fd : ℕ) → v.flags fd < 2 ^ 32

pub if-Goes :
    (n : ℕ) (b : Bool) (x x' : Work Channel) (y y' : Work (List Item))
    → (b ≡ true → Goes n x y)
    → (b ≡ false → Goes n x' y')
    → Goes n (if b then x else x') (if b then y else y')
if-Goes n true x x' y y' l r = l refl
if-Goes n false x x' y y' l r = r refl

if-first :
    {A B : Type 0} (b : Bool) (x y : A × B) → (if b then x else y).1 ≡ (if b then x.1 else y.1)
if-first true x y = refl
if-first false x y = refl

pub set_flag-lt :
    (fd id : ℕ) (flags : ℕ → ℕ)
    → id < 2 ^ 32
    → ((k : ℕ) → flags k < 2 ^ 32)
    → (k : ℕ) → set_flag fd id flags k < 2 ^ 32
set_flag-lt fd id flags h w k = elim (Bool-cases (fd == k)) [ inl e ↦ rw e h | inr e ↦ rw e (w k) ]

module _ (n : ℕ) (small : n ≤ 2 ^ 31) (pos : 0 < n) (malloc : ℕ → Bool)
    (memory : (k : ℕ) → malloc k ≡ true) (max_connect : ℕ) (few : max_connect ≤ 2 ^ 32) where
  abbrev out : Block → List ℕ → Channel → Channel
  out = push_out malloc

  out_step :
      (c : Channel) (xs : List Item) (sb : Block) (buf : List ℕ)
      → Carries n c xs
      → IsItem (sb, buf)
      → sb.len < n
      → Carries n (push_out malloc sb buf c) (append_out sb buf xs)
  unfolding send_push
  out_step c xs sb buf k item short =
      (recv_push_safe n malloc c xs sb buf k item short (memory (head_size + sb.len))).1

  pub net_send_cli-Goes :
      (fd : ℕ) (buf : List ℕ) (c : Channel) (v : Work (List Item))
      → Carries n c v.out
      → Words v
      → length buf < n
      → Goes n
          (net_send_cli out max_connect fd buf (lift c v)).1
          (net_send_cli append_out max_connect fd buf v).1
  net_send_cli-Goes fd buf c v k words short =
      let b = leb max_connect fd || (v.flags fd == 0 || length buf == 0) in
      subst (λ x. Goes n x (net_send_cli append_out max_connect fd buf v).1) (sym (if-first b _ _))
        (subst (Goes n _) (sym (if-first b _ _)) (
          if-Goes n b _ _ _ _ (λ e. (c, k, refl))
            (λ e.
              let sb : Block = record {
                fd = fd;
                id = v.flags fd;
                len = length buf;
                kind = proto_block;
              } in
              (
                out sb buf c,
                out_step c v.out sb buf k
                    (record {
                      block = record {
                        fd = ground (arith, e, few);
                        id = words fd;
                        len = omega (arith, short, small);
                        kind = omega arith;
                      };
                      bytes = refl;
                    })
                    short,
                refl,
              ))))

  pub net_close_cli-Goes :
      (fd : ℕ) (c : Channel) (v : Work (List Item))
      → Carries n c v.out
      → Words v
      → Goes n
          (net_close_cli out max_connect fd (lift c v))
          (net_close_cli append_out max_connect fd v)
  net_close_cli-Goes fd c v k words =
      let b = leb max_connect fd || v.flags fd == 0 in
      if-Goes n b _ _ _ _ (λ e. (c, k, refl))
        (λ e.
          let sb : Block = record { fd = fd; id = v.flags fd; len = 0; kind = close_block } in
          (
            out sb [] c,
            out_step c v.out sb [] k
                (record {
                  block = record {
                    fd = ground (arith, e, few);
                    id = words fd;
                    len = omega arith;
                    kind = omega arith;
                  };
                  bytes = refl;
                })
                pos,
            refl,
          ))
