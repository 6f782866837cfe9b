-- ===== src/Socket/Feeds.antt =====
-- From the stream of a client to the channels: handle_input of tcp_socket.cpp over recv_push of shmq.cpp.
use friend_serv.Base.{
  ℕ, zero, suc, ◌%◌, ◌^◌, ◌-◌, ◌≤◌, ◌<◌, ◌≡◌, refl, inl, inr, Bool, false, List, [], ◌∷◌, ◌++◌,
  some, ◌==◌, length, take, min, get_elem?, arith, Option-cases, Bool-cases, subst, sym,
}
use friend_serv.Base.Words.{add32}
use friend_serv.TcpClient.{moved}
use friend_serv.Shmq.Fifo.{Item, IsItem}
use friend_serv.Channel.{Channel}
use friend_serv.Channel.Purge.{Carries}
use friend_serv.Channel.Push.{recv_push_unsafe}
use friend_serv.Worker.{proto_block}
use friend_serv.Linker.Input.{Receiver, handle_input}
use friend_serv.Linker.Packets.{Cuts, handle_input-Cuts}
use friend_serv.Linker.Worlds.{Keeps, DeliverKeeps, handle_input-Keeps}
use friend_serv.Socket.{
  Socket, Queues, Gate, replace_at, at_channel, socket_plugin, selected, next_random, read_stream,
}

-- Each channel has a ring of `n` bytes and owes its worker these blocks.
abbrev pub AllCarry : ℕ → List Channel → List (List Item) → Type 0
AllCarry n [] [] = Unit
AllCarry n [] (xs ∷ xss) = ⊥
AllCarry n (c ∷ cs) [] = ⊥
AllCarry n (c ∷ cs) (xs ∷ xss) = Carries n c xs × AllCarry n cs xss

-- One block more for the channel at a position.
abbrev pub add_at : ℕ → Item → List (List Item) → List (List Item)
add_at i x [] = []
add_at zero x (xs ∷ xss) = (xs ++ x ∷ []) ∷ xss
add_at (suc i) x (xs ∷ xss) = xs ∷ add_at i x xss

-- A package of this socket as a block.
abbrev pub block_of : Socket → List ℕ → Item
block_of s pkg = (record { fd = s.fd; id = s.id; len = length pkg; kind = proto_block }, pkg)

-- The packages, in their order, each given to one channel behind what that owed, or dropped.
pub data Fed (s : Socket) (xss : List (List Item)) : List (List ℕ) → List (List Item) → Type 0 where
  untouched : Fed s xss [] xss
  given :
      (i : ℕ) (pkg : List ℕ) (pkgs : List (List ℕ)) (yss : List (List Item))
      → Fed s xss pkgs yss
      → Fed s xss (pkgs ++ pkg ∷ []) (add_at i (block_of s pkg) yss)
  dropped :
      (pkg : List ℕ) (pkgs : List (List ℕ)) (yss : List (List Item))
      → Fed s xss pkgs yss
      → Fed s xss (pkgs ++ pkg ∷ []) yss

-- The channels owe what they owed and these packages, but those dropped.
abbrev pub Owe : ℕ → Socket → List (List Item) → List (List ℕ) → Queues → Type 0
Owe n s xss pkgs q = (yss : List (List Item)) × AllCarry n q.channels yss × Fed s xss pkgs yss

AllCarry-found :
    (n : ℕ) (cs : List Channel) (xss : List (List Item)) (i : ℕ) (c : Channel) (x : Item)
    → AllCarry n cs xss
    → get_elem? cs i ≡ some c
    → (xs : List Item) × Carries n c xs
      × ((c' : Channel)
          → Carries n c' (xs ++ x ∷ [])
          → AllCarry n (replace_at i c' cs) (add_at i x xss))
      × ((c' : Channel) → Carries n c' xs → AllCarry n (replace_at i c' cs) xss)
AllCarry-found n [] xss i c x h e = absurd (cc)
AllCarry-found n (d ∷ cs) [] i c x h e = elim h [ ]
AllCarry-found n (d ∷ cs) (xs ∷ xss) zero c x (k, h) e =
    let same : d ≡ c = cc in
    (xs, subst (λ b. Carries n b xs) same k, λ c' k'. (k', h), λ c' k'. (k', h))
AllCarry-found n (d ∷ cs) (xs ∷ xss) (suc i) c x (k, h) e =
    let (ys, k', more, same) = AllCarry-found n cs xss i c x h e in
    (ys, k', λ c' k''. (k, more c' k''), λ c' k''. (k, same c' k''))

module _ (n : ℕ) (small : n ≤ 2 ^ 31) (malloc : ℕ → Bool) (g : Gate) (fits : g.max_pkg_len < n)
    (s : Socket) (fd : s.fd < 2 ^ 32) (id : s.id < 2 ^ 32) (xss : List (List Item)) where
  at_channel-Owe :
      (pkgs : List (List ℕ)) (pkg : List ℕ) (i : ℕ) (q : Queues)
      → length pkg ≤ g.max_pkg_len
      → Owe n s xss pkgs q
      → Owe n s xss (pkgs ++ pkg ∷ []) (at_channel malloc g s pkg i q).1
  at_channel-Owe pkgs pkg i q short (yss, carry, fed) =
      elim (Option-cases (get_elem? q.channels i)) [
        | inl e ↦ rw e (yss, carry, dropped pkg pkgs yss fed)
        | inr (c, e) ↦
            let (xs, k, more, same) =
              AllCarry-found n q.channels yss i c (block_of s pkg) carry e in
            let item : IsItem (block_of s pkg) = record {
              block = record {
                fd = fd;
                id = id;
                len = omega (arith, short, fits, small);
                kind = omega arith;
              };
              bytes = refl;
            } in
            elim (recv_push_unsafe n malloc c xs (block_of s pkg).0 pkg k item
              (omega (arith, short, fits))) [
                | inl (_, _, k') ↦
                    rw e (add_at i (block_of s pkg) yss, more _ k', given i pkg pkgs yss fed)
                | inr (inl (_, _, _, k', _)) ↦ rw e (yss, same _ k', dropped pkg pkgs yss fed)
                | inr (inr (_, _, k', _)) ↦ rw e (yss, same _ k', dropped pkg pkgs yss fed)
              ]
      ]

  deliver-Owe : DeliverKeeps (Owe n s xss) (socket_plugin malloc g s)
  deliver-Owe pkgs pkg q short owe =
      let channel = selected g.select_channel pkg in
      elim (Bool-cases (channel == 2 ^ 32 - 1)) [
        | inl e ↦ rw e (
            at_channel-Owe pkgs pkg (add32 q.random_channel 1 % length q.channels) (next_random q)
              short owe)
        | inr e ↦ rw e (at_channel-Owe pkgs pkg channel q short owe)
      ]

  -- handle_input of a client's socket that is not shut, over channels with rings of `n` bytes, where no
  -- package may be as long: its loop ends, and cuts the stream into packages in their order, as those
  -- of a server are cut. Each package, in this order, becomes the last block that one channel owes its
  -- worker, with the descriptor and id of the socket, or it is dropped; nothing else changes.
  pub handle_input_feeds :
      (k : ℕ) (stream : List ℕ) (q : Queues)
      → s.link.is_closed ≡ false
      → length s.bytes < s.size
      → AllCarry n q.channels xss
      → let got = read_stream malloc g (moved k) stream s q in
        Cuts (s.bytes ++ take (min k (s.size - length s.bytes)) stream) got
        × Keeps (Owe n s xss) got
  handle_input_feeds k stream q open_link room carry =
      let r : Receiver Queues = record {
        bytes = s.bytes;
        size = s.size;
        packages = [];
        world = q;
      } in
      let p = socket_plugin malloc g s in
      let got = s.bytes ++ take (min k (s.size - length s.bytes)) stream in
      (
        subst (λ b. Cuts got (handle_input p (moved k) b stream r)) (sym open_link)
            (handle_input-Cuts p k stream s.bytes r (refl, room)),
        handle_input-Keeps (Owe n s xss) p deliver-Owe (moved k) s.link.is_closed stream r
            (xss, carry, untouched),
      )
