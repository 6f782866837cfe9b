-- ===== src/Conn/Seats.antt =====
-- One answer of shm_sevent.cpp, seen from one descriptor.
use friend_serv.Base.{
  ℕ, suc, ◌≡◌, refl, inl, inr, Bool, true, false, ◌||◌, ◌&&◌, not, List, [], ◌∷◌, Option, none,
  some, ◌==◌, leb, if◌then◌else◌, length, ◌∙◌, ap, subst, ==_iff, ==_self, Option-cases, Bool-cases,
}
use friend_serv.TcpClient.{Event}
use friend_serv.Shmq.{Block}
use friend_serv.Shmq.Fifo.{Item}
use friend_serv.Channel.{Channel}
use friend_serv.Worker.{close_block}
use friend_serv.Linker
use friend_serv.Linker.{Linker, is_empty}
use friend_serv.Socket.{Socket, Left, shut, send_pkg, with_link}
use friend_serv.Conn.{Conns, get_handler, put, one_more, answer}

-- The connection at a descriptor, and how many packages it was given.
abbrev pub Seat : Type 0
Seat = Option Socket × ℕ

abbrev pub seat : ℕ → Conns → Seat
seat fd w = (w.reactor.handlers fd, w.turns fd)

-- The blocks for a descriptor and the id of a connection.
abbrev pub addressed : (fd id : ℕ) → List Item → List Item
addressed fd id [] = []
addressed fd id (x ∷ xs) =
    let rest = addressed fd id xs in if x.0.fd == fd && id == x.0.id then x ∷ rest else rest

-- A connection alone, which shuts or sends by each block; `net` is what its sends give.
module _ (malloc : ℕ → Bool) (net : ℕ → Event) where
  abbrev pub obey : Item → Socket → ℕ → Seat
  obey (sb, body) s k =
      if sb.kind == close_block
      then ((shut malloc s []).0, k)
      else ((send_pkg malloc (net k) body s []).0, suc k)

  abbrev pub obey_all : List Item → Seat → Seat
  obey_all [] v = v
  obey_all (x ∷ xs) (none, k) = (none, k)
  obey_all (x ∷ xs) (some s, k) = obey_all xs (obey x s k)

-- The id of a socket stays, while there is one.
abbrev pub Named : ℕ → Option Socket → Type 0
Named id none = Unit
Named id (some s) = s.id ≡ id

module _ (malloc : ℕ → Bool) where
  with_link-alone :
      (s : Socket) (cs : List Channel) (l : Option Linker)
      → (with_link malloc s cs l).0 ≡ (with_link malloc s [] l).0
  with_link-alone s cs none = refl
  with_link-alone s cs (some l) = refl

  send_pkg-alone :
      (e : Event) (buf : List ℕ) (s : Socket) (cs : List Channel)
      → (send_pkg malloc e buf s cs).0 ≡ (send_pkg malloc e buf s []).0
  send_pkg-alone e buf s cs =
      elim (Bool-cases (not (is_empty s.link.buffers) && leb 1024 (length s.link.buffers))) [
        | inl full ↦ rw full refl
        | inr free ↦ rw free (with_link-alone s cs (Linker.send_pkg e buf s.link))
      ]

  shut-alone : (s : Socket) (cs : List Channel) → (shut malloc s cs).0 ≡ (shut malloc s []).0
  shut-alone s cs = elim (Bool-cases (is_empty s.link.buffers)) [
    | inl e ↦ rw e refl
    | inr e ↦ rw e refl
  ]

  with_link-Named : (s : Socket) (l : Option Linker) → Named s.id (with_link malloc s [] l).0
  with_link-Named s none = tt
  with_link-Named s (some l) = refl

  send_pkg-Named :
      (e : Event) (buf : List ℕ) (s : Socket) → Named s.id (send_pkg malloc e buf s []).0
  send_pkg-Named e buf s =
      elim (Bool-cases (not (is_empty s.link.buffers) && leb 1024 (length s.link.buffers))) [
        | inl full ↦ rw full refl
        | inr free ↦ rw free (with_link-Named s (Linker.send_pkg e buf s.link))
      ]

  shut-Named : (s : Socket) → Named s.id (shut malloc s []).0
  shut-Named s = elim (Bool-cases (is_empty s.link.buffers)) [ inl e ↦ rw e tt | inr e ↦ rw e refl ]

  pub obey-Named :
      (net : ℕ → Event) (x : Item) (s : Socket) (k : ℕ) → Named s.id (obey malloc net x s k).0
  obey-Named net (sb, body) s k = elim (Bool-cases (sb.kind == close_block)) [
    | inl e ↦ rw e (shut-Named s)
    | inr e ↦ rw e (send_pkg-Named (net k) body s)
  ]

  module _ (net : (fd k : ℕ) → Event) where
    pub answer-size :
        (sb : Block) (body : List ℕ) (w : Conns)
        → (answer malloc net sb body w).reactor.size ≡ w.reactor.size
    answer-size sb body w = elim (Option-cases (get_handler sb.fd w.reactor)) [
      | inl e ↦ rw e refl
      | inr (s, e) ↦ elim (Bool-cases (not (s.id == sb.id) || s.id == 0)) [
        | inl skip ↦ rw (e, skip) refl
        | inr serve ↦ elim (Bool-cases (sb.kind == close_block)) [
          | inl k ↦ rw (e, serve, k) refl
          | inr k ↦ rw (e, serve, k) refl
        ]
      ]
    ]

    answer-elsewhere :
        (fd : ℕ) (sb : Block) (body : List ℕ) (w : Conns)
        → (sb.fd == fd) ≡ false
        → seat fd (answer malloc net sb body w) ≡ seat fd w
    answer-elsewhere fd sb body w far = elim (Option-cases (get_handler sb.fd w.reactor)) [
      | inl e ↦ rw e refl
      | inr (s, e) ↦ elim (Bool-cases (not (s.id == sb.id) || s.id == 0)) [
        | inl skip ↦ rw (e, skip) refl
        | inr serve ↦ elim (Bool-cases (sb.kind == close_block)) [
          | inl k ↦ rw (e, serve, k, far) refl
          | inr k ↦ rw (e, serve, k, far) refl
        ]
      ]
    ]

    -- A descriptor without a connection stays so.
    answer-nobody :
        (sb : Block) (body : List ℕ) (w : Conns)
        → w.reactor.handlers sb.fd ≡ none
        → answer malloc net sb body w ≡ w
    answer-nobody sb body w nobody = elim (Bool-cases (leb w.reactor.size sb.fd)) [
      | inl e ↦ rw e refl
      | inr e ↦ rw (e, nobody) refl
    ]

    answer-stale :
        (sb : Block) (body : List ℕ) (w : Conns) (s : Socket)
        → w.reactor.handlers sb.fd ≡ some s
        → (s.id == sb.id) ≡ false
        → answer malloc net sb body w ≡ w
    answer-stale sb body w s is stale = elim (Bool-cases (leb w.reactor.size sb.fd)) [
      | inl e ↦ rw e refl
      | inr e ↦ rw (e, is, stale) refl
    ]

    put-here :
        (fd : ℕ) (left : Left) (w : Conns)
        → (fd == fd) ≡ true
        → seat fd (put fd left w.turns w) ≡ (left.0, w.turns fd)
    put-here fd left w same = rw same refl

    put_more-here :
        (fd : ℕ) (left : Left) (w : Conns)
        → (fd == fd) ≡ true
        → seat fd (put fd left (one_more fd w.turns) w) ≡ (left.0, suc (w.turns fd))
    put_more-here fd left w same = rw same refl

    answer-here :
        (sb : Block) (body : List ℕ) (w : Conns) (s : Socket)
        → (sb.fd == sb.fd) ≡ true
        → w.reactor.handlers sb.fd ≡ some s
        → (s.id == sb.id) ≡ true
        → (s.id == 0) ≡ false
        → leb w.reactor.size sb.fd ≡ false
        → seat sb.fd (answer malloc net sb body w)
          ≡ obey malloc (net sb.fd) (sb, body) s (w.turns sb.fd)
    answer-here sb body w s same is own named small =
        let net' = net sb.fd (w.turns sb.fd) in
        elim (Bool-cases (sb.kind == close_block)) [
          | inl k ↦
              rw (small, is, own, named, k)
                (put-here sb.fd (shut malloc s w.channels) w same
                  ∙ ap (λ l. (l, w.turns sb.fd)) (shut-alone s w.channels))
          | inr k ↦
              rw (small, is, own, named, k)
                (put_more-here sb.fd (send_pkg malloc net' body s w.channels) w same
                  ∙ ap (λ l. (l, suc (w.turns sb.fd))) (send_pkg-alone net' body s w.channels))
        ]

    -- One block, from the seat of a descriptor.
    pub answer-seat :
        (fd : ℕ) (sb : Block) (body : List ℕ) (w : Conns) (s : Socket)
        → w.reactor.handlers fd ≡ some s
        → (s.id == 0) ≡ false
        → leb w.reactor.size fd ≡ false
        → seat fd (answer malloc net sb body w) ≡ (
            if sb.fd == fd && s.id == sb.id
            then obey malloc (net fd) (sb, body) s (w.turns fd)
            else (some s, w.turns fd))
    answer-seat fd sb body w s is named small = elim (Bool-cases (sb.fd == fd)) [
      | inr far ↦ rw far (answer-elsewhere fd sb body w far ∙ ap (λ o. (o, w.turns fd)) is)
      | inl near ↦
          let at : sb.fd ≡ fd = (==_iff sb.fd fd).0 near in
          elim (Bool-cases (s.id == sb.id)) [
            | inr stale ↦
                rw (near, stale)
                  (ap (seat fd) (answer-stale sb body w s (ap w.reactor.handlers at ∙ is) stale)
                    ∙ ap (λ o. (o, w.turns fd)) is)
            | inl own ↦
                rw (near, own)
                  (subst
                    (λ f.
                      w.reactor.handlers f ≡ some s
                      → leb w.reactor.size f ≡ false
                      → seat f (answer malloc net sb body w)
                        ≡ obey malloc (net f) (sb, body) s (w.turns f))
                    at (λ is' small'. answer-here sb body w s (==_self sb.fd) is' own named small')
                    is small)
          ]
    ]

    pub obey_all-none :
        (fd k : ℕ) (xs : List Item) → obey_all malloc (net fd) xs (none, k) ≡ (none, k)
    obey_all-none fd k [] = refl
    obey_all-none fd k (x ∷ xs) = refl

    pub answer-empty :
        (fd k : ℕ) (sb : Block) (body : List ℕ) (w : Conns)
        → seat fd w ≡ (none, k)
        → seat fd (answer malloc net sb body w) ≡ (none, k)
    answer-empty fd k sb body w e = elim (Bool-cases (sb.fd == fd)) [
      | inl near ↦
          ap (seat fd) (
            answer-nobody sb body w
              (ap w.reactor.handlers ((==_iff sb.fd fd).0 near) ∙ ap (λ v. v.0) e))
          ∙ e
      | inr far ↦ answer-elsewhere fd sb body w far ∙ e
    ]
