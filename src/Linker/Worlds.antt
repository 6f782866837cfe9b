-- ===== src/Linker/Worlds.antt =====
-- What the packages change that handle_input of tcp_linker.cpp and tcp_socket.cpp cuts out of a stream.
use friend_serv.Base.{
  ℕ, zero, suc, ◌+◌, ◌≤◌, ◌≡◌, refl, Bool, true, false, not, ◌&&◌, List, [], ◌∷◌, ◌++◌, ◌==◌, leb,
  ltb, if◌then◌else◌, length, take, drop, min, arith, length-take,
}
use friend_serv.TcpClient.{Event, moved, again, interrupted, failed}
use friend_serv.Linker.{is_empty}
use friend_serv.Linker.Input.{
  Receiver, Plugin, Read, up, gone, error, no_rounds, read, room, handle_input,
}

-- A predicate on the packages taken and what they changed, at the end of handle_input.
abbrev pub Keeps : {W : Type 0} → (List (List ℕ) → W → Type 0) → Read W → Type 0
Keeps Inv (up r) = Inv r.packages r.world
Keeps Inv (gone packages w) = Inv packages w
Keeps Inv (error packages w) = Inv packages w
Keeps Inv no_rounds = Unit

if-Keeps :
    {W : Type 0} (Inv : List (List ℕ) → W → Type 0) (b : Bool) (x y : Read W)
    → (b ≡ true → Keeps Inv x)
    → (b ≡ false → Keeps Inv y)
    → Keeps Inv (if b then x else y)
if-Keeps Inv true x y l r = l refl
if-Keeps Inv false x y l r = r refl

not_long : (a b : ℕ) → ltb a b ≡ false → b ≤ a
not_long a b e = ground arith

-- A package keeps the predicate, whether the link stays up behind it or not.
abbrev pub DeliverKeeps : {W : Type 0} → (List (List ℕ) → W → Type 0) → Plugin W → Type 0
DeliverKeeps {W} Inv p =
    (packages : List (List ℕ)) (pkg : List ℕ) (w : W)
    → length pkg ≤ p.max_pkg_len
    → Inv packages w
    → Inv (packages ++ pkg ∷ []) (p.deliver pkg w).1

module _ {W : Type 0} (Inv : List (List ℕ) → W → Type 0) (p : Plugin W)
    (keeps : DeliverKeeps Inv p) where
  read-Keeps :
      (k : ℕ) (first : Bool) (rest : List ℕ) (size : ℕ) (packages : List (List ℕ)) (w : W)
      → Inv packages w
      → Keeps Inv (read p k first rest size packages w)
  unfolding read
  read-Keeps zero first rest size packages w h = tt
  read-Keeps (suc k) first rest size packages w h =
      let len = p.pkg_len rest in
      let pkg = take len rest in
      let left = drop len rest in
      if-Keeps Inv (ltb p.max_pkg_len len) _ _ (λ b. h)
        (λ b.
          let h' =
            keeps packages pkg w (omega (arith, length-take len rest, not_long p.max_pkg_len len b))
              h in
          if-Keeps Inv (len == 0) _ _
            (λ z. if-Keeps Inv (first && (length rest == size)) _ _ (λ c. h) (λ c. h))
            (λ nz.
              if-Keeps Inv (first && ltb size len) _ _
                (λ big. if-Keeps Inv (p.realloc len) _ _ (λ c. h) (λ c. h))
                (λ fits.
                  if-Keeps Inv (leb len (length rest)) _ _
                    (λ whole.
                      if-Keeps Inv (not (p.deliver pkg w).0) _ _ (λ c. h')
                        (λ c.
                          if-Keeps Inv (is_empty left) _ _ (λ d. h')
                            (λ d.
                              read-Keeps k false left size (packages ++ pkg ∷ [])
                                (p.deliver pkg w).1 h')))
                    (λ part. h))))

  pub handle_input-Keeps :
      (e : Event) (closed : Bool) (stream : List ℕ) (r : Receiver W)
      → Inv r.packages r.world
      → Keeps Inv (handle_input p e closed stream r)
  unfolding handle_input
  handle_input-Keeps (moved n) closed stream r h =
      let chunk = take (min n (room r)) stream in
      if-Keeps Inv (is_empty chunk) _ _ (λ e. h)
        (λ e.
          if-Keeps Inv closed _ _ (λ c. h)
            (λ c.
              read-Keeps (length (r.bytes ++ chunk) + 1) true (r.bytes ++ chunk) r.size r.packages
                r.world h))
  handle_input-Keeps again closed stream r h = h
  handle_input-Keeps interrupted closed stream r h = h
  handle_input-Keeps failed closed stream r h = h
