-- ===== src/Linker/Packets.antt =====
-- What handle_input of tcp_linker.cpp makes of the stream.
use friend_serv.Base.{
  ℕ, zero, suc, ◌+◌, ◌≤◌, ◌<◌, ◌≡◌, refl, Bool, true, false, not, ◌&&◌, List, [], ◌∷◌, ◌++◌, ◌==◌,
  leb, leb→le, ltb, ltb→lt, if◌then◌else◌, length, take, drop, min, arith, ap, sym, ◌∙◌, append-nil,
  append_assoc, take-append-drop, length-append, length-drop, length-take,
}
use friend_serv.TcpClient.{moved}
use friend_serv.Linker.{is_empty}
use friend_serv.Linker.Spread.{concat, is_empty-nil}
use friend_serv.Linker.Input.{
  Receiver, Plugin, Read, up, gone, error, no_rounds, read, received, room, handle_input,
}

-- The packages and then the bytes held are these bytes, and the buffer has room for another.
abbrev pub IsCut : {W : Type 0} → List ℕ → Receiver W → Type 0
IsCut got r = (concat r.packages ++ r.bytes ≡ got) × (length r.bytes < r.size)

-- The link is up and the stream cut; or it is gone, or to be closed, and the packages are the front
-- of the stream. The rounds do not end.
abbrev pub Cuts : {W : Type 0} → List ℕ → Read W → Type 0
Cuts got (up r) = IsCut got r
Cuts got (gone packages w) = (left : List ℕ) × (concat packages ++ left ≡ got)
Cuts got (error packages w) = (left : List ℕ) × (concat packages ++ left ≡ got)
Cuts got no_rounds = ⊥

concat-append : (xs ys : List (List ℕ)) → concat (xs ++ ys) ≡ concat xs ++ concat ys
concat-append [] ys = refl
concat-append (x ∷ xs) ys =
    ap (λ l. x ++ l) (concat-append xs ys) ∙ sym (append_assoc x (concat xs) (concat ys))

-- One package more.
cut_on :
    (packages : List (List ℕ)) (n : ℕ) (rest got : List ℕ)
    → concat packages ++ rest ≡ got
    → concat (packages ++ take n rest ∷ []) ++ drop n rest ≡ got
cut_on packages n rest got e =
    let pkg = take n rest in
    ap (λ l. l ++ drop n rest)
      (concat-append packages (pkg ∷ []) ∙ ap (λ l. concat packages ++ l) (append-nil pkg))
    ∙ append_assoc (concat packages) pkg (drop n rest)
    ∙ ap (λ l. concat packages ++ l) (take-append-drop n rest)
    ∙ e

if-Cuts :
    {W : Type 0} (got : List ℕ) (b : Bool) (x y : Read W)
    → (b ≡ true → Cuts got x)
    → (b ≡ false → Cuts got y)
    → Cuts got (if b then x else y)
if-Cuts got true x y l r = l refl
if-Cuts got false x y l r = r refl

not_full :
    (first : Bool) (a size : ℕ)
    → a ≤ size
    → (first ≡ false → a < size)
    → (first && (a == size)) ≡ false
    → a < size
not_full true a size h f e = ground arith
not_full false a size h f e = f refl

grown : (first : Bool) (a size len : ℕ) → a ≤ size → (first && ltb size len) ≡ true → a < len
grown true a size len h e = omega (arith, ltb→lt size len e)
grown false a size len h e = absurd (grind arith)

not_whole :
    (first : Bool) (a size len : ℕ)
    → leb len a ≡ false
    → (first ≡ false → a < size)
    → (first && ltb size len) ≡ false
    → a < size
not_whole true a size len part f e = ground arith
not_whole false a size len part f e = f refl

positive : (len : ℕ) → (len == 0) ≡ false → 1 ≤ len
positive len e = ground arith

read-Cuts :
    {W : Type 0} (p : Plugin W) (k : ℕ) (first : Bool) (rest : List ℕ) (size : ℕ)
    (packages : List (List ℕ)) (w : W) (got : List ℕ)
    → concat packages ++ rest ≡ got
    → length rest < k
    → length rest ≤ size
    → (first ≡ false → length rest < size)
    → Cuts got (read p k first rest size packages w)
unfolding read
read-Cuts p zero first rest size packages w got e h s f = absurd (omega arith)
read-Cuts p (suc k) first rest size packages w got e h s f =
    let len = p.pkg_len rest in
    let pkg = take len rest in
    let left = drop len rest in
    let on = cut_on packages len rest got e in
    if-Cuts got (ltb p.max_pkg_len len) _ _ (λ b. (rest, e))
      (λ b.
        if-Cuts got (len == 0) _ _
          (λ z.
            if-Cuts got (first && (length rest == size)) _ _ (λ c. (rest, e))
              (λ c. (e, not_full first (length rest) size s f c)))
          (λ nz.
            if-Cuts got (first && ltb size len) _ _
              (λ big.
                if-Cuts got (p.realloc len) _ _ (λ c. (e, grown first (length rest) size len s big))
                  (λ c. (rest, e)))
              (λ fits.
                if-Cuts got (leb len (length rest)) _ _
                  (λ whole.
                    if-Cuts got (not (p.deliver pkg w).0) _ _ (λ c. (left, on))
                      (λ c.
                        if-Cuts got (is_empty left) _ _
                          (λ z. (
                            ap (λ l. concat (packages ++ pkg ∷ []) ++ l) (sym (is_empty-nil left z))
                                ∙ on,
                            omega (arith, positive len nz, leb→le _ _ whole, s),
                          ))
                          (λ c'.
                            read-Cuts p k false left size (packages ++ pkg ∷ []) (p.deliver pkg w).1
                              got on
                              (omega
                                (arith, length-drop len rest, positive len nz, leb→le _ _ whole, h))
                              (omega
                                (arith, length-drop len rest, positive len nz, leb→le _ _ whole, s))
                              (λ t.
                                (omega (
                                  arith,
                                  length-drop len rest,
                                  positive len nz,
                                  leb→le _ _ whole,
                                  s,
                                ))))))
                  (λ part. (e, not_whole first (length rest) size len part f fits)))))

received-Cuts :
    {W : Type 0} (p : Plugin W) (r : Receiver W) (got chunk : List ℕ)
    → IsCut got r
    → length chunk ≤ room r
    → Cuts (got ++ chunk) (received p chunk r)
received-Cuts p r got chunk o h =
    let all = r.bytes ++ chunk in
    let n = length-append r.bytes chunk in
    read-Cuts p (length all + 1) true all r.size r.packages r.world (got ++ chunk)
      (sym (append_assoc (concat r.packages) r.bytes chunk) ∙ ap (λ l. l ++ chunk) o.0)
      (omega arith) (omega (arith, n, h, o.1)) (λ t. absurd (grind arith))

-- Whatever the plugin and the memory do, handle_input on a link that is not shut ends, and where it
-- is up: the packages given to the plugin and then the bytes held are the bytes of the stream in
-- their order, and there is room for another byte, so that `recv` is never asked for none; where the
-- link is gone in a package or to be closed, the packages are the front of the stream.
pub handle_input-Cuts :
    {W : Type 0} (p : Plugin W) (n : ℕ) (stream got : List ℕ) (r : Receiver W)
    → IsCut got r
    → Cuts (got ++ take (min n (room r)) stream) (handle_input p (moved n) false stream r)
unfolding handle_input
handle_input-Cuts p n stream got r o =
    let chunk = take (min n (room r)) stream in
    if-Cuts (got ++ chunk) (is_empty chunk) _ _
      (λ e. (
        r.bytes ++ chunk,
        sym (append_assoc (concat r.packages) r.bytes chunk) ∙ ap (λ l. l ++ chunk) o.0,
      ))
      (λ e. received-Cuts p r got chunk o (omega (arith, length-take (min n (room r)) stream)))
