-- ===== src/Linker/Sends.antt =====
-- The order of the bytes that a link of tcp_linker.cpp sends.
use friend_serv.Base.{
  ℕ, zero, suc, ◌+◌, ◌≤◌, ◌≡◌, refl, inl, inr, Option, none, some, List, [], ◌∷◌, ◌++◌, ◌==◌,
  length, take, drop, arith, ap, sym, ◌∙◌, Bool-cases, append-nil, append_assoc, take-append-drop,
  length-append,
}
use friend_serv.Linker.{Linker, queued, send_now}
use friend_serv.Linker.Spread.{concat, Buffers, Joins, Extends, spread-Joins}

-- The bytes that wait.
abbrev pub pending : ℕ → List (List ℕ) → List ℕ
pending pos [] = []
pending pos (b ∷ bs) = drop pos b ++ concat bs

abbrev pub Fits : ℕ → List (List ℕ) → Type 0
Fits pos [] = pos ≡ 0
Fits pos (b ∷ bs) = pos ≤ length b

-- The bytes on the wire and then those that wait are these.
abbrev pub IsOrdered : List ℕ → Linker → Type 0
IsOrdered xs l = (l.wire ++ pending l.send_pos l.buffers ≡ xs) × Fits l.send_pos l.buffers

abbrev pub AllOf : (Linker → Type 0) → Option Linker → Type 0
AllOf P none = Unit
AllOf P (some l) = P l

drop-append_le : (pos : ℕ) (b x : List ℕ) → pos ≤ length b → drop pos (b ++ x) ≡ drop pos b ++ x
drop-append_le zero b x h = refl
drop-append_le (suc pos) [] x h = absurd (omega arith)
drop-append_le (suc pos) (c ∷ b) x h = drop-append_le pos b x (omega arith)

pub drop_zero : (bs : List (List ℕ)) → pending 0 bs ≡ concat bs
drop_zero [] = refl
drop_zero (b ∷ bs) = refl

pub behind-IsOrdered :
    (l : Linker) (b : List ℕ) (bs : List (List ℕ)) (xs buf : List ℕ) (o : Option Buffers)
    → l.wire ++ (drop l.send_pos b ++ concat bs) ≡ xs
    → l.send_pos ≤ length b
    → Extends b bs buf o
    → AllOf (IsOrdered (xs ++ buf)) (queued l l.wire o)
behind-IsOrdered l b bs xs buf none e fits x = tt
behind-IsOrdered l b bs xs buf (some ([], pool)) e fits x = absurd x
behind-IsOrdered l b bs xs buf (some (b' ∷ bs', pool)) e fits x =
    let front = drop l.send_pos b in
    let grown : drop l.send_pos b' ≡ front ++ x.0 =
      ap (drop l.send_pos) x.1 ∙ drop-append_le l.send_pos b x.0 fits in
    (
      ap (λ d. l.wire ++ (d ++ concat bs')) grown
          ∙ ap (λ d. l.wire ++ d)
              (append_assoc front x.0 (concat bs')
                ∙ ap (λ d. front ++ d) x.2
                ∙ sym (append_assoc front (concat bs) buf))
          ∙ sym (append_assoc l.wire (front ++ concat bs) buf)
          ∙ ap (λ d. d ++ buf) e,
      let long = ap length x.1 in omega (arith, long, fits, length-append b x.0),
    )

spread-IsOrdered :
    (l : Linker) (wire left xs : List ℕ) (o : Option Buffers)
    → l.send_pos ≡ 0
    → wire ++ left ≡ xs
    → Joins left o
    → AllOf (IsOrdered xs) (queued l wire o)
spread-IsOrdered l wire left xs none z e j = tt
spread-IsOrdered l wire left xs (some ([], pool)) z e j = (ap (λ d. wire ++ d) j ∙ e, z)
spread-IsOrdered l wire left xs (some (b ∷ bs, pool)) z e j =
    (ap (λ p. wire ++ pending p (b ∷ bs)) z ∙ ap (λ d. wire ++ d) j ∙ e, omega (arith, z))

pub send_now-IsOrdered :
    (l : Linker) (buf xs : List ℕ) (o : Option ℕ)
    → l.buffers ≡ []
    → l.send_pos ≡ 0
    → l.wire ≡ xs
    → AllOf (IsOrdered (xs ++ buf)) (send_now l buf o)
send_now-IsOrdered l buf xs none b z e = tt
send_now-IsOrdered l buf xs (some r) b z e =
    let left = drop r buf in
    elim (Bool-cases (r == length buf)) [
      | inl all ↦ rw (all, b) (append-nil (l.wire ++ buf) ∙ ap (λ w. w ++ buf) e, z)
      | inr part ↦ rw part (
          spread-IsOrdered l (l.wire ++ take r buf) left (xs ++ buf) _ z
            (append_assoc l.wire (take r buf) left
              ∙ ap (λ d. l.wire ++ d) (take-append-drop r buf)
              ∙ ap (λ w. w ++ buf) e)
            (spread-Joins (length buf + 1) l.pool left))
    ]
