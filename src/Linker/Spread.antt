-- ===== src/Linker/Spread.antt =====
-- The buffers that send_pkg of tcp_linker.cpp fills.
use friend_serv.Base.{
  ℕ, zero, suc, ◌-◌, ◌≡◌, refl, inl, inr, true, Option, none, some, List, [], ◌∷◌, ◌++◌, length,
  take, drop, min, arith, ap, sym, ◌∙◌, Bool-cases, append-nil, append_assoc, take-append-drop,
}
use friend_serv.Linker.{buf_len, is_empty, spread, behind}

abbrev pub concat : List (List ℕ) → List ℕ
concat [] = []
concat (b ∷ bs) = b ++ concat bs

abbrev pub Buffers : Type 0
Buffers = List (List ℕ) × ℕ

-- The buffers hold these bytes, in this order.
abbrev pub Joins : List ℕ → Option Buffers → Type 0
Joins rest none = Unit
Joins rest (some found) = concat found.0 ≡ rest

pub is_empty-nil : (xs : List ℕ) → is_empty xs ≡ true → xs ≡ []
is_empty-nil [] e = refl
is_empty-nil (x ∷ xs) e = absurd (grind arith)

Joins-cons :
    (b left rest : List ℕ) (more : Option Buffers)
    → b ++ left ≡ rest
    → Joins left more
    → Joins rest (elim more [ none ↦ none | some found ↦ some (b ∷ found.0, found.1) ])
Joins-cons b left rest none e j = tt
Joins-cons b left rest (some found) e j = ap (λ l. b ++ l) j ∙ e

pub spread-Joins : (k pool : ℕ) (rest : List ℕ) → Joins rest (spread k pool rest)
unfolding spread
spread-Joins zero pool rest = tt
spread-Joins (suc k) zero rest = tt
spread-Joins (suc k) (suc pool) rest = elim (Bool-cases (is_empty (drop buf_len rest))) [
  | inl e ↦ rw e (append-nil rest)
  | inr e ↦ rw e (
      Joins-cons (take buf_len rest) (drop buf_len rest) rest _ (take-append-drop buf_len rest)
        (spread-Joins k pool (drop buf_len rest)))
]

-- The front buffer grows at its end, and all bytes behind what it held are the old ones, then `rest`.
abbrev pub Extends : List ℕ → List (List ℕ) → List ℕ → Option Buffers → Type 0
Extends b bs rest none = Unit
Extends b bs rest (some ([], pool)) = ⊥
Extends b bs rest (some (b' ∷ bs', pool)) =
    (x : List ℕ) × (b' ≡ b ++ x) × (x ++ concat bs' ≡ concat bs ++ rest)

Extends-last :
    (last x left rest : List ℕ) (more : Option Buffers)
    → x ++ left ≡ rest
    → Joins left more
    → Extends last [] rest
        (elim more [ none ↦ none | some found ↦ some ((last ++ x) ∷ found.0, found.1) ])
Extends-last last x left rest none e j = tt
Extends-last last x left rest (some found) e j = (x, refl, ap (λ l. x ++ l) j ∙ e)

Extends-cons :
    (first second : List ℕ) (others : List (List ℕ)) (rest : List ℕ) (more : Option Buffers)
    → Extends second others rest more
    → Extends first
        (second ∷ others)
        rest
        (elim more [ none ↦ none | some found ↦ some (first ∷ found.0, found.1) ])
Extends-cons first second others rest none e = tt
Extends-cons first second others rest (some ([], pool)) e = absurd e
Extends-cons first second others rest (some (b ∷ bs, pool)) e = (
  [],
  sym (append-nil first),
  ap (λ l. l ++ concat bs) e.1
      ∙ append_assoc second e.0 (concat bs)
      ∙ ap (λ l. second ++ l) e.2
      ∙ sym (append_assoc second (concat others) rest),
)

pub behind-Extends :
    (k pool : ℕ) (bs : List (List ℕ)) (b rest : List ℕ)
    → Extends b bs rest (behind k pool (b ∷ bs) rest)
unfolding behind
behind-Extends k pool [] b rest =
    let size = min (buf_len - length b) (length rest) in
    let left = drop size rest in
    let cut = take-append-drop size rest in
    elim (Bool-cases (is_empty left)) [
      | inl e ↦
          rw e
            (take size rest, refl, ap (λ l. take size rest ++ l) (sym (is_empty-nil left e)) ∙ cut)
      | inr e ↦ rw e (Extends-last b (take size rest) left rest _ cut (spread-Joins k pool left))
    ]
behind-Extends k pool (second ∷ others) b rest =
    Extends-cons b second others rest _ (behind-Extends k pool others second rest)
