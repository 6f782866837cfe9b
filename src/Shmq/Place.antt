-- ===== src/Shmq/Place.antt =====
-- One write and one read of shmq.cpp's ring, in one piece or in two.
use native.Mathlib.Nat.{mod-eq_of_lt}
use native.Mathlib.Decide.{dec_lt}
use friend_serv.Base.{
  ℕ, zero, suc, ◌+◌, ◌-◌, ◌%◌, ◌^◌, ◌≤◌, ◌<◌, ◌≡◌, refl, ◌⊎◌, inl, inr, List, [], ◌∷◌, arith, ap,
  ◌∙◌, if◌then◌else◌, length, get_or, take, drop, Bool-cases, leb, length-take, length-drop, false,
  leb→le,
}
use friend_serv.Base.Words.{sub32}
use friend_serv.Shmq.{Mem, copy_in, place}
use friend_serv.Shmq.Memory.{copy_in-outside, copy_in-inside}

get_or-take : (n i : ℕ) (bs : List ℕ) → i < n → get_or (take n bs) i 0 ≡ get_or bs i 0
get_or-take zero i bs h = absurd (omega arith)
get_or-take (suc n) i [] h = refl
get_or-take (suc n) zero (b ∷ bs) h = refl
get_or-take (suc n) (suc i) (b ∷ bs) h = get_or-take n i bs (omega arith)

get_or-drop : (n i : ℕ) (bs : List ℕ) → get_or (drop n bs) i 0 ≡ get_or bs (n + i) 0
get_or-drop zero i bs = ap (λ k. get_or bs k 0) (let e : i ≡ 0 + i = omega arith in e)
get_or-drop (suc n) i [] = refl
get_or-drop (suc n) i (b ∷ bs) =
    get_or-drop n i bs
    ∙ ap (λ k. get_or (b ∷ bs) k 0) (let e : suc (n + i) ≡ suc n + i = omega arith in e)

-- The position `len` bytes after `pos`.
abbrev pub wrap : ℕ → ℕ → ℕ → ℕ
wrap size pos len = if leb (pos + len) size then pos + len else pos + len - size

-- a ring position, and a piece that fits in the ring
pub record Fits (size pos len : ℕ) : Type 0 where
  pub inside : pos ≤ size
  pub fits : len ≤ size
  pub word : size ≤ 2 ^ 31

wrapped :
    (size pos i : ℕ) → pos ≤ size → i < size → size ≤ pos + i → (pos + i) % size ≡ pos + i - size
wrapped size pos i h lt ge = grind arith

-- The address of the byte `i` after `pos`.
abbrev Address : ℕ → ℕ → ℕ → Type 0
Address size pos i =
    ((pos + i < size) × ((pos + i) % size ≡ pos + i))
    ⊎ ((size ≤ pos + i) × ((pos + i) % size ≡ pos + i - size))

address : (size pos i : ℕ) → pos ≤ size → i < size → Address size pos i
address size pos i h lt = elim (dec_lt (pos + i) size) [
  | yes p ↦ inl (p, mod-eq_of_lt p)
  | no p ↦ inr (omega arith, wrapped size pos i h lt (omega arith))
]

pub sub32_le : (a b : ℕ) → b ≤ a → a ≤ 2 ^ 31 → sub32 a b ≡ a - b
sub32_le a b h w = omega arith

pub leb-false : (a b : ℕ) → leb a b ≡ false → b < a
leb-false a b h = ground arith

-- What a write of `bs` at `pos` does to the memory.
pub record Placed (size : ℕ) (m : Mem) (pos : ℕ) (bs : List ℕ) (out : Mem × ℕ) : Type 0 where
  pub next : out.1 ≡ wrap size pos (length bs)
  pub written : (i : ℕ) → i < length bs → out.0 ((pos + i) % size) ≡ get_or bs i 0
  pub kept : (i : ℕ) → length bs ≤ i → i < size → out.0 ((pos + i) % size) ≡ m ((pos + i) % size)
  pub inside : (a : ℕ) → size ≤ a → out.0 a ≡ m a

module _ (size : ℕ) (m : Mem) (pos : ℕ) (bs : List ℕ) (v : Fits size pos (length bs)) where
  whole-Placed : pos + length bs ≤ size → Placed size m pos bs (copy_in m pos bs, pos + length bs)
  whole-Placed h = record {
    next = ground arith;
    written = λ i lt.
        rw (mod-eq_of_lt {n = pos + i} {m = size} (omega arith)) (copy_in-inside m pos i bs lt);
    kept = λ i ge lt.
        copy_in-outside m pos ((pos + i) % size) bs (elim (address size pos i v.inside lt) [
          | inl (low, e) ↦ inr (omega arith)
          | inr (high, e) ↦ inl (omega arith)
        ]);
    inside = λ a ge. copy_in-outside m pos a bs (inr (omega arith));
  }

  split-Placed :
      size < pos + length bs
      → Placed size m pos bs (
        copy_in (copy_in m pos (take (size - pos) bs)) 0 (drop (size - pos) bs),
        length bs - (size - pos),
      )
  split-Placed h = record {
    next = ground arith;
    written = λ i lt. elim (address size pos i v.inside (omega arith)) [
      | inl (low, e) ↦ rw e (
          copy_in-outside _ 0 (pos + i) _ (inr (omega (arith, length-drop (size - pos) bs)))
          ∙ copy_in-inside m pos i _ (omega (arith, length-take (size - pos) bs))
          ∙ get_or-take (size - pos) i bs (omega arith))
      | inr (high, e) ↦
          let j = pos + i - size in
          let from_start : pos + i - size ≡ 0 + j = omega arith in
          let back : size - pos + j ≡ i = omega arith in
          rw (e, from_start)
            (copy_in-inside _ 0 j _ (omega (arith, length-drop (size - pos) bs))
              ∙ get_or-drop (size - pos) j bs
              ∙ ap (λ k. get_or bs k 0) back)
    ];
    kept = λ i ge lt. elim (address size pos i v.inside lt) [
      | inl (low, e) ↦ absurd (omega arith)
      | inr (high, e) ↦ rw e (
          copy_in-outside _ 0 (pos + i - size) _ (inr (omega (arith, length-drop (size - pos) bs)))
          ∙ copy_in-outside m pos (pos + i - size) _ (inl (omega arith)))
    ];
    inside = λ a ge.
        copy_in-outside _ 0 a _ (inr (omega (arith, length-drop (size - pos) bs)))
        ∙ copy_in-outside m pos a _ (inr (omega (arith, length-take (size - pos) bs)));
  }

  pub place-Placed :
      (end : ℕ) → end ≡ pos + length bs → Placed size m pos bs (place size m pos end bs)
  unfolding place
  place-Placed end e = elim (Bool-cases (leb (pos + length bs) size)) [
    | inl h ↦ rw (e, h) (whole-Placed (leb→le _ _ h))
    | inr h ↦
        let n : sub32 size pos ≡ size - pos = sub32_le size pos v.inside v.word in
        let k : sub32 (length bs) (size - pos) ≡ length bs - (size - pos) =
          sub32_le _ _ (omega (arith, leb-false _ _ h)) (omega arith) in
        rw (e, h, n, k) (split-Placed (leb-false _ _ h))
  ]
