-- ===== src/Shmq/Twice.antt =====
-- Two writes of shmq.cpp one after the other are one, and a read gives the window.
use native.Mathlib.Decide.{dec_lt}
use native.Mathlib.Nat.{add-mod_right}
use friend_serv.Base.{
  ℕ, zero, suc, ◌+◌, ◌-◌, ◌%◌, ◌≤◌, ◌<◌, ◌≡◌, refl, ◌⊎◌, inl, inr, List, [], ◌∷◌, ◌++◌, arith, ap,
  ap₂, sym, ◌∙◌, length, get_or, Bool-cases, leb, length-append, leb→le,
}
use friend_serv.Base.Words.{sub32}
use friend_serv.Shmq.{Mem, copy_out, fetch}
use friend_serv.Shmq.Memory.{window, window-append, window_round, copy_out-window}
use friend_serv.Shmq.Place.{wrap, Fits, Placed, sub32_le, leb-false}

split_window :
    (m : Mem) (size pos len : ℕ)
    → Fits size pos len
    → size < pos + len
    → window m size pos len ≡ copy_out m pos (size - pos) ++ copy_out m 0 (len - (size - pos))
split_window m size pos len v h =
    let n = size - pos in
    let k = len - n in
    let parts : len ≡ n + k = omega arith in
    let at_end : pos + n ≡ 0 + size = omega arith in
    ap (window m size pos) parts
    ∙ window-append m size pos n k
    ∙ ap₂ ◌++◌ (sym (copy_out-window m size pos n (omega arith))) (
        ap (λ p. window m size p k) at_end
        ∙ window_round m size 0 k
        ∙ sym (copy_out-window m size 0 k (omega arith)))

-- A read gives the window, and the position after it.
pub fetch_lem :
    (size : ℕ) (m : Mem) (pos end len : ℕ)
    → Fits size pos len
    → end ≡ pos + len
    → fetch size m pos end len ≡ (window m size pos len, wrap size pos len)
unfolding fetch
fetch_lem size m pos end len v e = elim (Bool-cases (leb (pos + len) size)) [
  | inl h ↦ rw (e, h) (ap₂ (λ a b. (a, b)) (copy_out-window m size pos len (leb→le _ _ h)) refl)
  | inr h ↦
      let n : sub32 size pos ≡ size - pos = sub32_le size pos v.inside v.word in
      let k : sub32 len (size - pos) ≡ len - (size - pos) =
        sub32_le _ _ (omega (arith, leb-false _ _ h)) (omega arith) in
      rw (e, h, n, k)
        (ap₂ (λ a b. (a, b)) (sym (split_window m size pos len v (leb-false _ _ h))) (omega arith))
]

pub wrap_mod : (size pos len i : ℕ) → (wrap size pos len + i) % size ≡ (pos + len + i) % size
wrap_mod size pos len i = elim (Bool-cases (leb (pos + len) size)) [
  | inl h ↦ rw h
  | inr h ↦
      let e : pos + len + i ≡ pos + len - size + i + size = omega (arith, leb-false _ _ h) in
      rw (h, e) (sym (add-mod_right (pos + len - size + i) size))
]

pub wrap-le : (size pos len : ℕ) → pos ≤ size → len ≤ size → wrap size pos len ≤ size
wrap-le size pos len h k = ground arith

pub wrap-wrap :
    (size pos a b : ℕ)
    → pos ≤ size
    → a + b ≤ size
    → wrap size (wrap size pos a) b ≡ wrap size pos (a + b)
wrap-wrap size pos a b h k = ground arith

get_or-append_left :
    (xs ys : List ℕ) (i : ℕ) → i < length xs → get_or (xs ++ ys) i 0 ≡ get_or xs i 0
get_or-append_left [] ys i h = absurd (omega arith)
get_or-append_left (x ∷ xs) ys zero h = refl
get_or-append_left (x ∷ xs) ys (suc i) h = get_or-append_left xs ys i (omega arith)

get_or-append_right :
    (xs ys : List ℕ) (i : ℕ) → length xs ≤ i → get_or (xs ++ ys) i 0 ≡ get_or ys (i - length xs) 0
get_or-append_right [] ys i h = ap (λ k. get_or ys k 0) (omega arith)
get_or-append_right (x ∷ xs) ys zero h = absurd (omega arith)
get_or-append_right (x ∷ xs) ys (suc i) h =
    get_or-append_right xs ys i (omega arith) ∙ ap (λ k. get_or ys k 0) (omega arith)

module _ (size : ℕ) (m m1 m2 : Mem) (pos p1 p2 : ℕ) (xs ys : List ℕ)
    (first : Placed size m pos xs (m1, p1)) (second : Placed size m1 p1 ys (m2, p2))
    (inside : pos ≤ size) (room : length xs + length ys ≤ size) where
  -- The byte `i` after the first write, counted from its start.
  shifted : (i : ℕ) → (p1 + i) % size ≡ (pos + (length xs + i)) % size
  shifted i =
      ap (λ k. (k + i) % size) first.next
      ∙ wrap_mod size pos (length xs) i
      ∙ ap (λ k. k % size) (let e : pos + length xs + i ≡ pos + (length xs + i) = omega arith in e)

  same :
      (i j : ℕ)
      → (length xs + j ≡ i) ⊎ (length xs + j ≡ i + size)
      → (p1 + j) % size ≡ (pos + i) % size
  same i j (inl e) = shifted j ∙ ap (λ k. (pos + k) % size) e
  same i j (inr e) =
      shifted j
      ∙ ap (λ k. k % size) (let e' : pos + (length xs + j) ≡ pos + i + size = omega arith in e')
      ∙ add-mod_right (pos + i) size

  both_written : (i : ℕ) → i < length (xs ++ ys) → m2 ((pos + i) % size) ≡ get_or (xs ++ ys) i 0
  both_written i lt = elim (dec_lt i (length xs)) [
    | yes h ↦
        let j = size + i - length xs in
        let e = same i j (inr (omega arith)) in
        ap m2 (sym e)
        ∙ second.kept j (omega arith) (omega arith)
        ∙ ap m1 e
        ∙ first.written i h
        ∙ sym (get_or-append_left xs ys i h)
    | no h ↦
        let j = i - length xs in
        let sum = length-append xs ys in
        let e = same i j (inl (omega arith)) in
        ap m2 (sym e)
        ∙ second.written j (omega arith)
        ∙ sym (get_or-append_right xs ys i (omega arith))
  ]

  both_kept :
      (i : ℕ) → length (xs ++ ys) ≤ i → i < size → m2 ((pos + i) % size) ≡ m ((pos + i) % size)
  both_kept i ge lt =
      let j = i - length xs in
      let sum = length-append xs ys in
      let e = same i j (inl (omega arith)) in
      ap m2 (sym e)
      ∙ second.kept j (omega arith) (omega arith)
      ∙ ap m1 e
      ∙ first.kept i (omega arith) lt

  pub Placed-append : Placed size m pos (xs ++ ys) (m2, p2)
  Placed-append = record {
    next =
        second.next
        ∙ ap (λ k. wrap size k (length ys)) first.next
        ∙ wrap-wrap size pos (length xs) (length ys) inside room
        ∙ ap (wrap size pos) (sym (length-append xs ys));
    written = both_written;
    kept = both_kept;
    inside = λ a ge. second.inside a ge ∙ first.inside a ge;
  }
