-- ===== src/Shmq/Memory.antt =====
-- The bytes of shmq.cpp's ring as a window that goes round at `size`, and the two kinds of memcpy.
use native.Mathlib.Nat.{add-mod_right, mod-eq_of_lt}
use friend_serv.Base.{
  ℕ, zero, suc, ◌+◌, ◌%◌, ◌≤◌, ◌<◌, ◌≡◌, refl, ◌⊎◌, inl, List, [], ◌∷◌, ◌++◌, arith, ap, ap₂, subst,
  sym, ◌∙◌, ◌==◌, ==_ne, ==_self, if◌then◌else◌, length, get_or,
}
use friend_serv.Shmq.{Mem, copy_in, copy_out}

-- the `n` bytes from position `p` on
unfoldable pub window : Mem → ℕ → ℕ → ℕ → List ℕ
window m size p zero = []
window m size p (suc n) = m (p % size) ∷ window m size (p + 1) n

pub length-window : (m : Mem) (size p n : ℕ) → length (window m size p n) ≡ n
unfolding window
length-window m size p zero = refl
length-window m size p (suc n) = ap suc (length-window m size (p + 1) n)

pub window-append :
    (m : Mem) (size p a b : ℕ)
    → window m size p (a + b) ≡ window m size p a ++ window m size (p + a) b
unfolding window
window-append m size p zero b =
    let e : 0 + b ≡ b = omega arith in let e' : p + 0 ≡ p = omega arith in rw (e, e')
window-append m size p (suc a) b =
    let e : suc a + b ≡ suc (a + b) = omega arith in
    let e' : p + suc a ≡ p + 1 + a = omega arith in
    rw (e, e') (ap (◌∷◌ (m (p % size))) (window-append m size (p + 1) a b))

-- Two memories that agree on the window, and a window that goes once round.
pub window_ext :
    (m m' : Mem) (size p n : ℕ)
    → ((i : ℕ) → i < n → m ((p + i) % size) ≡ m' ((p + i) % size))
    → window m size p n ≡ window m' size p n
unfolding window
window_ext m m' size p zero h = refl
window_ext m m' size p (suc n) h =
    let e : p + 0 ≡ p = omega arith in
    ap₂ ◌∷◌ (subst (λ k. m (k % size) ≡ m' (k % size)) e (h 0 (omega arith))) (
      window_ext m m' size (p + 1) n (λ i lt.
        let e' : p + suc i ≡ p + 1 + i = omega arith in
        subst (λ k. m (k % size) ≡ m' (k % size)) e' (h (suc i) (omega arith))))

pub window_round : (m : Mem) (size p n : ℕ) → window m size (p + size) n ≡ window m size p n
unfolding window
window_round m size p zero = refl
window_round m size p (suc n) =
    let e : p + size + 1 ≡ p + 1 + size = omega arith in
    ap₂ ◌∷◌ (ap m (add-mod_right p size)) (rw e (window_round m size (p + 1) n))

-- A window whose bytes are those of a list.
pub window_of_list :
    (m : Mem) (size p : ℕ) (bs : List ℕ)
    → ((i : ℕ) → i < length bs → m ((p + i) % size) ≡ get_or bs i 0)
    → window m size p (length bs) ≡ bs
unfolding window
window_of_list m size p [] h = refl
window_of_list m size p (b ∷ bs) h =
    let e : p + 0 ≡ p = omega arith in
    ap₂ ◌∷◌ (subst (λ k. m (k % size) ≡ b) e (h 0 (omega arith))) (
      window_of_list m size (p + 1) bs (λ i lt.
        let e' : p + suc i ≡ p + 1 + i = omega arith in
        subst (λ k. m (k % size) ≡ get_or bs i 0) e' (h (suc i) (omega arith))))

pub copy_out-window : (m : Mem) (size p n : ℕ) → p + n ≤ size → copy_out m p n ≡ window m size p n
unfolding window copy_out
copy_out-window m size p zero h = refl
copy_out-window m size p (suc n) h =
    ap₂ ◌∷◌ (sym (ap m (mod-eq_of_lt {n = p} {m = size} (omega arith))))
      (copy_out-window m size (p + 1) n (omega arith))

pub copy_in-outside :
    (m : Mem) (pos a : ℕ) (bs : List ℕ)
    → (a < pos) ⊎ (pos + length bs ≤ a)
    → copy_in m pos bs a ≡ m a
unfolding copy_in
copy_in-outside m pos a [] h = refl
copy_in-outside m pos a (b ∷ bs) h =
    let written = λ (c : ℕ). if c == pos then b else m c in
    copy_in-outside written (pos + 1) a bs (ground arith) ∙ rw (==_ne a pos (ground arith))

pub copy_in-inside :
    (m : Mem) (pos i : ℕ) (bs : List ℕ) → i < length bs → copy_in m pos bs (pos + i) ≡ get_or bs i 0
unfolding copy_in
copy_in-inside m pos i [] h = absurd (omega arith)
copy_in-inside m pos zero (b ∷ bs) h =
    let written = λ (c : ℕ). if c == pos then b else m c in
    let e : pos + 0 ≡ pos = omega arith in
    rw e (copy_in-outside written (pos + 1) pos bs (inl (omega arith)) ∙ rw (==_self pos))
copy_in-inside m pos (suc i) (b ∷ bs) h =
    let e : pos + suc i ≡ pos + 1 + i = omega arith in
    rw e (copy_in-inside (λ c. if c == pos then b else m c) (pos + 1) i bs (omega arith))
