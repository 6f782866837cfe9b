-- ===== src/Shmq/Append.antt =====
-- What a write at the write position of shmq.cpp's ring does to the bytes in use.
use native.Mathlib.Nat.{add-mod_right}
use friend_serv.Base.{
  ℕ, ◌+◌, ◌-◌, ◌%◌, ◌≤◌, ◌<◌, ◌≡◌, refl, inl, inr, List, ◌++◌, arith, ap, ap₂, sym, ◌∙◌, leb,
  length, Bool-cases,
}
use friend_serv.Shmq.{Mem}
use friend_serv.Shmq.Memory.{window, window-append, window_ext, window_of_list}
use friend_serv.Shmq.Place.{Placed}
use friend_serv.Shmq.Positions.{used}

-- The old bytes, seen from the write position of a ring with `u` bytes in use.
module _ (size : ℕ) (m m' : Mem) (w r p : ℕ) (bs : List ℕ) (out : Placed size m w bs (m', p))
    (hw : w ≤ size) (hr : r ≤ size) (room : used size w r + length bs < size) where
  from_start : (i : ℕ) → (r + i) % size ≡ (w + (size - used size w r + i)) % size
  from_start i = elim (Bool-cases (leb r w)) [
    | inl h ↦
        let e : w + (size - used size w r + i) ≡ r + i + size = ground arith in
        rw e (sym (add-mod_right (r + i) size))
    | inr h ↦ let e : w + (size - used size w r + i) ≡ r + i = ground arith in rw e refl
  ]

  to_start : (i : ℕ) → (r + used size w r + i) % size ≡ (w + i) % size
  to_start i = elim (Bool-cases (leb r w)) [
    | inl h ↦ let e : r + used size w r + i ≡ w + i = ground arith in rw e refl
    | inr h ↦
        let e : r + used size w r + i ≡ w + i + size = ground arith in
        rw e (add-mod_right (w + i) size)
  ]

  old_bytes : window m' size r (used size w r) ≡ window m size r (used size w r)
  old_bytes = window_ext m' m size r (used size w r) (λ i lt.
      let e = from_start i in
      ap m' e ∙ out.kept (size - used size w r + i) (omega arith) (omega arith) ∙ ap m (sym e))

  new_bytes : window m' size (r + used size w r) (length bs) ≡ bs
  new_bytes =
      window_of_list m' size (r + used size w r) bs (λ i lt. ap m' (to_start i) ∙ out.written i lt)

  pub window-Placed :
      window m' size r (used size w r + length bs) ≡ window m size r (used size w r) ++ bs
  window-Placed = window-append m' size r (used size w r) (length bs) ∙ ap₂ ◌++◌ old_bytes new_bytes
