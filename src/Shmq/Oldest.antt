-- ===== src/Shmq/Oldest.antt =====
-- `shmq_pull` of shmq.cpp returns the oldest block of the ring and takes it off.
use friend_serv.Base.{
  ℕ, ◌+◌, ◌-◌, ◌^◌, ◌≤◌, ◌<◌, ◌≡◌, refl, ◌⊎◌, inl, inr, Bool, true, false, ◌&&◌, not, List, [], ◌∷◌,
  ◌++◌, arith, ap, ap₂, subst, sym, ◌∙◌, ◌==◌, ==_iff, ==_ne, ltb, leb, length, length-append,
  Bool-cases, append_assoc, ltb→lt,
}
use friend_serv.Base.Words.{add32}
use friend_serv.Shmq.{
  Mem, Shmq, Block, nothing, no_memory, pulled, used_space, header, fetch, pull, skip, head_size,
}
use friend_serv.Shmq.Memory.{window, window-append, window_round, length-window}
use friend_serv.Shmq.Place.{wrap, leb-false}
use friend_serv.Shmq.Twice.{wrap-le, wrap-wrap, fetch_lem}
use friend_serv.Shmq.Header.{length-header, read_header-header}
use friend_serv.Shmq.Positions.{load, used, used_space-load, used-read}
use friend_serv.Shmq.Fifo.{Item, wires, Holds, length-Holds}

length-zero : (xs : List ℕ) → length xs ≡ 0 → xs ≡ []
length-zero [] e = refl
length-zero (x ∷ xs) e = absurd (omega arith)

append_cancel :
    (xs ys us vs : List ℕ) → length xs ≡ length us → xs ++ ys ≡ us ++ vs → (xs ≡ us) × (ys ≡ vs)
append_cancel [] ys [] vs l e = (refl, e)
append_cancel [] ys (u ∷ us) vs l e = absurd (omega arith)
append_cancel (x ∷ xs) ys [] vs l e = absurd (omega arith)
append_cancel (x ∷ xs) ys (u ∷ us) vs l e =
    let (p, q) = append_cancel xs ys us vs (omega arith) (cc) in
    (ap₂ ◌∷◌ (let h : x ≡ u = cc in h) p, q)

window-wrap : (m : Mem) (size p n k : ℕ) → window m size (wrap size p n) k ≡ window m size (p + n) k
window-wrap m size p n k = elim (Bool-cases (leb (p + n) size)) [
  | inl h ↦ rw h
  | inr h ↦
      let e : p + n ≡ p + n - size + size = omega (arith, leb-false _ _ h) in
      rw h (sym (ap (λ j. window m size j k) e ∙ window_round m size (p + n - size) k))
]

-- A window that starts with known bytes, cut behind them.
window_cut :
    (m : Mem) (size p n : ℕ) (xs ys : List ℕ)
    → window m size p n ≡ xs ++ ys
    → (window m size p (length xs) ≡ xs)
      × (window m size (wrap size p (length xs)) (n - length xs) ≡ ys)
window_cut m size p n xs ys e =
    let a = length xs in
    let long : n ≡ a + length ys =
      sym (length-window m size p n) ∙ ap length e ∙ length-append xs ys in
    let b : a + (n - a) ≡ n = omega arith in
    let parts =
      append_cancel (window m size p a) (window m size (p + a) (n - a)) xs ys
        (length-window m size p a)
        (sym (window-append m size p a (n - a)) ∙ ap (window m size p) b ∙ e) in
    (parts.0, window-wrap m size p a (n - a) ∙ parts.1)

skip-wrap :
    (size pos len : ℕ)
    → pos ≤ size
    → len < size
    → size ≤ 2 ^ 31
    → skip size pos len ≡ wrap size pos len
unfolding skip
skip-wrap size pos len h k w = ground arith

module _ (q : Shmq) (sb : Block) (body : List ℕ) (xs : List Item)
    (h : Holds q ((sb, body) ∷ xs)) where
  whole : window q.mem q.size q.r_pos (load q) ≡ header sb ++ (body ++ wires xs)
  unfolding wires
  whole = h.bytes ∙ append_assoc (header sb) body (wires xs)

  long : load q ≡ 16 + sb.len + length (wires xs)
  long = omega (
    arith,
    ap length whole,
    length-window q.mem q.size q.r_pos (load q),
    length-append (header sb) (body ++ wires xs),
    length-append body (wires xs),
    length-header sb,
    h.items.0.bytes,
  )

  p1_in : wrap q.size q.r_pos 16 ≤ q.size
  p1_in = wrap-le q.size q.r_pos 16 h.valid.read_in (omega (arith, long, h.valid.gap))

  after_body : wrap q.size (wrap q.size q.r_pos 16) sb.len ≡ wrap q.size q.r_pos (16 + sb.len)
  after_body = wrap-wrap q.size q.r_pos 16 sb.len h.valid.read_in (omega (arith, long, h.valid.gap))

  first_cut :
      (window q.mem q.size q.r_pos 16 ≡ header sb)
      × (window q.mem q.size (wrap q.size q.r_pos 16) (load q - 16) ≡ body ++ wires xs)
  first_cut =
      subst
        (λ k.
          (window q.mem q.size q.r_pos k ≡ header sb)
          × (window q.mem q.size (wrap q.size q.r_pos k) (load q - k) ≡ body ++ wires xs))
        (length-header sb)
        (window_cut q.mem q.size q.r_pos (load q) (header sb) (body ++ wires xs) whole)

  second_cut :
      (window q.mem q.size (wrap q.size q.r_pos 16) sb.len ≡ body)
      × (window q.mem q.size (wrap q.size q.r_pos (16 + sb.len)) (load q - 16 - sb.len) ≡ wires xs)
  second_cut =
      let p1 = wrap q.size q.r_pos 16 in
      let cut =
        subst
          (λ k.
            (window q.mem q.size p1 k ≡ body)
            × (window q.mem q.size (wrap q.size p1 k) (load q - 16 - k) ≡ wires xs))
          h.items.0.bytes (window_cut q.mem q.size p1 (load q - 16) body (wires xs) first_cut.1) in
      (cut.0, ap (λ p. window q.mem q.size p (load q - 16 - sb.len)) (sym after_body) ∙ cut.1)

  pub head_read :
      fetch q.size q.mem q.r_pos (q.r_pos + head_size) head_size
      ≡ (header sb, wrap q.size q.r_pos 16)
  head_read =
      fetch_lem q.size q.mem q.r_pos (q.r_pos + 16) 16
        (record {
          inside = h.valid.read_in;
          fits = omega (arith, long, h.valid.gap);
          word = h.valid.word;
        })
        refl
      ∙ ap (λ l. (l, wrap q.size q.r_pos 16)) first_cut.0

  pub body_read :
      let p1 = wrap q.size q.r_pos 16 in
      fetch q.size q.mem p1 (add32 p1 sb.len) sb.len ≡ (body, wrap q.size q.r_pos (16 + sb.len))
  body_read =
      let p1 = wrap q.size q.r_pos 16 in
      fetch_lem q.size q.mem p1 (add32 p1 sb.len) sb.len
        (record { inside = p1_in; fits = omega (arith, long, h.valid.gap); word = h.valid.word })
        (omega (arith, p1_in, long, h.valid.gap, h.valid.word))
      ∙ ap₂ (λ a b. (a, b)) second_cut.0 after_body

  pub Holds-read :
      (n : ℕ) → Holds (record q { r_pos = wrap q.size q.r_pos (16 + sb.len); pull_len = n }) xs
  Holds-read n =
      let v = h.valid in
      let less : used q.size q.w_pos (wrap q.size q.r_pos (16 + sb.len)) + (16 + sb.len) ≡ load q =
        used-read q.size q.w_pos q.r_pos (16 + sb.len) v.write_in v.read_in v.gap
          (omega (arith, long)) in
      record {
        valid = record {
          write_in = v.write_in;
          read_in = wrap-le q.size q.r_pos (16 + sb.len) v.read_in (omega (arith, long, v.gap));
          gap = omega (arith, v.gap);
          word = v.word;
        };
        items = h.items.1;
        bytes =
            ap (window q.mem q.size (wrap q.size q.r_pos (16 + sb.len))) (
              let e : used q.size q.w_pos (wrap q.size q.r_pos (16 + sb.len))
                  ≡ load q - 16 - sb.len =
                omega arith in
              e)
            ∙ second_cut.1;
      }

-- An empty ring gives nothing and stays as it is.
pub pull_empty : (realloc : ℕ → Bool) (q : Shmq) → Holds q [] → pull realloc q ≡ (nothing, q)
unfolding pull wires
pull_empty realloc q h =
    let test : (used_space q == 0) ≡ true =
      (==_iff _ 0).1 (used_space-load q h.valid ∙ length-Holds q [] h) in
    rw test

-- `shmq_pull` on a ring that holds a block first: it returns that block with its bytes, or, only if
-- the block is longer than the buffer and `realloc` fails, the error with the header alone; either way the
-- ring then holds the other blocks, in their order, and size and write position stay.
pub pull_oldest :
    (realloc : ℕ → Bool) (q : Shmq) (sb : Block) (body : List ℕ) (xs : List Item)
    → Holds q ((sb, body) ∷ xs)
    → let (out, q') = pull realloc q in
      ((out ≡ pulled sb body)
        ⊎ ((out ≡ no_memory sb) × (realloc sb.len ≡ false) × (q.pull_len < sb.len)))
      × Holds q' xs
      × (q'.size ≡ q.size)
      × (q'.w_pos ≡ q.w_pos)
unfolding pull
pull_oldest realloc q sb body xs h =
    let some_bytes : load q ≡ 16 + sb.len + length (wires xs) = long q sb body xs h in
    let test : (used_space q == 0) ≡ false =
      ==_ne _ 0 (λ z. absurd (omega (arith, used_space-load q h.valid))) in
    rw (test, head_read q sb body xs h, read_header-header sb h.items.0.block)
      (elim (Bool-cases (sb.len == 0)) [
        | inl none_left ↦
            let z : sb.len ≡ 0 = (==_iff _ 0).0 none_left in
            let r : 16 + sb.len ≡ 16 = omega arith in
            rw none_left (
              inl (ap (pulled sb) (sym (length-zero body (h.items.0.bytes ∙ z)))),
              subst (λ k. Holds (record q { r_pos = wrap q.size q.r_pos k }) xs) r
                  (Holds-read q sb body xs h q.pull_len),
              refl,
              refl,
            )
        | inr more ↦ elim (Bool-cases (ltb q.pull_len sb.len && not (realloc sb.len))) [
          | inl fails ↦
              let r : skip q.size (wrap q.size q.r_pos 16) sb.len
                  ≡ wrap q.size q.r_pos (16 + sb.len) =
                skip-wrap q.size _ sb.len (p1_in q sb body xs h) (omega arith) h.valid.word
                ∙ after_body q sb body xs h in
              rw (more, fails, r)
                (
                  inr (refl, ground arith, ltb→lt _ _ (ground arith)),
                  Holds-read q sb body xs h q.pull_len,
                  refl,
                  refl,
                )
          | inr fits ↦
              rw (more, fits, body_read q sb body xs h)
                (inl refl, Holds-read q sb body xs h _, refl, refl)
        ]
      ])
