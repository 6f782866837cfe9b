-- ===== src/Strategy/Region.antt =====
-- When the two region strategies choose inside the vector, and which seeds share an element.
use native.Mathlib.Nat.{mod-lt, div-lt_iff_lt-mul, mul-div-le, le-div_iff_mul-le}
use friend_serv.Base.{
  ℕ, ◌+◌, ◌*◌, ◌/◌, ◌%◌, ◌^◌, ◌≤◌, ◌<◌, ◌≡◌, refl, ◌≢◌, inl, inr, List, [], ◌∷◌, ◌++◌, some, arith,
  Bool-cases, length, get_elem?, get_elem?-none, get_elem?-some, lt→ltb, ==_ne, false, ◌==◌,
}
use friend_serv.Base.Words.{add32, size_of_int}
use friend_serv.Element.{Flags}
use friend_serv.Strategy.{fault, if_enabled, hash, int_region, string_region}

region-lt : (n r : ℕ) → n * (100 / n) ≡ 100 → r < 100 → r / (100 / n) < n
region-lt n r e h = (div-lt_iff_lt-mul {k = 100 / n} {x = r} {y = n} (grind arith)).1 (omega arith)

region-ge : (n : ℕ) → 100 / n ≢ 0 → n * (100 / n) ≢ 100 → n ≤ 99 / (100 / n)
region-ge n q d =
    (le-div_iff_mul-le {k = 100 / n} {x = n} {y = 99} (omega arith)).1
      (omega (arith, mul-div-le 100 n))

length-zero : (els : List ℕ) → length els ≡ 0 → els ≡ []
length-zero [] e = refl
length-zero (x ∷ xs) e = absurd (omega arith)

-- Where the size of the vector divides 100, every seed that is not negative is in range: the element
-- is the one whose region, of 100 / size values, holds `seed % 100`; a disabled one gives null.
pub int_region_in_range :
    (en : Flags) (els : List ℕ) (seed : ℕ)
    → length els * (100 / length els) ≡ 100
    → seed < 2 ^ 31
    → (e : ℕ) × (get_elem? els (seed % 100 / (100 / length els)) ≡ some e)
      × (int_region en els seed ≡ if_enabled en e)
unfolding int_region
int_region_in_range en els seed d h =
    let n0 : (length els == 0) ≡ false = ==_ne _ 0 (λ z. absurd (grind arith)) in
    let q0 : (100 / length els == 0) ≡ false = ==_ne _ 0 (λ z. absurd (grind arith)) in
    let (e, g) = get_elem?-some els _ (region-lt (length els) (seed % 100) d (omega arith)) in
    (e, g, rw (n0, q0, lt→ltb _ _ h, g))

-- On a vector that is not empty and whose size does not divide 100 (3 elements, for one), the seed 99
-- is a fault: the index is past the end of the vector, or, with more than 100 elements, 100 / size is 0
-- and divides.
pub int_region_faults :
    (en : Flags) (els : List ℕ)
    → els ≢ []
    → length els * (100 / length els) ≢ 100
    → int_region en els 99 ≡ fault
unfolding int_region
int_region_faults en els ne d =
    let n0 : (length els == 0) ≡ false = ==_ne _ 0 (λ z. ne (length-zero els z)) in
    rw n0 (elim (Bool-cases (100 / length els == 0)) [
      | inl q ↦ rw q
      | inr q ↦
          let past = get_elem?-none els _ (region-ge (length els) (ground arith) d) in rw (q, past)
    ])

-- No seed reads outside the vector: the result is null for the empty vector and for a disabled
-- element, and else the element at the hash of the seed, as a `size_t`, modulo the size.
pub string_region_in_range :
    (en : Flags) (els : List ℕ) (seed : List ℕ)
    → els ≢ []
    → (e : ℕ) × (get_elem? els (size_of_int (hash 0 seed) % length els) ≡ some e)
      × (string_region en els seed ≡ if_enabled en e)
unfolding string_region
string_region_in_range en els seed ne =
    let n0 : length els ≢ 0 = (λ z. ne (length-zero els z)) in
    let (e, g) =
      get_elem?-some els (size_of_int (hash 0 seed) % length els) (mod-lt _ (omega arith)) in
    (e, g, rw (==_ne _ 0 n0, g))

hash-append : (key : ℕ) (xs ys : List ℕ) → hash key (xs ++ ys) ≡ hash (hash key xs) ys
unfolding hash
hash-append key [] ys = refl
hash-append key (x ∷ xs) ys = hash-append (add32 key (31 * key + x)) xs ys

hash_seven :
    (k j a b c d e f g : ℕ)
    → hash k (a ∷ b ∷ c ∷ d ∷ e ∷ f ∷ g ∷ []) ≡ hash j (a ∷ b ∷ c ∷ d ∷ e ∷ f ∷ g ∷ [])
unfolding hash
hash_seven k j a b c d e f g = omega arith

-- The hash keeps only the last seven bytes of a seed (32^7 is 0 modulo 2^32): any two seeds that
-- end in the same seven bytes choose the same element of every vector.
pub string_region_suffix :
    (en : Flags) (els xs ys : List ℕ) (a b c d e f g : ℕ)
    → string_region en els (xs ++ a ∷ b ∷ c ∷ d ∷ e ∷ f ∷ g ∷ [])
      ≡ string_region en els (ys ++ a ∷ b ∷ c ∷ d ∷ e ∷ f ∷ g ∷ [])
unfolding string_region
string_region_suffix en els xs ys a b c d e f g =
    rw (hash-append 0 xs, hash-append 0 ys, hash_seven (hash 0 xs) (hash 0 ys) a b c d e f g)
