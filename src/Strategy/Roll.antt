-- ===== src/Strategy/Roll.antt =====
-- `RollStrategy::ChooseByNothing` is the fixed strategy on the rotated vector, and takes turns.
use native.Mathlib.Nat.{mod-eq_of_lt, mod-add-mod, mod-lt}
use mathlib.Core.Path.{ap₂}
use friend_serv.Base.{
  ℕ, zero, suc, ◌+◌, ◌%◌, ◌^◌, ◌≤◌, ◌<◌, ◌≡◌, refl, inl, inr, true, List, [], ◌∷◌, ◌++◌, map, arith,
  ap, ◌∙◌, ◌-◌, Bool-cases, length, get_or, take, drop, get_elem?-eq-get_or, drop-eq-cons, take_all,
  take-nil, drop-nil, length-drop, lt→ltb, if◌then◌else◌, ==_ne, ==_ne,
}
use friend_serv.Base.Words.{add32, size_of_int}
use friend_serv.Element.{Flags}
use friend_serv.Strategy.{Choice, fault, null, chosen, fixed, roll, roll_scan}

-- `m` elements from index `i` on, going round at the end of the vector
abbrev pub cycle : List ℕ → ℕ → ℕ → List ℕ
cycle els zero i = []
cycle els (suc m) i = get_or els i 0 ∷ cycle els m ((i + 1) % length els)

-- the position at which a call of `roll` starts to look
abbrev pub start_at : List ℕ → ℕ → ℕ
start_at els current = size_of_int current % length els

-- `m_current` moves on only when an element is returned.
abbrev pub advanced : ℕ → Choice → ℕ × Choice
advanced current (chosen e) = (add32 current 1, chosen e)
advanced current null = (current, null)
advanced current fault = (current, fault)

roll_scan-cycle :
    (en : Flags) (els : List ℕ) (current m i : ℕ)
    → i < length els
    → roll_scan en els current m i ≡ advanced current (fixed en (cycle els m i))
unfolding roll_scan fixed
roll_scan-cycle en els current zero i h = refl
roll_scan-cycle en els current (suc m) i h = elim (Bool-cases (en (get_or els i 0))) [
  | inl on ↦ rw (get_elem?-eq-get_or els i 0 h, roll_scan, on)
  | inr off ↦
      rw (get_elem?-eq-get_or els i 0 h, roll_scan, off)
        (roll_scan-cycle en els current m ((i + 1) % length els) (omega arith))
]

cycle-low : (els : List ℕ) (m i : ℕ) → i + m ≤ length els → cycle els m i ≡ take m (drop i els)
cycle-low els zero i h = refl
cycle-low els (suc zero) i h = rw (drop-eq-cons els i 0 (omega arith))
cycle-low els (suc (suc m)) i h =
    rw (drop-eq-cons els i 0 (omega arith), mod-eq_of_lt {n = i + 1} {m = length els} (omega arith))
      (ap (◌∷◌ (get_or els i 0)) (cycle-low els (suc m) (i + 1) (omega arith)))

cycle-split :
    (els : List ℕ) (m a b i : ℕ)
    → m ≡ suc a + b
    → i + suc a ≡ length els
    → cycle els m i ≡ cycle els (suc a) i ++ cycle els b 0
cycle-split els zero a b i e h = absurd (omega arith)
cycle-split els (suc m) zero b i e h =
    let m_b : m ≡ b = omega arith in
    let wrap : (i + 1) % length els ≡ 0 = grind arith in rw (wrap, m_b)
cycle-split els (suc m) (suc a) b i e h =
    rw (mod-eq_of_lt {n = i + 1} {m = length els} (omega arith))
      (ap (◌∷◌ (get_or els i 0)) (cycle-split els m a b (i + 1) (omega arith) (omega arith)))

cycle-rotate :
    (els : List ℕ) (k : ℕ) → k < length els → cycle els (length els) k ≡ drop k els ++ take k els
cycle-rotate els k h =
    let a = length els - k - 1 in
    let whole : k + suc a ≡ length els = omega arith in
    cycle-split els (length els) a k k (omega arith) whole
    ∙ ap₂ ◌++◌
        (cycle-low els (suc a) k (omega arith)
          ∙ take_all (suc a) (drop k els) (omega (arith, length-drop k els)))
        (cycle-low els k 0 (omega arith))

roll-cycle :
    (en : Flags) (els : List ℕ) (current : ℕ)
    → 0 < length els
    → roll en els current
      ≡ advanced current (fixed en (cycle els (length els) (start_at els current)))
unfolding roll
roll-cycle en els current pos =
    rw (==_ne (length els) 0 (omega arith))
      (roll_scan-cycle en els current (length els) (start_at els current) (mod-lt _ pos))

-- A call looks from `m_current` modulo the size, round to the start: it is the fixed choice on the
-- vector rotated to that position, and `m_current` moves on by one exactly if it finds an element.
pub roll_rotated :
    (en : Flags) (els : List ℕ) (current : ℕ)
    → roll en els current
      ≡ advanced current
          (fixed en (drop (start_at els current) els ++ take (start_at els current) els))
unfolding roll fixed
roll_rotated en [] current = rw (drop-nil ℕ (start_at [] current), take-nil ℕ (start_at [] current))
roll_rotated en (x ∷ xs) current =
    let els = x ∷ xs in
    roll-cycle en els current (omega arith)
    ∙ ap (λ l. advanced current (fixed en l))
        (cycle-rotate els (start_at els current) (mod-lt _ (omega arith)))

-- `m` calls one after the other, and what they return.
abbrev pub rolls : Flags → List ℕ → ℕ → ℕ → List Choice
rolls en els zero current = []
rolls en els (suc m) current =
    let (current', c) = roll en els current in c ∷ rolls en els m current'

roll_all_on :
    (en : Flags) (els : List ℕ) (current : ℕ)
    → 0 < length els
    → current + 1 < 2 ^ 31
    → ((e : ℕ) → en e ≡ true)
    → roll en els current ≡ (current + 1, chosen (get_or els (current % length els) 0))
unfolding fixed
roll_all_on en [] current pos small on = absurd (omega arith)
roll_all_on en (x ∷ xs) current pos small on =
    let els = x ∷ xs in
    let k : start_at els current ≡ current % length els =
      ap (λ b. (if b then current else current + 2 ^ 64 - 2 ^ 32) % length els)
        (lt→ltb current (2 ^ 31) (omega arith)) in
    roll-cycle en els current pos
    ∙ rw (k, on (get_or els (current % length els) 0)) (ap₂ (λ a b. (a, b)) (omega arith) refl)

rolls-cycle :
    (en : Flags) (els : List ℕ) (m current : ℕ)
    → 0 < length els
    → current + m < 2 ^ 31
    → ((e : ℕ) → en e ≡ true)
    → rolls en els m current ≡ map chosen (cycle els m (current % length els))
rolls-cycle en els zero current pos small on = refl
rolls-cycle en els (suc m) current pos small on = rw (
  roll_all_on en els current pos (omega arith) on,
  rolls-cycle en els m (current + 1) pos (omega arith) on,
  mod-add-mod,
)

-- While every element is enabled and `m_current` stays an `int`, as many calls as there are
-- elements return each element once, in the order of the vector from the start position on.
pub roll_takes_turns :
    (en : Flags) (els : List ℕ) (current : ℕ)
    → 0 < length els
    → current + length els < 2 ^ 31
    → ((e : ℕ) → en e ≡ true)
    → rolls en els (length els) current
      ≡ map chosen (drop (current % length els) els ++ take (current % length els) els)
roll_takes_turns en els current pos small on =
    rolls-cycle en els (length els) current pos small on
    ∙ ap (map chosen) (cycle-rotate els (current % length els) (mod-lt _ pos))
