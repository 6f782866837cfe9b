-- ===== src/Strategy.antt =====
-- The strategies of common/strategy.h and common/strategy.cpp that choose an element.
-- The vector `m_elements` is a list of elements; `fault` is what C++ leaves undefined: an index out
-- of the vector or a division by zero. A `string` is the list of its bytes.
pub mod Roll
pub mod Region
pub mod Chooser
mod Tests
use friend_serv.Base.{
  ℕ, zero, suc, ◌+◌, ◌-◌, ◌*◌, ◌/◌, ◌%◌, ◌^◌, Bool, List, [], ◌∷◌, none, some, ◌==◌, ltb,
  if◌then◌else◌, length, get_elem?,
}
use friend_serv.Base.Words.{add32, size_of_int}
use friend_serv.Element.{Flags}

pub data Choice : Type 0 where
  fault null : Choice
  chosen : ℕ → Choice

-- `IsEnable` of the element at an index.
abbrev pub if_enabled : Flags → ℕ → Choice
if_enabled en e = if en e then chosen e else null

-- `FixedStrategy::ChooseByNothing`
unfoldable pub fixed : Flags → List ℕ → Choice
fixed en [] = null
fixed en (e ∷ es) = if en e then chosen e else fixed en es

-- The loop of `RollStrategy::ChooseByNothing`, by the rounds left, at `index`; it returns
-- `m_current` and the choice.
unfoldable pub roll_scan : Flags → List ℕ → ℕ → ℕ → ℕ → ℕ × Choice
roll_scan en els current zero index = (current, null)
roll_scan en els current (suc rounds) index =
    let rest = roll_scan en els current rounds ((index + 1) % length els) in
    elim (get_elem? els index) [
      | none ↦ (current, fault)
      | some e ↦ if en e then (add32 current 1, chosen e) else rest
    ]

-- `RollStrategy::ChooseByNothing`; `m_current` is the bit pattern of an `int`.
unfoldable pub roll : Flags → List ℕ → ℕ → ℕ × Choice
roll en els current =
    if length els == 0
    then (current, null)
    else roll_scan en els current (length els) (size_of_int current % length els)

-- `seed % 100`, an `int` that keeps the sign of `seed`, as the `size_t` that `/` makes of it.
abbrev pub remainder : ℕ → ℕ
remainder seed = if ltb seed (2 ^ 31) then seed % 100 else (2 ^ 64 - (2 ^ 32 - seed) % 100) % 2 ^ 64

-- `IntRegionStrategy::ChooseByInt`
pub int_region : Flags → List ℕ → ℕ → Choice
int_region en els seed =
    if length els == 0
    then null
    else if 100 / length els == 0
    then fault
    else elim (get_elem? els (remainder seed / (100 / length els))) [
      | none ↦ fault
      | some e ↦ if_enabled en e
    ]

-- The loop of `StringRegionStrategy::ChooseByString`: `key += 31 * key + (uint8_t)seed[i]`.
pub hash : ℕ → List ℕ → ℕ
hash key [] = key
hash key (b ∷ bs) = hash (add32 key (31 * key + b)) bs

-- `StringRegionStrategy::ChooseByString`
pub string_region : Flags → List ℕ → List ℕ → Choice
string_region en els seed =
    if length els == 0
    then null
    else elim (get_elem? els (size_of_int (hash 0 seed) % length els)) [
      | none ↦ fault
      | some e ↦ if_enabled en e
    ]
