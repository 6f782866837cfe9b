-- ===== src/Element.antt =====
-- The class `Element` of common/strategy.h and common/strategy.cpp.
-- Elements are numbers. A `Tree` holds the pointers `m_parent` and `m_children` of each, and the
-- function `ℕ → Bool` the member `m_enable` of each; `none` is the end of the fuel.
pub mod Consistency
pub mod Enable
pub mod Disable
pub mod Adopt
mod Tests
use friend_serv.Base.{
  ℕ, zero, suc, ◌≡◌, Bool, true, false, ◌||◌, List, [], ◌∷◌, ◌++◌, Option, none, some, ◌==◌,
  if◌then◌else◌, ◌>>=◌,
}

pub record Tree : Type 0 where
  pub parent : ℕ → Option ℕ
  pub children : ℕ → List ℕ

abbrev pub Flags : Type 0
Flags = ℕ → Bool

abbrev pub set_flag : Flags → ℕ → Bool → Flags
set_flag en p b q = if p == q then b else en q

-- `Element::Enable` and the loop of `Element::AfterEnable`, whose variable is `now`.
mutual
  pub enable : Tree → ℕ → Flags → ℕ → Option Flags
  enable t zero en p = none
  enable t (suc f) en p =
      let rest = after_enable t f (set_flag en p true) (t.parent p) in
      if en p then some en else rest

  pub after_enable : Tree → ℕ → Flags → Option ℕ → Option Flags
  after_enable t zero en now = none
  after_enable t (suc f) en none = some en
  after_enable t (suc f) en (some now) =
      let rest = enable t f en now >>= (λ en'. after_enable t f en' (t.parent now)) in
      if en now then some en else rest

-- The scan of `AfterDisable`: is one child enabled?
pub any_enabled : Flags → List ℕ → Bool
any_enabled en [] = false
any_enabled en (c ∷ cs) = en c || any_enabled en cs

-- `Element::Disable` and the loop of `Element::AfterDisable`.
mutual
  pub disable : Tree → ℕ → Flags → ℕ → Option Flags
  disable t zero en p = none
  disable t (suc f) en p =
      let rest = after_disable t f (set_flag en p false) (t.parent p) in
      if en p then rest else some en

  pub after_disable : Tree → ℕ → Flags → Option ℕ → Option Flags
  after_disable t zero en now = none
  after_disable t (suc f) en none = some en
  after_disable t (suc f) en (some now) =
      let rest = disable t f en now >>= (λ en'. after_disable t f en' (t.parent now)) in
      if any_enabled en (t.children now) then some en else rest

-- `Element::AddChild` of a non-null child: the new pointers, then `AfterEnable` of `this`.
abbrev pub adopt : Tree → ℕ → ℕ → Tree
adopt t p c = record {
  parent = λ q. if c == q then some p else t.parent q;
  children = λ q. if p == q then t.children q ++ c ∷ [] else t.children q;
}

pub add_child : ℕ → Tree → Flags → ℕ → Option ℕ → Option (Bool × Tree × Flags)
add_child f t en p none = some (false, t, en)
add_child f t en p (some c) =
    let t' = adopt t p c in
    let up = after_enable t' f en (t'.parent p) >>= (λ en'. some (true, t', en')) in
    if en c then up else some (true, t', en)
