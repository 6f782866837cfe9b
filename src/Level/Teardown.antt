-- ===== src/Level/Teardown.antt =====
-- Close of ServiceReplicas and ServiceGroup in common/, and the destructors, which are Close.
use friend_serv.Base.{
  ◌≡◌, refl, inl, inr, Bool, true, false, ◌||◌, ◌&&◌, not, List, [], ◌∷◌, none, some, if◌then◌else◌,
  arith, Bool-cases,
}
use friend_serv.Level.{Parts, Level, any_on, clear_children, close, cleared}
use friend_serv.Level.Sound.{IsSound}

module _ {I C : Type 0} (p : Parts I C) where
  -- A child other than the first is enabled.
  abbrev pub on_behind : List C → Bool
  on_behind [] = false
  on_behind (c ∷ cs) = any_on p cs

  abbrev pub all_end : List C → Bool
  all_end [] = true
  all_end (c ∷ cs) = p.destroy c && all_end cs

  -- Behind the first destructor, every enabled child makes AfterDisable read what was deleted.
  clear_children-freed :
      (enabled : Bool) (cs : List C)
      → clear_children p true enabled cs
        ≡ (if any_on p cs || not (all_end cs) then none else some enabled)
  unfolding clear_children
  clear_children-freed enabled [] = refl
  clear_children-freed enabled (c ∷ cs) = elim (Bool-cases (p.is_enable c)) [
    | inl e ↦ rw e (ground arith)
    | inr e ↦ rw (e, clear_children-freed enabled cs) (ground arith)
  ]

  clear_children-fresh :
      (enabled : Bool) (cs : List C)
      → enabled ≡ any_on p cs
      → clear_children p false enabled cs
        ≡ (if on_behind cs || not (all_end cs) then none else some false)
  unfolding clear_children
  clear_children-fresh enabled [] h = rw h refl
  clear_children-fresh enabled (c ∷ cs) h = elim (Bool-cases (p.is_enable c)) [
    | inl e ↦ rw (e, clear_children-freed (enabled && any_on p cs) cs) (ground (arith, h, e))
    | inr e ↦ rw (e, clear_children-freed enabled cs) (ground (arith, h, e))
  ]

-- Close of a sound level that was not closed before: it empties the level and disables it, unless a
-- child behind the first is enabled, or a child's own destructor fails.
pub close_lem :
    {I X C : Type 0} (p : Parts I C) (n : Level X C)
    → IsSound p n
    → n.freed ≡ false
    → close p n
      ≡ (if on_behind p n.children || not (all_end p n.children) then none else cleared n false)
unfolding close
close_lem p n sound fresh =
    let given = clear_children-fresh p n.enabled n.children sound.agrees in
    elim (Bool-cases (on_behind p n.children || not (all_end p n.children))) [
      | inl e ↦ rw (fresh, given, e) refl
      | inr e ↦ rw (fresh, given, e) refl
    ]
