-- ===== src/Level/Calls.antt =====
-- A call on ServiceReplicas or ServiceGroup in common/, as the call of the child that the strategy
-- chooses.
use friend_serv.Base.{
  ℕ, ◌≡◌, Bool, true, false, not, List, Option, none, some, if◌then◌else◌, get_elem?, ◌∙◌, ap, refl,
  ◌&&◌, inl, inr, Bool-cases,
}
use friend_serv.Element.{Flags}
use friend_serv.Strategy.{Choice, chosen}
use friend_serv.Strategy.Chooser.{Chooser}
use friend_serv.Level.{
  Parts, Level, Answer, answers, positions, flags, finished, at_child, on_choice, on_chooser,
  choose, dispatch, noticed, any_on, replace, kept,
}

module _ {I X C O : Type 0} (p : Parts I C) (out : O) (call : C → Answer O C)
    (ask : Flags → List ℕ → Chooser → Option (Chooser × Choice)) where
  pub dispatch-asked :
      (n : Level X C) (s s' : Chooser) (c : Choice)
      → n.inited ≡ true
      → n.strategy ≡ some s
      → ask (flags p n.children) (positions 0 n.children) s ≡ some (s', c)
      → dispatch p ask out call n ≡ on_choice p out call (record n { strategy = some s' }) c
  unfolding dispatch
  dispatch-asked n s s' c on by asked =
      ap
        (λ (b : Bool).
          if not b
          then answers false out n
          else on_chooser p out call n (choose p ask n n.strategy))
        on
      ∙ ap (λ o. on_chooser p out call n (choose p ask n o)) by
      ∙ ap (on_chooser p out call n) asked

  pub dispatch-chosen :
      (n : Level X C) (s s' : Chooser) (i : ℕ) (c : C)
      → n.inited ≡ true
      → n.strategy ≡ some s
      → ask (flags p n.children) (positions 0 n.children) s ≡ some (s', chosen i)
      → get_elem? n.children i ≡ some c
      → dispatch p ask out call n ≡ finished p (record n { strategy = some s' }) i c (call c)
  dispatch-chosen n s s' i c on by asked found =
      dispatch-asked n s s' (chosen i) on by asked
      ∙ ap (at_child p call (record n { strategy = some s' }) i) found

module _ {I X C : Type 0} (p : Parts I C) where
  noticed-some :
      (n : Level X C) (c c' : C) (cs : List C)
      → n.freed ≡ false
      → (e : Bool) × (noticed p n c c' cs ≡ some e)
  noticed-some n c c' cs fresh = elim (Bool-cases (p.is_enable c')) [
    | inl on ↦ (if p.is_enable c then n.enabled else true, rw on refl)
    | inr off ↦ elim (Bool-cases (p.is_enable c)) [
      | inl on1 ↦ (
        n.enabled && any_on p cs,
        rw (off, on1)
            (ap (λ (b : Bool). if b then none else some (n.enabled && any_on p cs)) fresh),
      )
      | inr off1 ↦ (n.enabled, rw (off, off1) refl)
    ]
  ]

  -- On a level that was not closed before, what the child answers is what the call returns.
  pub finished-answers :
      {O : Type 0} (n : Level X C) (i : ℕ) (c : C) (a : Answer O C) (ok : Bool) (got : O) (c' : C)
      → n.freed ≡ false
      → a ≡ answers ok got c'
      → (e : Bool) × (finished p n i c a
          ≡ answers ok got (record n { children = replace i c' n.children; enabled = e }))
  finished-answers n i c a ok got c' fresh eq =
      let (e, same) = noticed-some n c c' (replace i c' n.children) fresh in
      (e, ap (finished p n i c) eq ∙ ap (kept p n i ok got c') same)
