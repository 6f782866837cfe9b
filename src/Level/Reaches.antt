-- ===== src/Level/Reaches.antt =====
-- The strategies without a seed of common/strategy.cpp over the children of ServiceReplicas or
-- ServiceGroup: a call reaches an enabled child exactly if there is one.
use friend_serv.Base.{
  ℕ, zero, suc, ◌≡◌, refl, ◌⊎◌, inl, inr, true, false, List, [], ◌∷◌, ◌++◌, Option, none, some,
  get_elem?, take, drop, take-append-drop, sym, ◌∙◌, arith, subst, ap, Bool-cases,
}
use friend_serv.Base.Words.{add32}
use friend_serv.Element.{Flags}
use friend_serv.Strategy.{Choice, null, chosen, fixed}
use friend_serv.Strategy.Roll.{roll_rotated, advanced, start_at}
use friend_serv.Strategy.Chooser.{
  Chooser, fixed_chooser, roll_chooser, int_chooser, string_chooser, choose_by_nothing, rolled,
}
use friend_serv.Level.{
  Parts, Level, Answer, answers, positions, any_on, on_at, flags, finished, dispatch,
}
use friend_serv.Level.Sound.{any_on-replace}
use friend_serv.Level.Calls.{dispatch-asked, dispatch-chosen}
use friend_serv.Level.Failover.{Shows, Shows-flags}

-- A strategy that ChooseByNothing is a member of.
abbrev pub IsPlain : Chooser → Type 0
IsPlain fixed_chooser = Unit
IsPlain (roll_chooser current) = Unit
IsPlain int_chooser = ⊥
IsPlain string_chooser = ⊥

abbrev AllOff : Flags → List ℕ → Type 0
AllOff en [] = Unit
AllOff en (e ∷ es) = (en e ≡ false) × AllOff en es

fixed-cases :
    (en : Flags) (els : List ℕ)
    → ((e : ℕ) × (fixed en els ≡ chosen e) × (en e ≡ true))
      ⊎ ((fixed en els ≡ null) × AllOff en els)
unfolding fixed
fixed-cases en [] = inr (refl, tt)
fixed-cases en (e ∷ es) = elim (Bool-cases (en e)) [
  | inl on ↦ inl (e, rw on refl, on)
  | inr off ↦ elim (fixed-cases en es) [
    | inl (d, c, on) ↦ inl (d, rw off c, on)
    | inr (c, all) ↦ inr (rw off c, (off, all))
  ]
]

AllOff-append : (en : Flags) (xs ys : List ℕ) → AllOff en (xs ++ ys) → AllOff en xs × AllOff en ys
AllOff-append en [] ys h = (tt, h)
AllOff-append en (x ∷ xs) ys (off, h) = let (l, r) = AllOff-append en xs ys h in ((off, l), r)

append-AllOff : (en : Flags) (xs ys : List ℕ) → AllOff en xs → AllOff en ys → AllOff en (xs ++ ys)
append-AllOff en [] ys l r = r
append-AllOff en (x ∷ xs) ys (off, l) r = (off, append-AllOff en xs ys l r)

-- A rotated vector has the elements of the vector.
AllOff-rotated :
    (en : Flags) (k : ℕ) (els : List ℕ) → AllOff en (drop k els ++ take k els) → AllOff en els
AllOff-rotated en k els h =
    let (back, front) = AllOff-append en (drop k els) (take k els) h in
    subst (AllOff en) (take-append-drop k els)
      (append-AllOff en (take k els) (drop k els) front back)

module _ {I C : Type 0} (p : Parts I C) where
  AllOff-positions :
      (en : Flags) (k : ℕ) (cs : List C)
      → Shows p en k cs
      → AllOff en (positions k cs)
      → any_on p cs ≡ false
  AllOff-positions en k [] s h = refl
  AllOff-positions en k (c ∷ cs) (e, s) (off, h) =
      ground (arith, e, off, AllOff-positions en (suc k) cs s h)

  on_at-some : (o : Option C) → on_at p o ≡ true → (c : C) × (o ≡ some c) × (p.is_enable c ≡ true)
  on_at-some none h = cc
  on_at-some (some c) h = (c, refl, h)

  flags-off : (cs : List C) (i : ℕ) → any_on p cs ≡ false → flags p cs i ≡ false
  flags-off [] i h = refl
  flags-off (c ∷ cs) zero h = ground (arith, h)
  flags-off (c ∷ cs) (suc i) h = flags-off cs i (ground (arith, h))

  -- What a plain strategy gives on the flags of these children.
  Asked : List C → Chooser → Type 0
  Asked cs s =
      (s' : Chooser) × IsPlain s'
      × (((i : ℕ) × (c : C) × (choose_by_nothing (flags p cs) (positions 0 cs) s
              ≡ some (s', chosen i))
            × (get_elem? cs i ≡ some c)
            × (p.is_enable c ≡ true))
          ⊎ ((choose_by_nothing (flags p cs) (positions 0 cs) s ≡ some (s', null))
              × (any_on p cs ≡ false)
              × (s' ≡ s)))

  choose-Asked : (cs : List C) (s : Chooser) → IsPlain s → Asked cs s
  unfolding Asked
  choose-Asked cs fixed_chooser h =
      let shows = Shows-flags p cs 0 [] cs refl refl in
      elim (fixed-cases (flags p cs) (positions 0 cs)) [
        | inl (i, e, on) ↦
            let (c, found, c_on) = on_at-some (get_elem? cs i) on in
            (fixed_chooser, tt, inl (i, c, rw e refl, found, c_on))
        | inr (e, off) ↦
            (fixed_chooser, tt, inr (rw e refl, AllOff-positions (flags p cs) 0 cs shows off, refl))
      ]
  choose-Asked cs (roll_chooser current) h =
      let els = positions 0 cs in
      let k = start_at els current in
      let turned = drop k els ++ take k els in
      let asked = λ (c : Choice) (e : fixed (flags p cs) turned ≡ c).
        ap (λ r. some (rolled r))
          (roll_rotated (flags p cs) els current ∙ ap (advanced current) e) in
      elim (fixed-cases (flags p cs) turned) [
        | inl (i, e, on) ↦
            let (c, found, c_on) = on_at-some (get_elem? cs i) on in
            (roll_chooser (add32 current 1), tt, inl (i, c, asked (chosen i) e, found, c_on))
        | inr (e, off) ↦ (
          roll_chooser current,
          tt,
          inr (
            asked null e,
            AllOff-positions (flags p cs) 0 cs (Shows-flags p cs 0 [] cs refl refl)
                (AllOff-rotated (flags p cs) k els off),
            refl,
          ),
        )
      ]
  choose-Asked cs int_chooser h = elim h [ ]
  choose-Asked cs string_chooser h = elim h [ ]

-- The level behind the strategy's choice.
abbrev pub asked_level : {X C : Type 0} → Chooser → Level X C → Level X C
asked_level s n = record n { strategy = some s }

module _ {I X C O : Type 0} (p : Parts I C) (out : O) (call : C → Answer O C) where
  -- A call goes to an enabled child.
  abbrev pub Lands : Level X C → Type 0
  Lands n =
      (s : Chooser) × (i : ℕ) × (c : C) × IsPlain s
      × (get_elem? n.children i ≡ some c)
      × (p.is_enable c ≡ true)
      × (dispatch p choose_by_nothing out call n ≡ finished p (asked_level s n) i c (call c))

  -- Under a strategy without a seed a call goes to an enabled child if there is one; and if there is
  -- none, it returns false and changes nothing.
  pub dispatch_reaches :
      (n : Level X C) (s : Chooser)
      → n.inited ≡ true
      → n.strategy ≡ some s
      → IsPlain s
      → (any_on p n.children ≡ true → Lands n)
        × (any_on p n.children ≡ false
            → dispatch p choose_by_nothing out call n ≡ answers false out n)
  unfolding Asked
  dispatch_reaches n s on by plain =
      let (s', plain', ways) = choose-Asked p n.children s plain in
      elim ways [
        | inl (i, c, asked, found, c_on) ↦ (
          λ _. (
            s',
            i,
            c,
            plain',
            found,
            c_on,
            dispatch-chosen p out call choose_by_nothing n s s' i c on by asked found,
          ),
          λ off.
              let (_, was, _) = any_on-replace p i c c n.children found in
              absurd (ground (arith, was c_on, off)),
        )
        | inr (asked, off, same) ↦ (
          λ some_on. absurd (ground (arith, some_on, off)),
          λ _.
              dispatch-asked p out call choose_by_nothing n s s' null on by asked
              ∙ ap (λ o. answers false out (record n { strategy = o })) (ap some same ∙ sym by),
        )
      ]
