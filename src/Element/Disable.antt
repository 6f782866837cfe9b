-- ===== src/Element/Disable.antt =====
-- `Element::Disable` at a leaf ends, disables it and keeps the tree consistent.
use native.Mathlib.Decide.{ℕ_discrete}
use friend_serv.Base.{
  subst, ℕ, zero, suc, ◌≤◌, ◌≡◌, ◌≢◌, refl, ◌⊎◌, inl, inr, true, false, List, [], ◌∷◌, Option, none,
  some, arith, sym, ◌∙◌, Bool-cases, ==_self, ==_ne,
}
use friend_serv.Element.{Tree, Flags, set_flag, any_enabled, disable, after_disable}
use friend_serv.Element.Consistency.{
  Tied, IsConsistent, IsTree, Settled, need, need_above, has_inner, Tied-set, not_leaf,
  Settled-refl, Settled-set, Settled-trans, not_self, need_above-lt,
}

-- Consistent but at the node the loop stands at, which may be on with every child off.
record Above (t : Tree) (en : Flags) (now : Option ℕ) : Type 0 where
  others : (q : ℕ) → now ≢ some q → Tied t en q
  inner : (q : ℕ) → now ≡ some q → t.children q ≢ []
  on : (q : ℕ) → now ≡ some q → any_enabled en (t.children q) ≡ true → en q ≡ true

record Ready (t : Tree) (en : Flags) (p : ℕ) : Type 0 where
  others : (q : ℕ) → q ≢ p → Tied t en q
  here : (t.children p ≡ []) ⊎ (any_enabled en (t.children p) ≡ false)

-- A flag that goes out raises no scan.
any_enabled-set_false :
    (en : Flags) (p : ℕ) (cs : List ℕ)
    → any_enabled (set_flag en p false) cs ≡ true
    → any_enabled en cs ≡ true
unfolding any_enabled
any_enabled-set_false en p [] h = h
any_enabled-set_false en p (c ∷ cs) h = ground (arith, any_enabled-set_false en p cs)

Tied-on :
    (t : Tree) (en : Flags) (q : ℕ)
    → Tied t en q
    → t.children q ≢ []
    → any_enabled en (t.children q) ≡ true
    → en q ≡ true
Tied-on t en q (inl e) h a = absurd (h e)
Tied-on t en q (inr e) h a = e ∙ a

module _ {t : Tree} {rank : ℕ → ℕ} (v : IsTree t rank) where
  Above-parent :
      (en : Flags) (p : ℕ)
      → ((q : ℕ) → t.parent p ≡ some q → Tied t en q)
      → ((q : ℕ) → t.parent p ≢ some q → Tied t (set_flag en p false) q)
      → Above t (set_flag en p false) (t.parent p)
  Above-parent en p tied others = record {
    others = others;
    inner = λ q e. has_inner t p q ((v.linked p q).1 e);
    on = λ q e a.
        rw (==_ne p q (λ h. not_self v p q e (sym h)))
          (Tied-on t en q (tied q e) (not_leaf t _ q a) (any_enabled-set_false en p _ a));
  }

  off-Above : (en : Flags) (p : ℕ) → Ready t en p → Above t (set_flag en p false) (t.parent p)
  off-Above en p r =
      Above-parent en p (λ q e. r.others q (not_self v p q e))
        (λ q h. Tied-set v en p q false r.others r.here h)

  Above-Ready :
      (en : Flags) (q : ℕ)
      → Above t en (some q)
      → any_enabled en (t.children q) ≡ false
      → Ready t en q
  Above-Ready en q a off = record { others = λ r h. a.others r (λ e. h (cc)); here = inr off }

  Ready-IsConsistent : (en : Flags) (p : ℕ) → Ready t en p → en p ≡ false → IsConsistent t en
  Ready-IsConsistent en p r off q = elim (ℕ_discrete q p) [
    | yes e ↦ subst (Tied t en) (sym e) (tied r.here)
    | no ne ↦ r.others q ne
  ]
    where
      tied : (t.children p ≡ []) ⊎ (any_enabled en (t.children p) ≡ false) → Tied t en p
      tied (inl e) = inl e
      tied (inr e) = inr (off ∙ sym e)

  next-Above : (en : Flags) (p : ℕ) → IsConsistent t en → Above t en (t.parent p)
  next-Above en p c = record {
    others = λ q _. c q;
    inner = λ q e. has_inner t p q ((v.linked p q).1 e);
    on = λ q e a. Tied-on t en q (c q) (not_leaf t en q a) a;
  }

  on_here :
      (en : Flags) (q : ℕ)
      → Above t en (some q)
      → any_enabled en (t.children q) ≡ true
      → IsConsistent t en
  on_here en q a h r = elim (ℕ_discrete r q) [
    | yes e ↦ subst (Tied t en) (sym e) (inr (a.on q refl h ∙ sym h))
    | no ne ↦ a.others r (λ e. ne (cc))
  ]

  abbrev Disabled : Flags → ℕ → Option Flags → Type 0
  Disabled en p out =
      (en' : Flags) × (out ≡ some en') × Settled t en en' (some p) false × (en' p ≡ false)

  abbrev Climbed : Flags → Option Flags → Type 0
  Climbed en out = (en' : Flags) × (out ≡ some en') × Settled t en en' none false

  mutual
    unfolding disable after_disable

    disable-Disabled :
        (f : ℕ) (en : Flags) (p : ℕ)
        → need rank p ≤ f
        → Ready t en p
        → Disabled en p (disable t f en p)
    disable-Disabled zero en p h r = absurd (omega arith)
    disable-Disabled (suc f) en p h r = elim (Bool-cases (en p)) [
      | inr off ↦ rw off (en, refl, Settled-refl t en _ _ (Ready-IsConsistent en p r off), off)
      | inl on ↦
          let (en', e, s) =
            after_disable-Climbed f (set_flag en p false) (t.parent p)
              (need_above-lt v p f (omega arith)) (off-Above en p r) in
          rw on (en', e, Settled-set t en en' p false s, s.kept p (rw (==_self p)))
    ]

    after_disable-Climbed :
        (f : ℕ) (en : Flags) (now : Option ℕ)
        → need_above rank now ≤ f
        → Above t en now
        → Climbed en (after_disable t f en now)
    after_disable-Climbed zero en none h a = absurd (omega arith)
    after_disable-Climbed zero en (some q) h a = absurd (omega arith)
    after_disable-Climbed (suc f) en none h a =
        (en, refl, Settled-refl t en _ _ (λ q. a.others q (λ e. cc)))
    after_disable-Climbed (suc f) en (some q) h a =
        elim (Bool-cases (any_enabled en (t.children q))) [
          | inl on ↦ rw on (en, refl, Settled-refl t en _ _ (on_here en q a on))
          | inr off ↦
              let (en1, e1, s1, _) =
                disable-Disabled f en q (omega arith) (Above-Ready en q a off) in
              let (en2, e2, s2) =
                after_disable-Climbed f en1 (t.parent q) (need_above-lt v q f (omega arith))
                  (next-Above en1 q s1.consistent) in
              rw (off, e1) (en2, e2, Settled-trans t en en1 en2 q false (a.inner q refl) s1 s2)
        ]

-- `Disable` on a leaf of a consistent tree ends with that leaf disabled, every other leaf as it
-- was, and the whole tree consistent again: an inner node stays enabled exactly if a child of it
-- is. The fuel `2 * rank p + 2` is enough, with `rank` any measure that falls towards the root.
pub disable_leaf :
    (t : Tree) (rank : ℕ → ℕ) (f : ℕ) (en : Flags) (p : ℕ)
    → IsTree t rank
    → need rank p ≤ f
    → t.children p ≡ []
    → IsConsistent t en
    → (en' : Flags) × (disable t f en p ≡ some en')
      × IsConsistent t en'
      × (en' p ≡ false)
      × ((r : ℕ) → t.children r ≡ [] → r ≢ p → en' r ≡ en r)
disable_leaf t rank f en p v h leaf c =
    let (en', e, s, off) =
      disable-Disabled v f en p h (record { others = λ q _. c q; here = inl leaf }) in
    (en', e, s.consistent, off, λ r lr ne. s.leaves r lr (λ e'. ne (ground arith)))
