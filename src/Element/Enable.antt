-- ===== src/Element/Enable.antt =====
-- `Element::Enable` at a leaf ends, enables it and keeps the tree consistent.
use native.Mathlib.Decide.{ℕ_discrete}
use friend_serv.Base.{
  subst, ℕ, zero, suc, ◌≤◌, ◌≡◌, ◌≢◌, refl, ◌⊎◌, inl, inr, true, [], Option, none, some, arith, sym,
  ◌∙◌, Bool-cases, ==_self,
}
use friend_serv.Element.{Tree, Flags, set_flag, any_enabled, enable, after_enable}
use friend_serv.Element.Consistency.{
  Tied, IsConsistent, IsTree, Settled, need, need_above, Tied-set, not_leaf, Settled-refl,
  Settled-set, Settled-trans, any_enabled-mem, need_above-lt,
}

-- Consistent but at the node the loop stands at, which has an enabled child.
record Above (t : Tree) (en : Flags) (now : Option ℕ) : Type 0 where
  others : (q : ℕ) → now ≢ some q → Tied t en q
  child_on : (q : ℕ) → now ≡ some q → any_enabled en (t.children q) ≡ true

-- Consistent but at the node to enable, which is a leaf or has an enabled child.
record Ready (t : Tree) (en : Flags) (p : ℕ) : Type 0 where
  others : (q : ℕ) → q ≢ p → Tied t en q
  here : (t.children p ≡ []) ⊎ (any_enabled en (t.children p) ≡ true)

module _ {t : Tree} {rank : ℕ → ℕ} (v : IsTree t rank) where
  on-Above : (en : Flags) (p : ℕ) → Ready t en p → Above t (set_flag en p true) (t.parent p)
  on-Above en p r = record {
    others = λ q h. Tied-set v en p q true r.others r.here h;
    child_on = λ q e. any_enabled-mem _ p _ ((v.linked p q).1 e) (rw (==_self p));
  }

  Above-Ready : (en : Flags) (q : ℕ) → Above t en (some q) → Ready t en q
  Above-Ready en q a = record {
    others = λ r h. a.others r (λ e. h (cc));
    here = inr (a.child_on q refl);
  }

  Ready-IsConsistent : (en : Flags) (p : ℕ) → Ready t en p → en p ≡ true → IsConsistent t en
  Ready-IsConsistent en p r on q = elim (ℕ_discrete q p) [
    | yes e ↦ subst (Tied t en) (sym e) (tied r.here)
    | no ne ↦ r.others q ne
  ]
    where
      tied : (t.children p ≡ []) ⊎ (any_enabled en (t.children p) ≡ true) → Tied t en p
      tied (inl e) = inl e
      tied (inr e) = inr (on ∙ sym e)

  Above-parent : (en : Flags) (p : ℕ) → IsConsistent t en → en p ≡ true → Above t en (t.parent p)
  Above-parent en p c on = record {
    others = λ q _. c q;
    child_on = λ q e. any_enabled-mem en p _ ((v.linked p q).1 e) on;
  }

  abbrev Enabled : Flags → ℕ → Option Flags → Type 0
  Enabled en p out =
      (en' : Flags) × (out ≡ some en') × Settled t en en' (some p) true × (en' p ≡ true)

  abbrev Climbed : Flags → Option Flags → Type 0
  Climbed en out = (en' : Flags) × (out ≡ some en') × Settled t en en' none true

  mutual
    unfolding enable after_enable

    enable-Enabled :
        (f : ℕ) (en : Flags) (p : ℕ)
        → need rank p ≤ f
        → Ready t en p
        → Enabled en p (enable t f en p)
    enable-Enabled zero en p h r = absurd (omega arith)
    enable-Enabled (suc f) en p h r = elim (Bool-cases (en p)) [
      | inl on ↦ rw on (en, refl, Settled-refl t en _ _ (Ready-IsConsistent en p r on), on)
      | inr off ↦
          let (en', e, s) =
            after_enable-Climbed f (set_flag en p true) (t.parent p)
              (need_above-lt v p f (omega arith)) (on-Above en p r) in
          rw off (en', e, Settled-set t en en' p true s, s.kept p (rw (==_self p)))
    ]

    after_enable-Climbed :
        (f : ℕ) (en : Flags) (now : Option ℕ)
        → need_above rank now ≤ f
        → Above t en now
        → Climbed en (after_enable t f en now)
    after_enable-Climbed zero en none h a = absurd (omega arith)
    after_enable-Climbed zero en (some q) h a = absurd (omega arith)
    after_enable-Climbed (suc f) en none h a = (
      en,
      refl,
      record { consistent = λ q. a.others q (λ e. cc); kept = λ r e. e; leaves = λ r _ _. refl },
    )
    after_enable-Climbed (suc f) en (some q) h a = elim (Bool-cases (en q)) [
      | inl on ↦
          rw on (en, refl, Settled-refl t en _ _ (Ready-IsConsistent en q (Above-Ready en q a) on))
      | inr off ↦
          let (en1, e1, s1, on) = enable-Enabled f en q (omega arith) (Above-Ready en q a) in
          let (en2, e2, s2) =
            after_enable-Climbed f en1 (t.parent q) (need_above-lt v q f (omega arith))
              (Above-parent en1 q s1.consistent on) in
          rw (off, e1)
            (en2, e2, Settled-trans t en en1 en2 q true (not_leaf t en q (a.child_on q refl)) s1 s2)
    ]

-- `Enable` on a leaf of a consistent tree ends with that leaf enabled, every other leaf as it was,
-- and the whole tree consistent again: every inner node is enabled exactly if a child of it is.
-- The fuel `2 * rank p + 2` is enough, with `rank` any measure that falls on the way to the root.
pub enable_leaf :
    (t : Tree) (rank : ℕ → ℕ) (f : ℕ) (en : Flags) (p : ℕ)
    → IsTree t rank
    → need rank p ≤ f
    → t.children p ≡ []
    → IsConsistent t en
    → (en' : Flags) × (enable t f en p ≡ some en')
      × IsConsistent t en'
      × (en' p ≡ true)
      × ((r : ℕ) → t.children r ≡ [] → r ≢ p → en' r ≡ en r)
enable_leaf t rank f en p v h leaf c =
    let (en', e, s, on) =
      enable-Enabled v f en p h (record { others = λ q _. c q; here = inl leaf }) in
    (en', e, s.consistent, on, λ r lr ne. s.leaves r lr (λ e'. ne (ground arith)))
