-- ===== src/Element/Consistency.antt =====
-- When the flags of common/strategy.h agree with the tree: a node that has children is enabled
-- exactly if one of them is.
use native.Mathlib.Decide.{ℕ_discrete}
use friend_serv.Base.{
  ℕ, ◌+◌, ◌*◌, ◌≤◌, ◌<◌, ◌≡◌, ◌≢◌, refl, ◌⊎◌, ◌↔◌, inl, inr, Bool, true, false, ◌||◌, List, [], ◌∷◌,
  Option, none, some, arith, ◌==◌, ap, Option-cases, inl, inr, ==_self, ==_ne, sym, subst, ◌∙◌,
}
use friend_serv.Element.{Tree, Flags, set_flag, any_enabled}

abbrev pub Tied : Tree → Flags → ℕ → Type 0
Tied t en q = (t.children q ≡ []) ⊎ (en q ≡ any_enabled en (t.children q))

abbrev pub IsConsistent : Tree → Flags → Type 0
IsConsistent t en = (q : ℕ) → Tied t en q

unfoldable pub has : ℕ → List ℕ → Bool
has c [] = false
has c (d ∷ ds) = d == c || has c ds

-- `m_parent` and `m_children` say the same, and no walk to the root comes back to its start.
pub record IsTree (t : Tree) (rank : ℕ → ℕ) : Type 0 where
  pub linked : (c q : ℕ) → (has c (t.children q) ≡ true) ↔ (t.parent c ≡ some q)
  pub ranked : (c q : ℕ) → t.parent c ≡ some q → rank q < rank c

-- The fuel for `enable` and `disable` at a node, and for their loops.
abbrev pub need : (ℕ → ℕ) → ℕ → ℕ
need rank p = 2 * rank p + 2

abbrev pub need_above : (ℕ → ℕ) → Option ℕ → ℕ
need_above rank none = 1
need_above rank (some q) = 2 * rank q + 3

-- What the two walks establish: `moved` is the value that they write.
pub record Settled (t : Tree) (en en' : Flags) (start : Option ℕ) (moved : Bool) : Type 0 where
  pub consistent : IsConsistent t en'
  pub kept : (r : ℕ) → en r ≡ moved → en' r ≡ moved
  pub leaves : (r : ℕ) → t.children r ≡ [] → start ≢ some r → en' r ≡ en r

pub any_enabled-set_ne :
    (en : Flags) (p : ℕ) (b : Bool) (cs : List ℕ)
    → has p cs ≡ false
    → any_enabled (set_flag en p b) cs ≡ any_enabled en cs
unfolding any_enabled has
any_enabled-set_ne en p b [] h = refl
any_enabled-set_ne en p b (c ∷ cs) h = ground (arith, any_enabled-set_ne en p b cs)

pub any_enabled-mem :
    (en : Flags) (p : ℕ) (cs : List ℕ) → has p cs ≡ true → en p ≡ true → any_enabled en cs ≡ true
unfolding any_enabled has
any_enabled-mem en p (c ∷ cs) h e = ground (arith, any_enabled-mem en p cs)
any_enabled-mem en p [] h e = absurd (cc)

-- A node with an enabled child is no leaf, and two walks one after the other are one.
pub not_leaf :
    (t : Tree) (en : Flags) (q : ℕ) → any_enabled en (t.children q) ≡ true → t.children q ≢ []
unfolding any_enabled
not_leaf t en q h e = cc (ap (any_enabled en) e)

pub has_inner : (t : Tree) (p q : ℕ) → has p (t.children q) ≡ true → t.children q ≢ []
unfolding has
has_inner t p q h e = cc (ap (has p) e)

pub Settled-trans :
    (t : Tree) (en en1 en2 : Flags) (q : ℕ) (b : Bool)
    → t.children q ≢ []
    → Settled t en en1 (some q) b
    → Settled t en1 en2 none b
    → Settled t en en2 none b
Settled-trans t en en1 en2 q b h s1 s2 = record {
  consistent = s2.consistent;
  kept = λ r e. s2.kept r (s1.kept r e);
  leaves = λ r leaf _.
      s2.leaves r leaf (λ e. cc)
      ∙ s1.leaves r leaf (λ e. let e' : q ≡ r = ground arith in h (ap t.children e' ∙ leaf));
}

pub Settled-set :
    (t : Tree) (en en' : Flags) (p : ℕ) (b : Bool)
    → Settled t (set_flag en p b) en' none b
    → Settled t en en' (some p) b
Settled-set t en en' p b s = record {
  consistent = s.consistent;
  kept = λ r e. s.kept r (ground arith);
  leaves = λ r leaf ne. s.leaves r leaf (λ e. cc) ∙ rw (==_ne p r (λ e. ne (ap some e)));
}

pub Settled-refl :
    (t : Tree) (en : Flags) (start : Option ℕ) (b : Bool)
    → IsConsistent t en
    → Settled t en en start b
Settled-refl t en start b c = record { consistent = c; kept = λ r e. e; leaves = λ r _ _. refl }

module _ {t : Tree} {rank : ℕ → ℕ} (v : IsTree t rank) where
  pub has-false : (c q : ℕ) → t.parent c ≢ some q → has c (t.children q) ≡ false
  has-false c q h = ground (arith, v.linked c q)

  pub not_self : (p q : ℕ) → t.parent p ≡ some q → q ≢ p
  not_self p q h e = omega (arith, ap rank e, v.ranked p q h)

  pub need_above-lt : (p f : ℕ) → need rank p ≤ f + 1 → need_above rank (t.parent p) ≤ f
  need_above-lt p f h = elim (Option-cases (t.parent p)) [
    | inl e ↦ rw e (omega arith)
    | inr (q, e) ↦ rw e (omega (arith, v.ranked p q e))
  ]

  pub Tied-set_ne :
      (en : Flags) (p q : ℕ) (b : Bool)
      → t.parent p ≢ some q
      → q ≢ p
      → Tied t en q
      → Tied t (set_flag en p b) q
  Tied-set_ne en p q b h ne (inl e) = inl e
  Tied-set_ne en p q b h ne (inr e) =
      inr (
        rw (==_ne p q (λ e'. ne (sym e')))
          (e ∙ sym (any_enabled-set_ne en p b _ (has-false p q h))))

  -- A node that is no leaf is tied once it is given the value of its scan.
  pub Tied-set_self :
      (en : Flags) (p : ℕ) (b : Bool)
      → (t.children p ≡ []) ⊎ (any_enabled en (t.children p) ≡ b)
      → Tied t (set_flag en p b) p
  Tied-set_self en p b (inl e) = inl e
  Tied-set_self en p b (inr e) = inr (
      rw (==_self p)
        (sym (any_enabled-set_ne en p b _ (has-false p p (λ h. not_self p p h refl)) ∙ e)))

  pub Tied-set :
      (en : Flags) (p q : ℕ) (b : Bool)
      → ((r : ℕ) → r ≢ p → Tied t en r)
      → (t.children p ≡ []) ⊎ (any_enabled en (t.children p) ≡ b)
      → t.parent p ≢ some q
      → Tied t (set_flag en p b) q
  Tied-set en p q b others here h = elim (ℕ_discrete q p) [
    | yes e ↦ subst (Tied t (set_flag en p b)) (sym e) (Tied-set_self en p b here)
    | no ne ↦ Tied-set_ne en p q b h ne (others q ne)
  ]
