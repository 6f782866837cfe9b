-- ===== src/Element/Adopt.antt =====
-- `Element::AddChild`, for a child that is still disabled and for one that is enabled already.
use friend_serv.Base.{
  ℕ, zero, suc, ◌≤◌, ◌<◌, ◌≡◌, ◌≢◌, refl, inl, inr, Bool, true, false, List, [], ◌∷◌, ◌++◌, Option,
  none, some, arith, sym, ◌∙◌, Bool-cases, Option-cases, ==_self, ==_ne, ap, ◌==◌, subst, ==_iff,
  if◌then◌else◌,
}
use friend_serv.Element.{Tree, Flags, set_flag, any_enabled, enable, after_enable, adopt, add_child}
use friend_serv.Element.Consistency.{Tied, IsConsistent, IsTree, need, need_above, need_above-lt}

-- A node and all above it are enabled.
pub data Up (t : Tree) (en : Flags) : Option ℕ → Type 0 where
  root : Up t en none
  next : (q : ℕ) → en q ≡ true → Up t en (t.parent q) → Up t en (some q)

-- The parent of an enabled node is enabled.
abbrev pub IsClosed : Tree → Flags → Type 0
IsClosed t en = (q r : ℕ) → t.parent q ≡ some r → en q ≡ true → en r ≡ true

after_enable-Up :
    (t : Tree) (f : ℕ) (en : Flags) (now : Option ℕ)
    → 1 ≤ f
    → Up t en now
    → after_enable t f en now ≡ some en
unfolding after_enable
after_enable-Up t zero en now h u = absurd (omega arith)
after_enable-Up t (suc f) en none h u = refl
after_enable-Up t (suc f) en (some q) h (next _ on u) = rw on refl

Up-above : {t : Tree} (en : Flags) (q : ℕ) → Up t en (some q) → Up t en (t.parent q)
Up-above en q (next _ on u) = u

module _ {t : Tree} {rank : ℕ → ℕ} (v : IsTree t rank) where
  -- The same for the nodes nearer to the root than so far.
  abbrev ClosedBelow : ℕ → Flags → Type 0
  ClosedBelow m en = (q r : ℕ) → rank q < m → t.parent q ≡ some r → en q ≡ true → en r ≡ true

  abbrev Near : Option ℕ → ℕ → Type 0
  Near none m = Unit {0}
  Near (some q) m = rank q < m

  Near-parent : (p m : ℕ) → rank p ≤ m → Near (t.parent p) m
  Near-parent p m h = elim (Option-cases (t.parent p)) [
    | inl e ↦ rw e tt
    | inr (q, e) ↦ rw e (omega (arith, v.ranked p q e))
  ]

  on-Up :
      (k : ℕ) (en : Flags) (q : ℕ)
      → rank q < k
      → ClosedBelow (suc (rank q)) en
      → en q ≡ true
      → Up t en (some q)
  on-Up zero en q h c on = absurd (omega arith)
  on-Up (suc k) en q h c on = elim (Option-cases (t.parent q)) [
    | inl e ↦ next q on (subst (Up t en) (sym e) root)
    | inr (r, e) ↦ next q on (
        subst (Up t en) (sym e) (
          on-Up k en r (omega (arith, h, v.ranked q r e))
            (λ a b lt. c a b (omega (arith, lt, v.ranked q r e))) (c q r (omega arith) e on)))
  ]

  set_flag-Closed :
      (en : Flags) (p : ℕ)
      → ClosedBelow (suc (rank p)) en
      → ClosedBelow (rank p) (set_flag en p true)
  set_flag-Closed en p c q r lt e on =
      let ne : p ≢ q = (λ z. absurd (omega (arith, lt, ap rank z))) in
      let was : en q ≡ true = ground (arith, on, ==_ne p q ne) in
      let up = c q r (omega (arith, lt)) e was in
      elim (Bool-cases (p == r)) [ inl same ↦ rw same refl | inr other ↦ rw other up ]

  -- The walk towards the root ends, with all from its start on enabled, and changes no node that is
  -- not nearer to the root than `m`.
  abbrev Ends : ℕ → Option ℕ → Flags → Option Flags → Type 0
  Ends m now en out =
      (en' : Flags) × (out ≡ some en') × ((r : ℕ) → m ≤ rank r → en' r ≡ en r) × Up t en' now

  mutual
    unfolding enable after_enable

    enable-Ends :
        (f : ℕ) (en : Flags) (p : ℕ)
        → need rank p ≤ f
        → ClosedBelow (suc (rank p)) en
        → Ends (suc (rank p)) (some p) en (enable t f en p)
    enable-Ends zero en p h c = absurd (omega arith)
    enable-Ends (suc f) en p h c = elim (Bool-cases (en p)) [
      | inl on ↦ rw on (en, refl, λ r _. refl, on-Up (suc (rank p)) en p (omega arith) c on)
      | inr off ↦
          let (en', e, k, u) =
            after_enable-Ends f (rank p) (set_flag en p true) (t.parent p)
              (need_above-lt v p f (omega arith)) (Near-parent p (rank p) (omega arith))
              (set_flag-Closed en p c) in
          rw off (
            en',
            e,
            λ r lt. k r (omega arith) ∙ rw (==_ne p r (λ e'. absurd (omega (arith, ap rank e')))),
            next p (k p (omega arith) ∙ rw (==_self p)) u,
          )
    ]

    after_enable-Ends :
        (f m : ℕ) (en : Flags) (now : Option ℕ)
        → need_above rank now ≤ f
        → Near now m
        → ClosedBelow m en
        → Ends m now en (after_enable t f en now)
    after_enable-Ends zero m en none h near c = absurd (omega arith)
    after_enable-Ends zero m en (some q) h near c = absurd (omega arith)
    after_enable-Ends (suc f) m en none h near c = (en, refl, λ r _. refl, root)
    after_enable-Ends (suc f) m en (some q) h near c =
        let below : ClosedBelow (suc (rank q)) en = (λ a b lt. c a b (omega (arith, lt, near))) in
        elim (Bool-cases (en q)) [
          | inl on ↦ rw on (en, refl, λ r _. refl, on-Up (suc (rank q)) en q (omega arith) below on)
          | inr off ↦
              let (en1, e1, k1, u1) = enable-Ends f en q (omega arith) below in
              let stays = after_enable-Up t f en1 (t.parent q) (omega arith) (Up-above en1 q u1) in
              rw (off, e1, stays) (en1, refl, λ r lt. k1 r (omega (arith, lt, near)), u1)
        ]

any_enabled-append :
    (en : Flags) (c : ℕ) (cs : List ℕ)
    → en c ≡ false
    → any_enabled en (cs ++ c ∷ []) ≡ any_enabled en cs
unfolding any_enabled
any_enabled-append en c [] h = ground arith
any_enabled-append en c (d ∷ ds) h = ground (arith, any_enabled-append en c ds h)

any_enabled-last :
    (en : Flags) (c : ℕ) (cs : List ℕ) → en c ≡ true → any_enabled en (cs ++ c ∷ []) ≡ true
unfolding any_enabled
any_enabled-last en c [] h = ground arith
any_enabled-last en c (d ∷ ds) h = ground (arith, any_enabled-last en c ds h)

last_ne : (c : ℕ) (cs : List ℕ) → cs ++ c ∷ [] ≢ []
last_ne c [] e = cc
last_ne c (d ∷ ds) e = cc

-- Adding a disabled child returns true, changes no flag and keeps the tree consistent, if the
-- parent's flag already agrees with its children (as it does for a new, disabled parent).
pub add_child_disabled :
    (f : ℕ) (t : Tree) (en : Flags) (p c : ℕ)
    → en c ≡ false
    → en p ≡ any_enabled en (t.children p)
    → IsConsistent t en
    → (add_child f t en p (some c) ≡ some (true, adopt t p c, en)) × IsConsistent (adopt t p c) en
unfolding add_child
add_child_disabled f t en p c off agree k = (
  rw off,
  λ q. elim (Bool-cases (p == q)) [
    | inl e ↦ rw e (
        inr (
          subst (λ x. en x ≡ any_enabled en (t.children x)) ((==_iff p q).0 e) agree
          ∙ sym (any_enabled-append en c (t.children q) off)))
    | inr e ↦ rw e (k q)
  ],
)

not-Tied :
    (t : Tree) (en : Flags) (p c : ℕ) → en p ≡ false → en c ≡ true → ¬ Tied (adopt t p c) en p
not-Tied t en p c off on (inl e) = last_ne c (t.children p) (sym (rw (==_self p)) ∙ e)
not-Tied t en p c off on (inr e) = cc (
  any_enabled-last en c (t.children p) on,
  ap (λ (b : Bool). if b then t.children p ++ c ∷ [] else t.children p) (==_self p),
)

-- Adding an enabled child to a disabled node returns true and enables all ancestors of that node, in a
-- tree where the parent of an enabled node is enabled; but never the node itself: it stays disabled
-- above an enabled child, so the tree is inconsistent.
pub add_child_enabled :
    (f : ℕ) (t : Tree) (rank : ℕ → ℕ) (en : Flags) (p c : ℕ)
    → IsTree (adopt t p c) rank
    → need rank p ≤ f
    → IsClosed t en
    → en c ≡ true
    → en p ≡ false
    → (en' : Flags) × (add_child f t en p (some c) ≡ some (true, adopt t p c, en'))
      × Up (adopt t p c) en' (t.parent p)
      × (en' c ≡ true)
      × (en' p ≡ false)
      × (¬ Tied (adopt t p c) en' p)
unfolding add_child
add_child_enabled f t rank en p c v h closed on off =
    let below : rank p < rank c = v.ranked c p (rw (==_self c)) in
    let apart : (q : ℕ) → rank q ≤ rank p → (c == q) ≡ false =
      (λ q lt. ==_ne c q (λ z. absurd (omega (arith, lt, below, ap rank z)))) in
    let t' = adopt t p c in
    let parents : (q : ℕ) → rank q ≤ rank p → t'.parent q ≡ t.parent q =
      (λ q lt. rw (apart q lt) refl) in
    let (en', e, k, u) =
      after_enable-Ends v f (rank p) en (t'.parent p) (need_above-lt v p f (omega arith))
        (Near-parent v p (rank p) (omega arith))
        (λ q r lt link. closed q r (sym (parents q (omega (arith, lt))) ∙ link)) in
    let still : en' p ≡ false = k p (omega arith) ∙ off in
    let child : en' c ≡ true = k c (omega (arith, below)) ∙ on in
    (
      en',
      rw (on, e),
      subst (Up t' en') (parents p (omega arith)) u,
      child,
      still,
      not-Tied t en' p c still child,
    )
