-- ===== src/Level/Setup.antt =====
-- Init of ServiceReplicas and ServiceGroup in common/: when it returns true, and what it builds then.
use friend_serv.Base.{
  ℕ, suc, ◌≡◌, ◌≢◌, refl, ◌↔◌, inl, inr, Bool, true, false, ◌||◌, List, [], ◌∷◌, ◌++◌, Option, none,
  some, ◌>>=◌, sym, ◌∙◌, arith, ap, ap₂, Option-cases, append_assoc, append-nil,
}
use friend_serv.Config.{StrategyType}
use friend_serv.Strategy.Chooser.{Chooser, create_strategy}
use friend_serv.Level.{
  Parts, Level, any_on, close, pushed, raised, init_children, with_strategy, finish_init,
  init_level, new_level, clear_children,
}

-- The children are those that `new` and Init make of the configurations, in their order.
abbrev pub Built : {I C : Type 0} → Parts I C → List ℕ → ℕ → List I → List C → Type 0
Built p path k [] [] = Unit
Built p path k [] (c ∷ cs) = ⊥
Built p path k (i ∷ is) [] = ⊥
Built {C = C} p path k (i ∷ is) (c ∷ cs) =
    ((new : C) × (p.create (k ∷ path) i ≡ some new)
      × (p.init_child (k ∷ path) i new ≡ some (true, c)))
    × Built p path (suc k) is cs

-- A level with more children.
abbrev pub grown : {I X C : Type 0} → Parts I C → Level X C → List C → Level X C
grown p n cs = record n { children = n.children ++ cs; enabled = n.enabled || any_on p cs }

module _ {I X C : Type 0} (p : Parts I C) where
  not_true :
      (n' : Level X C) (o : Option (Level X C))
      → (◌>>=◌ {B = Bool × Level X C} o (λ m. some (false, m))) ≢ some (true, n')
  not_true n' none e = cc
  not_true n' (some m) e = cc

  none_not : {r : Bool × Level X C} → none ≢ some r
  none_not e = cc

  grown-nil : (n : Level X C) → grown p n [] ≡ n
  grown-nil n =
      ap₂ (λ l b. record n { children = l; enabled = b }) (append-nil n.children) (ground arith)

  grown-pushed :
      (n : Level X C) (c : C) (cs : List C) → grown p (pushed p c n) cs ≡ grown p n (c ∷ cs)
  grown-pushed n c cs =
      ap₂ (λ l b. record n { children = l; enabled = b }) (append_assoc n.children (c ∷ []) cs)
        (ground arith)

  Grows : (path : List ℕ) → ℕ → List I → Level X C → Level X C → Type 0
  Grows path k is n n' = (cs : List C) × Built p path k is cs × (n' ≡ grown p n cs)

  init_children-Built :
      (path : List ℕ) (k : ℕ) (is : List I) (n n' : Level X C)
      → init_children p path k is n ≡ some (true, n')
      → Grows path k is n n'
  unfolding init_children Grows
  init_children-Built path k [] n n' h =
      ([], tt, let same : n' ≡ n = cc in same ∙ sym (grown-nil n))
  init_children-Built path k (i ∷ is) n n' h = elim (Option-cases (p.create (k ∷ path) i)) [
    | inl e ↦ absurd (not_true n' (close p n) (sym (rw (init_children, e) refl) ∙ h))
    | inr (c, e) ↦ elim (Option-cases (p.init_child (k ∷ path) i c)) [
      | inl e' ↦ absurd (none_not (sym (rw (init_children, e, e') refl) ∙ h))
      | inr ((true, c'), e') ↦
          let (cs, made, same) =
            init_children-Built path (suc k) is (pushed p c' n) n'
              (sym (rw (init_children, e, e') refl) ∙ h) in
          (c' ∷ cs, ((c, e, e'), made), same ∙ grown-pushed n c' cs)
      | inr ((false, c'), e') ↦
          absurd (not_true n' (close p (raised p c' n)) (sym (rw (init_children, e, e') refl) ∙ h))
    ]
  ]

  Built-init_children :
      (path : List ℕ) (k : ℕ) (is : List I) (n : Level X C) (cs : List C)
      → Built p path k is cs
      → init_children p path k is n ≡ some (true, grown p n cs)
  unfolding init_children
  Built-init_children path k [] n [] h = ap (λ m. some (true, m)) (sym (grown-nil n))
  Built-init_children path k [] n (c ∷ cs) h = elim h [ ]
  Built-init_children path k (i ∷ is) n [] h = elim h [ ]
  Built-init_children path k (i ∷ is) n (c ∷ cs) ((new, e, e'), h) =
      rw (init_children, e, e')
        (Built-init_children path (suc k) is (pushed p c n) cs h
          ∙ ap (λ m. some (true, m)) (grown-pushed n c cs))

-- A level that Init made ready.
abbrev pub ready_level : {I X C : Type 0} → Parts I C → X → Chooser → List C → Level X C
ready_level p x s cs = record {
  inited = true;
  info = x;
  strategy = some s;
  children = cs;
  enabled = any_on p cs;
  freed = false;
}

module _ {I X C : Type 0} (p : Parts I C) (path : List ℕ) (x0 x : X) (s : StrategyType)
    (vec : List I) where
  -- The ways in which Init of a new object returns true.
  abbrev pub Succeeds : (forbidden allowed : Bool) → Level X C → Type 0
  Succeeds true allowed n' = n' ≡ new_level x
  Succeeds false false n' = ⊥
  Succeeds false true n' =
      (cs : List C) × (ch : Chooser) × Built p path 0 vec cs
      × (create_strategy p.memory s ≡ some ch)
      × (n' ≡ ready_level p x ch cs)

  abbrev begun : Level X C
  begun = record (new_level x0) { info = x }

  abbrev started : Chooser → Level X C → Level X C
  started ch n = record n { strategy = some ch; inited = true }

  finish-true :
      (r : Bool × Level X C) (n' : Level X C)
      → finish_init p s r ≡ some (true, n')
      → (r.0 ≡ true)
        × ((ch : Chooser) × (create_strategy p.memory s ≡ some ch)
            × (n' ≡ record (r.1) { strategy = some ch; inited = true }))
  finish-true (false, m) n' h = cc
  finish-true (true, m) n' h = elim (Option-cases (create_strategy p.memory s)) [
    | inl e ↦ absurd (not_true p n' (close p m) (sym (ap (λ o. with_strategy p o m) e) ∙ h))
    | inr (ch, e) ↦ (refl, (ch, e, let done = sym (ap (λ o. with_strategy p o m) e) ∙ h in cc))
  ]

  finish-children :
      (r : Option (Bool × Level X C)) (n' : Level X C)
      → r >>= finish_init p s ≡ some (true, n')
      → (m : Level X C) × (r ≡ some (true, m))
        × ((ch : Chooser) × (create_strategy p.memory s ≡ some ch)
            × (n' ≡ record m { strategy = some ch; inited = true }))
  finish-children none n' h = cc
  finish-children (some (b, m)) n' h =
      let (yes_ok, rest) = finish-true (b, m) n' h in (m, ap (λ c. some (c, m)) yes_ok, rest)

  init_level-Succeeds :
      (forbidden allowed : Bool) (n' : Level X C)
      → init_level p path x forbidden allowed s vec (new_level x0) ≡ some (true, n')
      → Succeeds forbidden allowed n'
  unfolding init_level close clear_children Grows
  init_level-Succeeds true allowed n' h = cc
  init_level-Succeeds false false n' h = cc
  init_level-Succeeds false true n' h =
      let (m, made, (ch, create, same)) = finish-children (init_children p path 0 vec begun) n' h in
      let (cs, built, grew) = init_children-Built p path 0 vec begun m made in
      (cs, ch, built, create, same ∙ ap (started ch) grew)

  Succeeds-init_level :
      (forbidden allowed : Bool) (n' : Level X C)
      → Succeeds forbidden allowed n'
      → init_level p path x forbidden allowed s vec (new_level x0) ≡ some (true, n')
  unfolding init_level close clear_children
  Succeeds-init_level true allowed n' h = ap (λ m. some (true, m)) (sym h)
  Succeeds-init_level false false n' h = elim h [ ]
  Succeeds-init_level false true n' (cs, ch, built, create, same) =
      ap (λ (o : Option (Bool × Level X C)). o >>= finish_init p s)
        (Built-init_children p path 0 vec begun cs built)
      ∙ ap (λ o. with_strategy p o (grown p begun cs)) create
      ∙ ap (λ m. some (true, m)) (sym same)

  -- Init of a new object returns true in two cases, and only there. Where the configuration is
  -- forbidden, the object stays as new. Where it is not, the class must take the strategy, `new` must
  -- give it, and each configuration of the vector must give a child, the Init of which returns true:
  -- then the object is initialised with these children in the order of the vector, and is enabled
  -- exactly if one of them is.
  pub init_level-true :
      (forbidden allowed : Bool) (n' : Level X C)
      → (init_level p path x forbidden allowed s vec (new_level x0) ≡ some (true, n'))
        ↔ Succeeds forbidden allowed n'
  init_level-true forbidden allowed n' =
      (init_level-Succeeds forbidden allowed n', Succeeds-init_level forbidden allowed n')
