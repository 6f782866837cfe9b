-- ===== src/Level/Sound.antt =====
-- What stays true of ServiceReplicas and ServiceGroup in common/, whatever is called on them.
use friend_serv.Base.{
  ℕ, zero, suc, ◌≡◌, refl, inl, inr, Bool, true, false, ◌||◌, ◌&&◌, not, List, [], ◌∷◌, ◌++◌,
  Option, none, some, ◌>>=◌, if◌then◌else◌, get_elem?, sym, ◌∙◌, arith, ap, Option-cases,
}
use friend_serv.Config.{StrategyType}
use friend_serv.Strategy.Chooser.{Chooser, create_strategy}
use friend_serv.Level.{
  Parts, Level, Answer, answers, faults, waits, replace, any_on, clear_children, close, closed,
  pushed, raised, init_children, with_strategy, finish_init, init_level,
}

abbrev pub has_strategy : Option Chooser → Bool
has_strategy none = false
has_strategy (some s) = true

-- A child whose first Init returns false is left disabled.
abbrev pub FailsOff : {I C : Type 0} → Parts I C → Type 0
FailsOff {I} {C} p =
    (path : List ℕ) (i : I) (c c' : C)
    → p.create path i ≡ some c
    → p.init_child path i c ≡ some (false, c')
    → p.is_enable c' ≡ false

-- A level is enabled exactly if one of its children is; it holds a strategy exactly where it is
-- initialised, and children only then.
pub record IsSound {I X C : Type 0} (p : Parts I C) (n : Level X C) : Type 0 where
  pub agrees : n.enabled ≡ any_on p n.children
  pub ready : n.inited ≡ has_strategy n.strategy
  pub bare : n.inited ≡ false → n.children ≡ []

-- A predicate on what an operation gives, if it gives anything.
abbrev pub Gives : {R : Type 0} → (R → Type 0) → Option R → Type 0
Gives P none = Unit
Gives P (some r) = P r

abbrev pub Answers : {O R : Type 0} → (R → Type 0) → Answer O R → Type 0
Answers P faults = Unit
Answers P waits = Unit
Answers P (answers ok out r) = P r

pub bind-Gives :
    {A B : Type 0} (P : B → Type 0) (Q : A → Type 0) (o : Option A) (f : A → Option B)
    → Gives Q o
    → ((a : A) → Q a → Gives P (f a))
    → Gives P (o >>= f)
bind-Gives P Q none f q h = tt
bind-Gives P Q (some a) f q h = h a q

pub if-Gives :
    {R : Type 0} (P : R → Type 0) (b : Bool) (x y : Option R)
    → Gives P x
    → Gives P y
    → Gives P (if b then x else y)
if-Gives P true x y l r = l
if-Gives P false x y l r = r

module _ {I C : Type 0} (p : Parts I C) where
  pub any_on-append :
      (cs : List C) (c : C) → any_on p (cs ++ c ∷ []) ≡ (any_on p cs || p.is_enable c)
  any_on-append [] c = ground arith
  any_on-append (d ∷ cs) c = ground (arith, any_on-append cs c)

  pub any_on-replace :
      (i : ℕ) (c c' : C) (cs : List C)
      → get_elem? cs i ≡ some c
      → (p.is_enable c' ≡ true → any_on p (replace i c' cs) ≡ true)
        × (p.is_enable c ≡ true → any_on p cs ≡ true)
        × (p.is_enable c ≡ p.is_enable c' → any_on p (replace i c' cs) ≡ any_on p cs)
  any_on-replace i c c' [] h = cc
  any_on-replace zero c c' (d ∷ cs) h = ground (arith, h)
  any_on-replace (suc i) c c' (d ∷ cs) h =
      let (f, g, k) = any_on-replace i c c' cs h in ground (arith, f, g, k)

  clear_children-off :
      (freed enabled : Bool) (cs : List C)
      → enabled ≡ any_on p cs
      → Gives (λ e. e ≡ false) (clear_children p freed enabled cs)
  unfolding clear_children
  clear_children-off freed enabled [] h = h
  clear_children-off freed enabled (c ∷ cs) h =
      let enabled' = if p.is_enable c then enabled && any_on p cs else enabled in
      if-Gives (λ e. e ≡ false) (not (p.destroy c) || (p.is_enable c && freed)) none _ tt
        (clear_children-off true enabled' cs (ground (arith, h)))

module _ {I X C : Type 0} (p : Parts I C) where
  pub close-IsSound :
      (n : Level X C)
      → n.enabled ≡ any_on p n.children
      → Gives (λ n'. IsSound p n' × (n'.inited ≡ false)) (close p n)
  unfolding close
  close-IsSound n h =
      bind-Gives _ (λ e. e ≡ false) (clear_children p n.freed n.enabled n.children) _
        (clear_children-off p n.freed n.enabled n.children h)
        (λ e off. (record { agrees = off; ready = refl; bare = λ _. refl }, refl))

  -- A result, and what holds of the level where it is true and where it is false.
  abbrev Ends : (Level X C → Type 0) → (Level X C → Type 0) → Bool × Level X C → Type 0
  Ends P Q (true, n) = P n
  Ends P Q (false, n) = Q n

  closed-IsSound :
      (ok : Bool) (n : Level X C)
      → n.enabled ≡ any_on p n.children
      → Gives (λ r. IsSound p r.1) (closed p ok n)
  closed-IsSound ok n h = bind-Gives _ _ (close p n) _ (close-IsSound n h) (λ n' s. s.0)

  module _ (fails : FailsOff p) where
    Made : Bool × Level X C → Type 0
    Made (true, n) = n.enabled ≡ any_on p n.children
    Made (false, n) = IsSound p n

    failed-Made : (n : Level X C) → n.enabled ≡ any_on p n.children → Gives Made (closed p false n)
    unfolding Made
    failed-Made n h = bind-Gives _ _ (close p n) _ (close-IsSound n h) (λ n' s. s.0)

    init_children-Made :
        (path : List ℕ) (k : ℕ) (is : List I) (n : Level X C)
        → n.enabled ≡ any_on p n.children
        → Gives Made (init_children p path k is n)
    unfolding init_children Made
    init_children-Made path k [] n h = h
    init_children-Made path k (i ∷ is) n h = elim (Option-cases (p.create (k ∷ path) i)) [
      | inl e ↦ rw (init_children, e) (failed-Made n h)
      | inr (c, e) ↦ elim (Option-cases (p.init_child (k ∷ path) i c)) [
        | inl e' ↦ rw (init_children, e, e') tt
        | inr ((true, c'), e') ↦
            rw (init_children, e, e')
              (init_children-Made path (suc k) is (pushed p c' n)
                (ap (λ b. b || p.is_enable c') h ∙ sym (any_on-append p n.children c')))
        | inr ((false, c'), e') ↦
            let off = fails (k ∷ path) i c c' e e' in
            rw (init_children, e, e') (failed-Made (raised p c' n) (ground (arith, off, h)))
      ]
    ]

    with_strategy-IsSound :
        (s : Option Chooser) (n : Level X C)
        → n.enabled ≡ any_on p n.children
        → Gives (λ r. IsSound p r.1) (with_strategy p s n)
    with_strategy-IsSound none n h = closed-IsSound false n h
    with_strategy-IsSound (some s) n h = record { agrees = h; ready = refl; bare = λ e. cc }

    finish_init-IsSound :
        (s : StrategyType) (r : Bool × Level X C)
        → Made r
        → Gives (λ r. IsSound p r.1) (finish_init p s r)
    unfolding Made
    finish_init-IsSound s (true, n) h = with_strategy-IsSound (create_strategy p.memory s) n h
    finish_init-IsSound s (false, n) h = h

    pub init_level-IsSound :
        (path : List ℕ) (x : X) (forbidden allowed : Bool) (s : StrategyType) (vec : List I)
        (n : Level X C)
        → IsSound p n
        → Gives (λ r. IsSound p r.1) (init_level p path x forbidden allowed s vec n)
    unfolding init_level
    init_level-IsSound path x forbidden allowed s vec n sound =
        let n1 = record n { info = x } in
        let sound1 : IsSound p n1 = record {
          agrees = sound.agrees;
          ready = sound.ready;
          bare = sound.bare;
        } in
        if-Gives _ n.inited _ _ sound (
          if-Gives _ forbidden _ _ (closed-IsSound true n1 sound.agrees) (
            if-Gives _ (not allowed) _ _ sound1 (
              bind-Gives _ Made (init_children p path 0 vec n1) _
                (init_children-Made path 0 vec n1 sound.agrees) (finish_init-IsSound s))))
