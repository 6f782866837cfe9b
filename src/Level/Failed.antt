-- ===== src/Level/Failed.antt =====
-- Init of ServiceReplicas and ServiceGroup in common/ where it returns false.
use friend_serv.Base.{
  ℕ, suc, ◌≡◌, refl, inl, inr, Bool, true, false, not, List, [], ◌∷◌, Option, none, some, ◌∙◌,
  subst, ap, Option-cases,
}
use friend_serv.Config.{StrategyType}
use friend_serv.Strategy.Chooser.{create_strategy}
use friend_serv.Level.{
  Parts, Level, any_on, close, closed, pushed, raised, init_children, finish_init, init_level,
  new_level, clear_children, cleared,
}
use friend_serv.Level.Sound.{FailsOff, IsSound, Gives, if-Gives, bind-Gives, init_level-IsSound}

pub any-Gives : {A : Type 0} (o : Option A) → Gives (λ _. Unit {0}) o
any-Gives none = tt
any-Gives (some a) = tt

module _ {I X C : Type 0} (p : Parts I C) where
  abbrev Idle : Bool × Level X C → Type 0
  Idle r = r.0 ≡ false → r.1.inited ≡ false

  closed-Idle : (ok : Bool) (n : Level X C) → Gives Idle (closed p ok n)
  unfolding close
  closed-Idle ok n =
      bind-Gives Idle (λ m. m.inited ≡ false) (close p n) _
        (bind-Gives _ (λ _. Unit {0}) (clear_children p n.freed n.enabled n.children) (cleared n)
          (any-Gives _) (λ _ _. refl))
        (λ m off _. off)

  init_children-Idle :
      (path : List ℕ) (k : ℕ) (is : List I) (n : Level X C)
      → Gives Idle (init_children p path k is n)
  unfolding init_children
  init_children-Idle path k [] n = λ e. cc
  init_children-Idle path k (i ∷ is) n = elim (Option-cases (p.create (k ∷ path) i)) [
    | inl e ↦ rw (init_children, e) (closed-Idle false n)
    | inr (c, e) ↦ elim (Option-cases (p.init_child (k ∷ path) i c)) [
      | inl e' ↦ rw (init_children, e, e') tt
      | inr ((true, c'), e') ↦
          rw (init_children, e, e') (init_children-Idle path (suc k) is (pushed p c' n))
      | inr ((false, c'), e') ↦ rw (init_children, e, e') (closed-Idle false (raised p c' n))
    ]
  ]

  finish_init-Idle :
      (s : StrategyType) (r : Bool × Level X C) → Idle r → Gives Idle (finish_init p s r)
  finish_init-Idle s (false, n) h = h
  finish_init-Idle s (true, n) h = elim (Option-cases (create_strategy p.memory s)) [
    | inl e ↦ rw e (closed-Idle false n)
    | inr (ch, e) ↦ rw e (λ e'. cc)
  ]

  init_level-Idle :
      (path : List ℕ) (x0 x : X) (forbidden allowed : Bool) (s : StrategyType) (vec : List I)
      → Gives Idle (init_level p path x forbidden allowed s vec (new_level x0))
  unfolding init_level
  init_level-Idle path x0 x forbidden allowed s vec =
      let n1 = record (new_level x0) { info = x } in
      if-Gives Idle forbidden _ _ (closed-Idle true n1) (
        if-Gives Idle (not allowed) _ _ (λ _. refl)
          (bind-Gives Idle Idle (init_children p path 0 vec n1) _ (init_children-Idle path 0 vec n1)
            (finish_init-Idle s)))

  pub new_level-IsSound : (x0 : X) → IsSound p (new_level x0)
  new_level-IsSound x0 = record { agrees = refl; ready = refl; bare = λ _. refl }

  -- A new object whose Init returns false is left disabled.
  pub init_level-off :
      (path : List ℕ) (x0 x : X) (forbidden allowed : Bool) (s : StrategyType) (vec : List I)
      (n' : Level X C)
      → FailsOff p
      → init_level p path x forbidden allowed s vec (new_level x0) ≡ some (false, n')
      → n'.enabled ≡ false
  init_level-off path x0 x forbidden allowed s vec n' fails e =
      let idle = subst (Gives Idle) e (init_level-Idle path x0 x forbidden allowed s vec) refl in
      let sound = subst (Gives (λ r. IsSound p r.1)) e (
        init_level-IsSound p fails path x forbidden allowed s vec (new_level x0)
          (new_level-IsSound x0)) in
      sound.agrees ∙ ap (any_on p) (sound.bare idle)
