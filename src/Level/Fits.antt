-- ===== src/Level/Fits.antt =====
-- What calls on ServiceReplicas or ServiceGroup in common/ keep of the children and the strategy.
use friend_serv.Base.{
  ℕ, zero, suc, ◌≡◌, inl, inr, Bool, false, not, List, [], ◌∷◌, Option, none, some, get_elem?,
  subst, Option-cases,
}
use friend_serv.Element.{Flags}
use friend_serv.Strategy.{Choice, fault, null, chosen}
use friend_serv.Strategy.Chooser.{Chooser}
use friend_serv.Level.{
  Parts, Level, Answer, answers, faults, waits, replace, positions, flags, finished, on_child,
  on_choice, on_chooser, choose, dispatch, kept, noticed,
}
use friend_serv.Level.Sound.{Answers}
use friend_serv.Level.Steps.{if-Answers}

abbrev pub Each : {C : Type 0} → (C → Type 0) → List C → Type 0
Each Q [] = Unit
Each Q (c ∷ cs) = Q c × Each Q cs

abbrev pub By : (Chooser → Type 0) → Option Chooser → Type 0
By T none = Unit
By T (some s) = T s

-- The children satisfy `Q` and the strategy `T`, and the level was not closed.
pub record Fits {X C : Type 0} (Q : C → Type 0) (T : Chooser → Type 0) (n : Level X C)
    : Type 0 where
  pub kids : Each Q n.children
  pub by : By T n.strategy
  pub fresh : n.freed ≡ false

pub Each-found :
    {C : Type 0} (Q : C → Type 0) (cs : List C) (i : ℕ) (c : C)
    → Each Q cs
    → get_elem? cs i ≡ some c
    → Q c
Each-found Q [] i c h e = cc
Each-found Q (d ∷ cs) zero c (q, h) e = let same : d ≡ c = cc in subst Q same q
Each-found Q (d ∷ cs) (suc i) c (q, h) e = Each-found Q cs i c h e

Each-replace :
    {C : Type 0} (Q : C → Type 0) (cs : List C) (i : ℕ) (c : C)
    → Each Q cs
    → Q c
    → Each Q (replace i c cs)
Each-replace Q [] i c h q = tt
Each-replace Q (d ∷ cs) zero c (_, h) q = (q, h)
Each-replace Q (d ∷ cs) (suc i) c (q', h) q = (q', Each-replace Q cs i c h q)

abbrev pub chosen_by : Option (Chooser × Choice) → Option Chooser
chosen_by none = none
chosen_by (some (s, c)) = some s

-- The class asks its strategy in a way that keeps `T`.
abbrev pub AskKeeps :
    (Chooser → Type 0) → (Flags → List ℕ → Chooser → Option (Chooser × Choice)) → Type 0
AskKeeps T ask = (en : Flags) (els : List ℕ) (s : Chooser) → T s → By T (chosen_by (ask en els s))

module _ {I X C O : Type 0} (p : Parts I C) (Q : C → Type 0) (T : Chooser → Type 0) where
  kept-Fits :
      (n : Level X C) (i : ℕ) (ok : Bool) (out : O) (c' : C) (o : Option Bool)
      → Fits Q T n
      → Q c'
      → Answers (Fits Q T) (kept p n i ok out c' o)
  kept-Fits n i ok out c' none h q = tt
  kept-Fits n i ok out c' (some e) h q = record {
    kids = Each-replace Q n.children i c' h.kids q;
    by = h.by;
    fresh = h.fresh;
  }

  finished-Fits :
      (n : Level X C) (i : ℕ) (c : C) (a : Answer O C)
      → Fits Q T n
      → Answers Q a
      → Answers (Fits Q T) (finished p n i c a)
  finished-Fits n i c faults h q = tt
  finished-Fits n i c waits h q = tt
  finished-Fits n i c (answers ok out c') h q =
      kept-Fits n i ok out c' (noticed p n c c' (replace i c' n.children)) h q

  module _ (call : C → Answer O C) (keeps : (c : C) → Q c → Answers Q (call c)) where
    pub on_child-Fits :
        (i : ℕ) (n : Level X C) → Fits Q T n → Answers (Fits Q T) (on_child p call i n)
    on_child-Fits i n h = elim (Option-cases (get_elem? n.children i)) [
      | inl e ↦ rw e tt
      | inr (c, e) ↦
          rw e (finished-Fits n i c (call c) h (keeps c (Each-found Q n.children i c h.kids e)))
    ]

    on_choice-Fits :
        (out : O) (n : Level X C) (c : Choice)
        → Fits Q T n
        → Answers (Fits Q T) (on_choice p out call n c)
    on_choice-Fits out n fault h = tt
    on_choice-Fits out n null h = h
    on_choice-Fits out n (chosen i) h = on_child-Fits i n h

    on_chooser-Fits :
        (out : O) (n : Level X C) (o : Option (Chooser × Choice))
        → Fits Q T n
        → By T (chosen_by o)
        → Answers (Fits Q T) (on_chooser p out call n o)
    on_chooser-Fits out n none h t = h
    on_chooser-Fits out n (some (s, c)) h t =
        on_choice-Fits out (record n { strategy = some s }) c
          (record { kids = h.kids; by = t; fresh = h.fresh })

    choose-By :
        (ask : Flags → List ℕ → Chooser → Option (Chooser × Choice)) (n : Level X C)
        (o : Option Chooser)
        → AskKeeps T ask
        → By T o
        → By T (chosen_by (choose p ask n o))
    choose-By ask n none k t = tt
    choose-By ask n (some s) k t = k (flags p n.children) (positions 0 n.children) s t

    pub dispatch-Fits :
        (ask : Flags → List ℕ → Chooser → Option (Chooser × Choice)) (out : O) (n : Level X C)
        → AskKeeps T ask
        → Fits Q T n
        → Answers (Fits Q T) (dispatch p ask out call n)
    unfolding dispatch
    dispatch-Fits ask out n k h =
        if-Answers (Fits Q T) (not n.inited) _ _ (λ _. h)
          (λ _.
            on_chooser-Fits out n (choose p ask n n.strategy) h (choose-By ask n n.strategy k h.by))
