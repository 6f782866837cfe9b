-- ===== src/Level/Steps.antt =====
-- What is called on ServiceReplicas and ServiceGroup in common/, and that it keeps them sound.
use friend_serv.Base.{
  ℕ, ◌≡◌, refl, inl, inr, Bool, true, false, not, List, [], ◌∷◌, Option, none, some, if◌then◌else◌,
  get_elem?, sym, ◌∙◌, arith, subst, Option-cases, Bool-cases,
}
use friend_serv.Config.{StrategyType}
use friend_serv.Element.{Flags}
use friend_serv.Strategy.{Choice, fault, null, chosen}
use friend_serv.Strategy.Chooser.{Chooser}
use friend_serv.Level.{
  Parts, Level, Answer, answers, faults, waits, replace, any_on, close, init_level, noticed,
  finished, on_child, on_choice, on_chooser, choose, dispatch, kept,
}
use friend_serv.Level.Sound.{
  FailsOff, IsSound, Gives, Answers, if-Gives, any_on-replace, close-IsSound, init_level-IsSound,
}

replace-nil : {C : Type 0} (i : ℕ) (c' : C) (cs : List C) → cs ≡ [] → replace i c' cs ≡ []
replace-nil i c' [] e = refl
replace-nil i c' (c ∷ cs) e = cc

pub if-Answers :
    {O R : Type 0} (P : R → Type 0) (b : Bool) (x y : Answer O R)
    → (b ≡ true → Answers P x)
    → (b ≡ false → Answers P y)
    → Answers P (if b then x else y)
if-Answers P true x y l r = l refl
if-Answers P false x y l r = r refl

not-false : (b : Bool) → not b ≡ false → b ≡ true
not-false b h = ground arith

module _ {I X C : Type 0} (p : Parts I C) where
  noticed-agrees :
      (n : Level X C) (i : ℕ) (c c' : C)
      → get_elem? n.children i ≡ some c
      → n.enabled ≡ any_on p n.children
      → Gives
          (λ e. e ≡ any_on p (replace i c' n.children))
          (noticed p n c c' (replace i c' n.children))
  noticed-agrees n i c c' found h =
      let (on, was, same) = any_on-replace p i c c' n.children found in
      elim (Bool-cases (p.is_enable c')) [
        | inl e ↦ rw e (ground (arith, on e, h, was))
        | inr e ↦ elim (Bool-cases (p.is_enable c)) [
          | inl e1 ↦ rw (e, e1) (if-Gives _ n.freed none _ tt (ground (arith, h, was e1)))
          | inr e1 ↦ rw (e, e1) (h ∙ sym (same (e1 ∙ sym e)))
        ]
      ]

module _ {I X C O : Type 0} (p : Parts I C) where
  kept-IsSound :
      (n : Level X C) (i : ℕ) (ok : Bool) (out : O) (c' : C) (o : Option Bool)
      → IsSound p n
      → Gives (λ e. e ≡ any_on p (replace i c' n.children)) o
      → Answers (IsSound p) (kept p n i ok out c' o)
  kept-IsSound n i ok out c' none sound h = tt
  kept-IsSound n i ok out c' (some e) sound h = record {
    agrees = h;
    ready = sound.ready;
    bare = λ off. replace-nil i c' n.children (sound.bare off);
  }

  finished-IsSound :
      (n : Level X C) (i : ℕ) (c : C) (a : Answer O C)
      → IsSound p n
      → get_elem? n.children i ≡ some c
      → Answers (IsSound p) (finished p n i c a)
  finished-IsSound n i c faults sound found = tt
  finished-IsSound n i c waits sound found = tt
  finished-IsSound n i c (answers ok out c') sound found =
      kept-IsSound n i ok out c' _ sound (noticed-agrees p n i c c' found sound.agrees)

  pub on_child-IsSound :
      (call : C → Answer O C) (i : ℕ) (n : Level X C)
      → IsSound p n
      → Answers (IsSound p) (on_child p call i n)
  on_child-IsSound call i n sound = elim (Option-cases (get_elem? n.children i)) [
    | inl e ↦ rw e tt
    | inr (c, e) ↦ rw e (finished-IsSound n i c (call c) sound e)
  ]

  on_choice-IsSound :
      (out : O) (call : C → Answer O C) (n : Level X C) (c : Choice)
      → IsSound p n
      → Answers (IsSound p) (on_choice p out call n c)
  on_choice-IsSound out call n fault sound = tt
  on_choice-IsSound out call n null sound = sound
  on_choice-IsSound out call n (chosen i) sound = on_child-IsSound call i n sound

  on_chooser-IsSound :
      (out : O) (call : C → Answer O C) (n : Level X C) (o : Option (Chooser × Choice))
      → IsSound p n
      → n.inited ≡ true
      → Answers (IsSound p) (on_chooser p out call n o)
  on_chooser-IsSound out call n none sound on = sound
  on_chooser-IsSound out call n (some (s, c)) sound on =
      on_choice-IsSound out call (record n { strategy = some s }) c
        (record { agrees = sound.agrees; ready = on; bare = sound.bare })

  pub dispatch-IsSound :
      (ask : Flags → List ℕ → Chooser → Option (Chooser × Choice)) (out : O) (call : C → Answer O C)
      (n : Level X C)
      → IsSound p n
      → Answers (IsSound p) (dispatch p ask out call n)
  unfolding dispatch
  dispatch-IsSound ask out call n sound =
      if-Answers _ (not n.inited) _ _ (λ _. sound)
        (λ on.
          on_chooser-IsSound out call n (choose p ask n n.strategy) sound (not-false n.inited on))

module _ {I X C : Type 0} (p : Parts I C) where
  -- What is called on a level: Init, Close, a call that the strategy places, and what becomes of one
  -- child by itself, as when the timer connects a service again.
  pub data Step : Level X C → Level X C → Type 1 where
    init_step :
        (path : List ℕ) (x : X) (forbidden allowed : Bool) (s : StrategyType) (vec : List I)
        (n : Level X C) (ok : Bool) (n' : Level X C)
        → init_level p path x forbidden allowed s vec n ≡ some (ok, n')
        → Step n n'
    close_step : (n n' : Level X C) → close p n ≡ some n' → Step n n'
    call_step :
        (O : Type 0) (ask : Flags → List ℕ → Chooser → Option (Chooser × Choice)) (out : O)
        (call : C → Answer O C) (n : Level X C) (ok : Bool) (got : O) (n' : Level X C)
        → dispatch p ask out call n ≡ answers ok got n'
        → Step n n'
    child_step :
        (O : Type 0) (call : C → Answer O C) (i : ℕ) (n : Level X C) (ok : Bool) (got : O)
        (n' : Level X C)
        → on_child p call i n ≡ answers ok got n'
        → Step n n'

  pub data Course (n : Level X C) : Level X C → Type 1 where
    here : Course n n
    next : {t u : Level X C} → Course n t → Step t u → Course n u

  Step-IsSound : {s t : Level X C} → FailsOff p → Step s t → IsSound p s → IsSound p t
  Step-IsSound fails (init_step path x f a s vec n ok n' e) sound =
      subst (Gives (λ r. IsSound p r.1)) e (init_level-IsSound p fails path x f a s vec n sound)
  Step-IsSound fails (close_step n n' e) sound =
      (subst (Gives (λ m. IsSound p m × (m.inited ≡ false))) e (close-IsSound p n sound.agrees)).0
  Step-IsSound fails (call_step O ask out call n ok got n' e) sound =
      subst (Answers (IsSound p)) e (dispatch-IsSound p ask out call n sound)
  Step-IsSound fails (child_step O call i n ok got n' e) sound =
      subst (Answers (IsSound p)) e (on_child-IsSound p call i n sound)

  -- Whatever Init, Close, calls by any strategy and events of single children follow on a service
  -- group or on replicas, it is enabled exactly if one of its children is, it has a strategy exactly
  -- where it is initialised, and children only there. A child that fails its first Init must be left
  -- disabled.
  pub Course-IsSound : {n t : Level X C} → FailsOff p → Course n t → IsSound p n → IsSound p t
  Course-IsSound fails here sound = sound
  Course-IsSound fails (next steps step) sound =
      Step-IsSound fails step (Course-IsSound fails steps sound)
