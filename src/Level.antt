-- ===== src/Level.antt =====
-- What ServiceReplicas of common/service_replicas.cpp and ServiceGroup of common/service_group.cpp do
-- alike: an element that makes its children, owns them, and hands a call to the one that its strategy
-- chooses. Replicas and Group are the two classes.
-- An operation is none, or `faults`, where C++ leaves the behaviour undefined: an element is read that
-- was deleted, or a strategy leaves its vector.
pub mod Sound
pub mod Steps
pub mod Teardown
pub mod Calls
pub mod Failover
pub mod Recovery
pub mod Reaches
pub mod Fits
pub mod Setup
pub mod Failed
use friend_serv.Base.{
  ℕ, zero, suc, Bool, true, false, ◌||◌, ◌&&◌, not, List, [], ◌∷◌, ◌++◌, Option, none, some, ◌>>=◌,
  if◌then◌else◌, get_elem?,
}
use friend_serv.Config.{StrategyType}
use friend_serv.Element.{Flags}
use friend_serv.Strategy.{Choice, fault, null, chosen}
use friend_serv.Strategy.Chooser.{Chooser, create_strategy}

-- What the class needs of its children: `new` and Init, by the place of the child in the whole group
-- and its configuration; IsEnable; and whether the destructor ends without a fault. `memory` is
-- whether `new` gives a strategy.
pub record Parts (I C : Type 0) : Type 0 where
  pub create : (path : List ℕ) → I → Option C
  pub init_child : (path : List ℕ) → I → C → Option (Bool × C)
  pub is_enable : C → Bool
  pub destroy : C → Bool
  pub memory : Bool

-- `children` is m_services or m_replicases, which m_children repeats; `freed` says that m_children
-- starts with elements that Close deleted, `enabled` is m_enable.
pub record Level (X C : Type 0) : Type 0 where
  pub inited : Bool
  pub info : X
  pub strategy : Option Chooser
  pub children : List C
  pub enabled : Bool
  pub freed : Bool

-- What a call ends in: a result and what it wrote, a fault, or the wait for a kernel that is silent.
pub data Answer (O R : Type 0) : Type 0 where
  answers : Bool → O → R → Answer O R
  faults waits : Answer O R

abbrev pub new_level : {X C : Type 0} → X → Level X C
new_level x = record {
  inited = false;
  info = x;
  strategy = none;
  children = [];
  enabled = false;
  freed = false;
}

abbrev pub has_any : {C : Type 0} → List C → Bool
has_any [] = false
has_any (c ∷ cs) = true

abbrev pub replace : {C : Type 0} → ℕ → C → List C → List C
replace n d [] = []
replace zero d (c ∷ cs) = d ∷ cs
replace (suc n) d (c ∷ cs) = c ∷ replace n d cs

-- The positions of a vector, counted from `n`.
abbrev pub positions : {C : Type 0} → ℕ → List C → List ℕ
positions n [] = []
positions n (c ∷ cs) = n ∷ positions (suc n) cs

-- What Close leaves behind the destructors, by the m_enable that they give.
abbrev pub cleared : {X C : Type 0} → Level X C → Bool → Option (Level X C)
cleared n enabled = some (record n {
  inited = false;
  strategy = none;
  children = [];
  enabled = enabled;
  freed = n.freed || has_any n.children;
})

module _ {I C : Type 0} (p : Parts I C) where
  abbrev pub any_on : List C → Bool
  any_on [] = false
  any_on (c ∷ cs) = p.is_enable c || any_on cs

  abbrev pub on_at : Option C → Bool
  on_at none = false
  on_at (some c) = p.is_enable c

  abbrev pub flags : List C → Flags
  flags cs i = on_at (get_elem? cs i)

  -- ClearServices, ClearReplicases: the destructor of an enabled child disables it, and AfterDisable
  -- reads m_children from its start. It gives m_enable.
  unfoldable pub clear_children : (freed enabled : Bool) → List C → Option Bool
  clear_children freed enabled [] = some enabled
  clear_children freed enabled (c ∷ cs) =
      let enabled' = if p.is_enable c then enabled && any_on cs else enabled in
      let rest = clear_children true enabled' cs in
      if not (p.destroy c) || (p.is_enable c && freed) then none else rest

module _ {I X C : Type 0} (p : Parts I C) where
  unfoldable pub close : Level X C → Option (Level X C)
  close n = clear_children p n.freed n.enabled n.children >>= cleared n

  abbrev pub closed : Bool → Level X C → Option (Bool × Level X C)
  closed ok n = close n >>= (λ n'. some (ok, n'))

  -- AddChild and Init of a child made: AfterEnable where it is enabled then.
  abbrev pub raised : C → Level X C → Level X C
  raised c n = record n { enabled = n.enabled || p.is_enable c }

  abbrev pub pushed : C → Level X C → Level X C
  pushed c n = record (raised c n) { children = n.children ++ c ∷ [] }

  -- The loop of Init over the configurations left; `k` children are made.
  unfoldable pub init_children :
      (path : List ℕ) → (k : ℕ) → List I → Level X C → Option (Bool × Level X C)
  init_children path k [] n = some (true, n)
  init_children path k (i ∷ is) n = elim (p.create (k ∷ path) i) [
    | none ↦ closed false n
    | some c ↦ p.init_child (k ∷ path) i c >>= (λ (ok, c').
        let rest = init_children path (suc k) is (pushed c' n) in
        if ok then rest else closed false (raised c' n))
  ]

  abbrev pub with_strategy : Option Chooser → Level X C → Option (Bool × Level X C)
  with_strategy none n = closed false n
  with_strategy (some s) n = some (true, record n { strategy = some s; inited = true })

  abbrev pub finish_init : StrategyType → Bool × Level X C → Option (Bool × Level X C)
  finish_init s (ok, n) =
      if ok then with_strategy (create_strategy p.memory s) n else some (false, n)

  -- Init, with the tests that the class makes of the configuration.
  unfoldable pub init_level :
      (path : List ℕ)
      → X
      → (forbidden : Bool) → (allowed : Bool) → StrategyType
      → List I
      → Level X C
      → Option (Bool × Level X C)
  init_level path x forbidden allowed s vec n =
      let n1 = record n { info = x } in
      if n.inited
      then some (false, n)
      else if forbidden
      then closed true n1
      else if not allowed
      then some (false, n1)
      else init_children path 0 vec n1 >>= finish_init s

  -- m_enable behind an operation that made `c'` of the child `c`; `cs` are the children with `c'`.
  abbrev pub noticed : Level X C → C → C → List C → Option Bool
  noticed n c c' cs =
      if p.is_enable c'
      then some (if p.is_enable c then n.enabled else true)
      else if p.is_enable c
      then if n.freed then none else some (n.enabled && any_on p cs)
      else some n.enabled

  abbrev pub choose :
      (Flags → List ℕ → Chooser → Option (Chooser × Choice))
      → Level X C
      → Option Chooser
      → Option (Chooser × Choice)
  choose ask n none = none
  choose ask n (some s) = ask (flags p n.children) (positions 0 n.children) s

module _ {I X C O : Type 0} (p : Parts I C) where
  abbrev pub kept : Level X C → ℕ → Bool → O → C → Option Bool → Answer O (Level X C)
  kept n i ok out c' none = faults
  kept n i ok out c' (some enabled) =
      answers ok out (record n { children = replace i c' n.children; enabled = enabled })

  abbrev pub finished : Level X C → ℕ → C → Answer O C → Answer O (Level X C)
  finished n i c faults = faults
  finished n i c waits = waits
  finished n i c (answers ok out c') =
      kept n i ok out c' (noticed p n c c' (replace i c' n.children))

  abbrev pub at_child : (C → Answer O C) → Level X C → ℕ → Option C → Answer O (Level X C)
  at_child call n i none = faults
  at_child call n i (some c) = finished n i c (call c)

  -- An operation of the child at a position, called from outside or by the strategy's choice.
  abbrev pub on_child : (C → Answer O C) → ℕ → Level X C → Answer O (Level X C)
  on_child call i n = at_child call n i (get_elem? n.children i)

  abbrev pub on_choice : O → (C → Answer O C) → Level X C → Choice → Answer O (Level X C)
  on_choice out call n fault = faults
  on_choice out call n null = answers false out n
  on_choice out call n (chosen i) = on_child call i n

  abbrev pub on_chooser :
      O → (C → Answer O C) → Level X C → Option (Chooser × Choice) → Answer O (Level X C)
  on_chooser out call n none = answers false out n
  on_chooser out call n (some (s, c)) = on_choice out call (record n { strategy = some s }) c

  -- Send and SendAndRecv: `ask` casts the strategy and asks it, `call` is what the child is asked for,
  -- `out` the answer where none is called.
  unfoldable pub dispatch :
      (Flags → List ℕ → Chooser → Option (Chooser × Choice))
      → O
      → (C → Answer O C)
      → Level X C
      → Answer O (Level X C)
  dispatch ask out call n =
      if not n.inited
      then answers false out n
      else on_chooser out call n (choose p ask n n.strategy)
