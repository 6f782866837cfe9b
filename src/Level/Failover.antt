-- ===== src/Level/Failover.antt =====
-- The fixed strategy of common/strategy.cpp over the children of ServiceReplicas or ServiceGroup: which
-- child a call goes to.
use friend_serv.Base.{
  ℕ, suc, ◌+◌, ◌≡◌, refl, Bool, true, false, List, [], ◌∷◌, ◌++◌, some, length, get_elem?, sym, ◌∙◌,
  arith, ap, append_assoc, length-append,
}
use friend_serv.Element.{Flags}
use friend_serv.Strategy.{Choice, null, chosen, fixed}
use friend_serv.Strategy.Chooser.{fixed_chooser, choose_by_nothing}
use friend_serv.Level.Calls.{dispatch-chosen, finished-answers}
use friend_serv.Level.{
  Parts, Level, Answer, answers, replace, positions, any_on, flags, finished, dispatch,
}

get_elem?-middle :
    {C : Type 0} (xs : List C) (c : C) (ys : List C) → get_elem? (xs ++ c ∷ ys) (length xs) ≡ some c
get_elem?-middle [] c ys = refl
get_elem?-middle (x ∷ xs) c ys = get_elem?-middle xs c ys

replace-middle :
    {C : Type 0} (xs : List C) (c c' : C) (ys : List C)
    → replace (length xs) c' (xs ++ c ∷ ys) ≡ xs ++ c' ∷ ys
replace-middle [] c c' ys = refl
replace-middle (x ∷ xs) c c' ys = ap (◌∷◌ x) (replace-middle xs c c' ys)

module _ {I C : Type 0} (p : Parts I C) where
  -- `en` are the flags of the children from position `k` on.
  abbrev pub Shows : Flags → ℕ → List C → Type 0
  Shows en k [] = Unit
  Shows en k (c ∷ cs) = (en k ≡ p.is_enable c) × Shows en (suc k) cs

  fixed-first :
      (en : Flags) (k : ℕ) (dead : List C) (c : C) (rest : List C)
      → Shows en k (dead ++ c ∷ rest)
      → any_on p dead ≡ false
      → p.is_enable c ≡ true
      → fixed en (positions k (dead ++ c ∷ rest)) ≡ chosen (k + length dead)
  unfolding fixed
  fixed-first en k [] c rest (e, h) off on = rw (e, on) (ap chosen (omega arith))
  fixed-first en k (d ∷ dead) c rest (e, h) off on =
      let d_off : p.is_enable d ≡ false = ground (arith, off) in
      rw (e, d_off)
        (fixed-first en (suc k) dead c rest h (ground (arith, off)) on ∙ ap chosen (omega arith))

  fixed-null :
      (en : Flags) (k : ℕ) (cs : List C)
      → Shows en k cs
      → any_on p cs ≡ false
      → fixed en (positions k cs) ≡ null
  unfolding fixed
  fixed-null en k [] h off = refl
  fixed-null en k (c ∷ cs) (e, h) off =
      let c_off : p.is_enable c ≡ false = ground (arith, off) in
      rw (e, c_off) (fixed-null en (suc k) cs h (ground (arith, off)))

  pub Shows-flags :
      (all : List C) (k : ℕ) (before cs : List C)
      → all ≡ before ++ cs
      → k ≡ length before
      → Shows (flags p all) k cs
  Shows-flags all k before [] e n = tt
  Shows-flags all k before (c ∷ cs) e n = (
    rw (e, n, get_elem?-middle before c cs) refl,
    Shows-flags all (suc k) (before ++ c ∷ []) cs (e ∙ sym (append_assoc before (c ∷ []) cs))
        (omega (arith, n, length-append before (c ∷ []))),
  )

-- If the child is enabled, its call comes to an answer, and leaves it disabled if that is false.
abbrev pub Falls : {I C O : Type 0} → Parts I C → (C → Answer O C) → C → Type 0
Falls {O = O} p call c =
    p.is_enable c ≡ true
    → (ok : Bool) × (got : O) × (c' : _) × (call c ≡ answers ok got c')
      × (ok ≡ false → p.is_enable c' ≡ false)

abbrev pub EachFalls : {I C O : Type 0} → Parts I C → (C → Answer O C) → List C → Type 0
EachFalls p call [] = Unit
EachFalls p call (c ∷ cs) = Falls p call c × EachFalls p call cs

module _ {I X C O : Type 0} (p : Parts I C) (out : O) (call : C → Answer O C) where
  abbrev pub calls : Level X C → Answer O (Level X C)
  calls n = dispatch p choose_by_nothing out call n

  -- An initialised level under the fixed strategy, the children of which are these.
  pub record Holds (n : Level X C) (cs : List C) : Type 0 where
    pub on : n.inited ≡ true
    pub by : n.strategy ≡ some fixed_chooser
    pub fresh : n.freed ≡ false
    pub these : n.children ≡ cs

  calls-finished :
      (n : Level X C) (dead : List C) (c : C) (rest : List C)
      → Holds n (dead ++ c ∷ rest)
      → any_on p dead ≡ false
      → p.is_enable c ≡ true
      → calls n ≡ finished p (record n { strategy = some fixed_chooser }) (length dead) c (call c)
  calls-finished n dead c rest h off on =
      let shows = Shows-flags p n.children 0 [] (dead ++ c ∷ rest) h.these refl in
      let first : fixed (flags p n.children) (positions 0 (dead ++ c ∷ rest))
          ≡ chosen (length dead) =
        fixed-first p (flags p n.children) 0 dead c rest shows off on ∙ ap chosen (omega arith) in
      dispatch-chosen p out call choose_by_nothing n fixed_chooser fixed_chooser (length dead) c
        h.on h.by
        (ap (λ cs. some (fixed_chooser, fixed (flags p n.children) (positions 0 cs))) h.these
          ∙ ap (λ (e : Choice). some (fixed_chooser, e)) first)
        (ap (λ cs. get_elem? cs (length dead)) h.these ∙ get_elem?-middle dead c rest)

  Holds-put :
      (n : Level X C) (dead : List C) (c c' : C) (rest : List C) (e : Bool)
      → Holds n (dead ++ c ∷ rest)
      → Holds
          (record n {
            strategy = some fixed_chooser;
            children = replace (length dead) c' n.children;
            enabled = e;
          })
          (dead ++ c' ∷ rest)
  Holds-put n dead c c' rest e h = record {
    on = h.on;
    by = refl;
    fresh = h.fresh;
    these = ap (replace (length dead) c') h.these ∙ replace-middle dead c c' rest;
  }

  -- A call when the first enabled child answers `ok`.
  pub call_first :
      (n : Level X C) (dead : List C) (c : C) (rest : List C) (ok : Bool) (got : O) (c' : C)
      → Holds n (dead ++ c ∷ rest)
      → any_on p dead ≡ false
      → p.is_enable c ≡ true
      → call c ≡ answers ok got c'
      → (n' : Level X C) × (calls n ≡ answers ok got n') × Holds n' (dead ++ c' ∷ rest)
  call_first n dead c rest ok got c' h off on e =
      let (en, same) =
        finished-answers p (record n { strategy = some fixed_chooser }) (length dead) c (call c) ok
          got c' h.fresh e in
      (_, calls-finished n dead c rest h off on ∙ same, Holds-put n dead c c' rest en h)
