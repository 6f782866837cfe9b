-- ===== src/Level/Recovery.antt =====
-- What calls one after the other come to, under the fixed strategy of common/strategy.cpp over the
-- children of ServiceReplicas or ServiceGroup.
use friend_serv.Base.{
  ℕ, zero, suc, ◌<◌, ◌≡◌, refl, ◌⊎◌, inl, inr, true, false, List, [], ◌∷◌, ◌++◌, length, sym, ◌∙◌,
  arith, subst, ap, Bool-cases, append_assoc,
}
use friend_serv.Level.Sound.{any_on-append}
use friend_serv.Level.{Parts, Level, Answer, answers, faults, waits, any_on}
use friend_serv.Level.Failover.{EachFalls, Holds, calls, call_first}

-- Calls one after the other until one returns true, at most so many.
abbrev pub retry : {O R : Type 0} → ℕ → (R → Answer O R) → O → R → Answer O R
retry zero op out n = answers false out n
retry (suc k) op out n = elim (op n) [
  | faults ↦ faults
  | waits ↦ waits
  | answers true got n' ↦ answers true got n'
  | answers false got n' ↦ retry k op out n'
]

module _ {I C O : Type 0} (p : Parts I C) (call : C → Answer O C) where
  -- A child that is disabled behind the calls: as before, where it was disabled already, and else as its
  -- call left it, which answered false.
  abbrev pub TurnedOff : C → C → Type 0
  TurnedOff c d =
      (p.is_enable d ≡ false)
      × (((p.is_enable c ≡ false) × (d ≡ c))
          ⊎ ((p.is_enable c ≡ true) × (got : O) × (call c ≡ answers false got d)))

  abbrev pub EachOff : List C → List C → Type 0
  EachOff [] [] = Unit
  EachOff [] (d ∷ ds) = ⊥
  EachOff (c ∷ cs) [] = ⊥
  EachOff (c ∷ cs) (d ∷ ds) = TurnedOff c d × EachOff cs ds

module _ {I X C O : Type 0} (p : Parts I C) (out : O) (call : C → Answer O C) where
  -- What calls one after the other left of the children `cs`, behind others: those before the one that
  -- answered true are disabled, that one is as its call left it, and those behind it are as before.
  pub record Recovered (before cs : List C) (end : O) (n : Level X C) : Type 0 where
    pub failed : List C
    pub gone : List C
    pub used : C
    pub used' : C
    pub left : List C
    pub all : cs ≡ failed ++ used ∷ left
    pub off : EachOff p call failed gone
    pub was_on : p.is_enable used ≡ true
    pub answer : call used ≡ answers true end used'
    pub now : n.children ≡ before ++ (gone ++ used' ∷ left)

  -- One child more that was tried, or skipped.
  Recovered-past :
      (dead : List C) (c c' : C) (cs : List C) (end : O) (n : Level X C)
      → TurnedOff p call c c'
      → Recovered (dead ++ c' ∷ []) cs end n
      → Recovered dead (c ∷ cs) end n
  Recovered-past dead c c' cs end n turned r = record {
    failed = c ∷ r.failed;
    gone = c' ∷ r.gone;
    used = r.used;
    used' = r.used';
    left = r.left;
    all = ap (◌∷◌ c) r.all;
    off = (turned, r.off);
    was_on = r.was_on;
    answer = r.answer;
    now = r.now ∙ append_assoc dead (c' ∷ []) (r.gone ++ r.used' ∷ r.left);
  }

  Recovered-here :
      (n' : Level X C) (dead : List C) (c c' : C) (rest : List C) (end : O)
      → p.is_enable c ≡ true
      → call c ≡ answers true end c'
      → n'.children ≡ dead ++ c' ∷ rest
      → Recovered dead (c ∷ rest) end n'
  Recovered-here n' dead c c' rest end on e these = record {
    failed = [];
    gone = [];
    used = c;
    used' = c';
    left = rest;
    all = refl;
    off = tt;
    was_on = on;
    answer = e;
    now = these;
  }

  -- Calls one after the other under the fixed strategy come to true, in as many rounds as there are
  -- children up to the first good one: one that is enabled and answers true. Each child before it must
  -- answer, and be disabled by an answer that is false.
  pub retry_recovers :
      (rounds : ℕ) (n : Level X C) (dead pre : List C) (good : C) (rest : List C) (got : O)
      (good' : C)
      → Holds p out call n (dead ++ (pre ++ good ∷ rest))
      → any_on p dead ≡ false
      → EachFalls p call pre
      → p.is_enable good ≡ true
      → call good ≡ answers true got good'
      → length pre < rounds
      → (end : O) × (n' : Level X C) × (retry rounds (calls p out call) out n ≡ answers true end n')
        × Recovered dead (pre ++ good ∷ rest) end n'
  retry_recovers zero n dead pre good rest got good' h off falls on e r = absurd (omega arith)
  retry_recovers (suc k) n dead [] good rest got good' h off falls on e r =
      let (n', same, h') = call_first p out call n dead good rest true got good' h off on e in
      (got, n', rw (retry, same) refl, Recovered-here n' dead good good' rest got on e h'.these)
  retry_recovers (suc k) n dead (c ∷ pre) good rest got good' h off (fall, falls) on e r =
      elim (Bool-cases (p.is_enable c)) [
        | inl c_on ↦
            let (ok, got1, c', e1, falls_off) = fall c_on in
            let (n1, same, h1) =
              call_first p out call n dead c (pre ++ good ∷ rest) ok got1 c' h off c_on e1 in
            elim (Bool-cases ok) [
              | inl yes_ok ↦ (
                got1,
                n1,
                rw (retry, same, yes_ok) refl,
                Recovered-here n1 dead c c' (pre ++ good ∷ rest) got1 c_on
                    (e1 ∙ ap (λ b. answers b got1 c') yes_ok) h1.these,
              )
              | inr not_ok ↦
                  let (end, n', all, past) =
                    retry_recovers k n1 (dead ++ c' ∷ []) pre good rest got good'
                      (subst (Holds p out call n1)
                        (sym (append_assoc dead (c' ∷ []) (pre ++ good ∷ rest))) h1)
                      (any_on-append p dead c' ∙ ground (arith, off, falls_off not_ok)) falls on e
                      (omega arith) in
                  (
                    end,
                    n',
                    rw (retry, same, not_ok) all,
                    Recovered-past dead c c' (pre ++ good ∷ rest) end n'
                        (
                          falls_off not_ok,
                          inr (c_on, got1, e1 ∙ ap (λ b. answers b got1 c') not_ok),
                        )
                        past,
                  )
            ]
        | inr c_off ↦
            let (end, n', all, past) =
              retry_recovers (suc k) n (dead ++ c ∷ []) pre good rest got good'
                (subst (Holds p out call n) (sym (append_assoc dead (c ∷ []) (pre ++ good ∷ rest)))
                  h)
                (any_on-append p dead c ∙ ground (arith, off, c_off)) falls on e (omega arith) in
            (
              end,
              n',
              all,
              Recovered-past dead c c (pre ++ good ∷ rest) end n' (c_off, inl (c_off, refl)) past,
            )
      ]
