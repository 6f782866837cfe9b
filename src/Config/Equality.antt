-- ===== src/Config/Equality.antt =====
-- The comparisons of configurations decide equality.
use friend_serv.Base.{
  ℕ, ◌≡◌, refl, ◌↔◌, Bool, true, false, ◌||◌, not, List, [], ◌∷◌, ◌==◌, if◌then◌else◌, length,
  arith, sym, subst, ap, ap₂, ◌∙◌, Bool-cases, inl, inr, ==_iff, ==_self,
}
use friend_serv.Config.{
  StrategyType, strategy_min, strategy_fixed, strategy_roll, stratety_int_region,
  stratety_string_region, strategy_max, GroupInfo, code, same_bytes, same_bool, same_elements,
  host_eq, replicas_eq, group_eq,
}

abbrev Decides {ℓ} : {A : Type ℓ} → (A → A → Bool) → Type ℓ
Decides {A = A} eq = (a b : A) → (eq a b ≡ true) ↔ (a ≡ b)

decode : ℕ → StrategyType
decode n =
    if n == 0
    then strategy_min
    else if n == 1
    then strategy_fixed
    else if n == 2
    then strategy_roll
    else if n == 3
    then stratety_int_region
    else if n == 4
    then stratety_string_region
    else strategy_max

decode-code : (s : StrategyType) → decode (code s) ≡ s
unfolding decode
decode-code strategy_min = refl
decode-code strategy_fixed = refl
decode-code strategy_roll = refl
decode-code stratety_int_region = refl
decode-code stratety_string_region = refl
decode-code strategy_max = refl

code_injective : (s t : StrategyType) → code s ≡ code t → s ≡ t
code_injective s t e = cc (ap decode e, decode-code s, decode-code t)

same_bytes-eq : (xs ys : List ℕ) → same_bytes xs ys ≡ true → xs ≡ ys
unfolding same_bytes
same_bytes-eq [] [] h = refl
same_bytes-eq [] (y ∷ ys) h = cc
same_bytes-eq (x ∷ xs) [] h = cc
same_bytes-eq (x ∷ xs) (y ∷ ys) h = ground (arith, same_bytes-eq xs ys)

same_bytes_self : (xs : List ℕ) → same_bytes xs xs ≡ true
unfolding same_bytes
same_bytes_self [] = refl
same_bytes_self (x ∷ xs) = rw (==_self x) (same_bytes_self xs)

module _ {ℓ} {A : Type ℓ} (eq : A → A → Bool) (decides : Decides eq) where
  same_elements-eq :
      (xs ys : List A) → length xs ≡ length ys → same_elements eq xs ys ≡ true → xs ≡ ys
  unfolding same_elements
  same_elements-eq [] [] n h = refl
  same_elements-eq [] (y ∷ ys) n h = absurd (omega arith)
  same_elements-eq (x ∷ xs) [] n h = absurd (omega arith)
  same_elements-eq (x ∷ xs) (y ∷ ys) n h =
      let rest : same_elements eq xs ys ≡ true → xs ≡ ys = same_elements-eq xs ys (omega arith) in
      elim (Bool-cases (eq x y)) [
        | inl e ↦ ap₂ ◌∷◌ ((decides x y).0 e) (rest (sym (rw e refl) ∙ h))
        | inr e ↦ cc
      ]

  same_elements_self : (xs : List A) → same_elements eq xs xs ≡ true
  unfolding same_elements
  same_elements_self [] = refl
  same_elements_self (x ∷ xs) = rw ((decides x x).1 refl) (same_elements_self xs)

same_bool-eq : (a b : Bool) → same_bool a b ≡ true → a ≡ b
same_bool-eq a b h = ground arith

same_bool_self : (a : Bool) → same_bool a a ≡ true
same_bool_self a = ground arith

-- A chain of tests that returns false, and what is returned behind it.
chain : (p q r s : Bool) → Bool
chain p q r s = if not p || (not q || not r) then false else s

chain-true :
    (p q r s : Bool) → chain p q r s ≡ true → (p ≡ true) × (q ≡ true) × (r ≡ true) × (s ≡ true)
unfolding chain
chain-true p q r s h = ground arith

true-chain : (p q r s : Bool) → p ≡ true → q ≡ true → r ≡ true → s ≡ true → chain p q r s ≡ true
unfolding chain
true-chain p q r s hp hq hr hs = ground arith

four-chain :
    (p q r s : Bool)
    → (if not p || (not q || (not r || not s)) then false else true) ≡ chain p q r s
unfolding chain
four-chain p q r s = ground arith

host_eq-Decides : Decides host_eq
unfolding host_eq
host_eq-Decides a b =
    let chained =
      four-chain (same_bytes a.ip b.ip) (a.port == b.port) (a.timeout_ms == b.timeout_ms)
        (same_bool a.forbidden b.forbidden) in
    (
      λ h.
          let (p, q, r, s) = chain-true _ _ _ _ (sym chained ∙ h) in
          λ i. record {
            ip = same_bytes-eq a.ip b.ip p i;
            port = (==_iff a.port b.port).0 q i;
            timeout_ms = (==_iff a.timeout_ms b.timeout_ms).0 r i;
            forbidden = same_bool-eq a.forbidden b.forbidden s i;
          },
      λ e.
          subst (λ c. host_eq a c ≡ true) e
            (four-chain _ _ _ _
              ∙ true-chain _ _ _ _ (same_bytes_self a.ip) (==_self a.port) (==_self a.timeout_ms)
                  (same_bool_self a.forbidden)),
    )

module _ {ℓ} {A : Type ℓ} (eq : A → A → Bool) (decides : Decides eq) (s t : StrategyType)
    (f g : Bool) (xs ys : List A) where
  vec-eq :
      chain (code s == code t) (same_bool f g) (length xs == length ys) (same_elements eq xs ys)
        ≡ true
      → (s ≡ t) × (f ≡ g) × (xs ≡ ys)
  vec-eq h =
      let (p, q, r, e) = chain-true _ _ _ _ h in
      (
        code_injective s t ((==_iff (code s) (code t)).0 p),
        same_bool-eq f g q,
        same_elements-eq eq decides xs ys ((==_iff (length xs) (length ys)).0 r) e,
      )

module _ {ℓ} {A : Type ℓ} (eq : A → A → Bool) (decides : Decides eq) where
  vec_self :
      (s : StrategyType) (f : Bool) (xs : List A)
      → chain (code s == code s) (same_bool f f) (length xs == length xs) (same_elements eq xs xs)
        ≡ true
  vec_self s f xs =
      true-chain _ _ _ _ (==_self (code s)) (same_bool_self f) (==_self (length xs))
        (same_elements_self eq decides xs)

replicas_eq-Decides : Decides replicas_eq
unfolding replicas_eq chain
replicas_eq-Decides a b = (
  λ h.
      let (s, f, v) =
        vec-eq host_eq host_eq-Decides a.replicas_strategy b.replicas_strategy a.forbidden
          b.forbidden a.vec b.vec h in
      λ i. record { vec = v i; replicas_strategy = s i; forbidden = f i },
  λ e.
      subst (λ c. replicas_eq a c ≡ true) e
        (vec_self host_eq host_eq-Decides a.replicas_strategy a.forbidden a.vec),
)

-- `operator==` of two configurations of a group returns true exactly if they are the same: the same
-- strategies, flags and hosts, in the same order, at both levels.
pub group_eq_iff : (a b : GroupInfo) → (group_eq a b ≡ true) ↔ (a ≡ b)
unfolding group_eq chain
group_eq_iff a b = (
  λ h.
      let (s, f, v) =
        vec-eq replicas_eq replicas_eq-Decides a.group_strategy b.group_strategy a.forbidden
          b.forbidden a.vec b.vec h in
      λ i. record { vec = v i; group_strategy = s i; forbidden = f i },
  λ e.
      subst (λ c. group_eq a c ≡ true) e
        (vec_self replicas_eq replicas_eq-Decides a.group_strategy a.forbidden a.vec),
)
