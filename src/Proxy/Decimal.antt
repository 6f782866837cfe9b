-- ===== src/Proxy/Decimal.antt =====
-- `atoi` of buf_processor.cpp on the decimal text in which redis sends ids and scores.
use friend_serv.Base.{
  ℕ, zero, suc, ◌+◌, ◌-◌, ◌*◌, ◌/◌, ◌%◌, ◌^◌, ◌≤◌, ◌<◌, ◌≡◌, refl, true, List, [], ◌∷◌, ◌++◌, arith,
  ltb, leb, if◌then◌else◌, Bool-cases, inl, inr, ltb→lt, ◌∙◌, ap, sym, append_assoc, append-nil,
}
use friend_serv.Proxy.Packet.{digits, atoi}

-- The decimal text of a number that is at most `rounds`.
abbrev decimal : (rounds : ℕ) → ℕ → List ℕ
decimal zero n = (48 + n) ∷ []
decimal (suc k) n =
    let more = decimal k (n / 10) in if ltb n 10 then (48 + n) ∷ [] else more ++ (48 + n % 10) ∷ []

-- A number as redis prints it.
abbrev pub printed : ℕ → List ℕ
printed n = decimal n n

digits-cons : (a d : ℕ) (xs : List ℕ) → d < 10 → digits a ((48 + d) ∷ xs) ≡ digits (a * 10 + d) xs
unfolding digits
digits-cons a d xs h =
    let low : leb 48 (48 + d) ≡ true = ground arith in
    let high : leb (48 + d) 57 ≡ true = ground arith in
    let e : 48 + d - 48 ≡ d = omega arith in rw (low, high, e) refl

digits-nil : (a : ℕ) → digits a [] ≡ a
unfolding digits
digits-nil a = refl

digits-one : (n : ℕ) (xs : List ℕ) → n < 10 → digits 0 ((48 + n) ∷ xs) ≡ digits n xs
digits-one n xs h =
    let e : 0 * 10 + n ≡ n = omega arith in digits-cons 0 n xs h ∙ ap (λ a. digits a xs) e

digits-decimal : (k n : ℕ) (xs : List ℕ) → n ≤ k → digits 0 (decimal k n ++ xs) ≡ digits n xs
digits-decimal zero n xs h = digits-one n xs (omega arith)
digits-decimal (suc k) n xs h = elim (Bool-cases (ltb n 10)) [
  | inl e ↦ rw e (digits-one n xs (ltb→lt n 10 e))
  | inr e ↦
      let big : 10 ≤ n = ground arith in
      let whole : n / 10 * 10 + n % 10 ≡ n = omega arith in
      let small : n % 10 < 10 = omega arith in
      let front = digits-decimal k (n / 10) ((48 + n % 10) ∷ xs) (omega arith) in
      rw (e, append_assoc (decimal k (n / 10)) ((48 + n % 10) ∷ []) xs)
        (front ∙ digits-cons (n / 10) (n % 10) xs small ∙ ap (λ a. digits a xs) whole)
]

-- `atoi` reads back the low 32 bits of every number that redis prints.
pub atoi-printed : (n : ℕ) → atoi (printed n) ≡ n % 2 ^ 32
unfolding atoi
atoi-printed n =
    let text = digits-decimal n n [] (omega arith) in
    ap (λ m. m % 2 ^ 32) (ap (digits 0) (sym (append-nil (printed n))) ∙ text ∙ digits-nil n)
