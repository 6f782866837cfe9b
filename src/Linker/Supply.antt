-- ===== src/Linker/Supply.antt =====
-- When send_pkg of tcp_linker.cpp keeps the link: the buffers and the rounds that it needs.
use friend_serv.Base.{
  ℕ, zero, suc, ◌+◌, ◌-◌, ◌*◌, ◌≤◌, ◌<◌, ◌≡◌, refl, Bool, true, false, Option, none, some, List, [],
  ◌∷◌, ◌++◌, ◌==◌, if◌then◌else◌, length, take, drop, min, arith, length-drop,
}
use friend_serv.TcpClient.{Event, moved, again, interrupted, failed}
use friend_serv.Linker.{Linker, buf_len, is_empty, spread, behind, took, queued, send_now, send_pkg}
use friend_serv.Linker.Spread.{Buffers}

abbrev IsSome {ℓ} : {A : Type ℓ} → Option A → Type ℓ
IsSome {A = A} o = (a : A) × (o ≡ some a)

cons-IsSome :
    (b : List ℕ) (more : Option Buffers)
    → IsSome more
    → IsSome {A = Buffers} (elim more [ none ↦ none | some found ↦ some (b ∷ found.0, found.1) ])
cons-IsSome b more s = rw (s.1) (_, refl)

positive : (xs : List ℕ) → is_empty xs ≡ false → 1 ≤ length xs
positive [] e = absurd (grind arith)
positive (x ∷ xs) e = omega arith

if-IsSome {ℓ} :
    {A : Type ℓ} (b : Bool) (x y : Option A)
    → (b ≡ true → IsSome x)
    → (b ≡ false → IsSome y)
    → IsSome (if b then x else y)
if-IsSome true x y l r = l refl
if-IsSome false x y l r = r refl

spread-IsSome :
    (k pool : ℕ) (rest : List ℕ)
    → length rest < k
    → 1 ≤ pool
    → length rest ≤ 8188 * pool
    → IsSome (spread k pool rest)
unfolding spread
spread-IsSome zero pool rest h p s = absurd (omega arith)
spread-IsSome (suc k) zero rest h p s = absurd (omega arith)
spread-IsSome (suc k) (suc pool) rest h p s =
    let left = drop buf_len rest in
    let n = length-drop buf_len rest in
    if-IsSome (is_empty left) _ _ (λ e. (_, refl))
      (λ e.
        let some_left = positive left e in
        cons-IsSome (take buf_len rest) _ (
          spread-IsSome k pool left (omega (arith, n, h, some_left))
            (omega (arith, n, s, some_left)) (omega (arith, n, s))))

behind-IsSome :
    (k pool : ℕ) (bs : List (List ℕ)) (b rest : List ℕ)
    → length rest < k
    → 1 ≤ pool
    → length rest ≤ 8188 * pool
    → IsSome (behind k pool (b ∷ bs) rest)
unfolding behind
behind-IsSome k pool [] b rest h p s =
    let size = min (buf_len - length b) (length rest) in
    let left = drop size rest in
    let n = length-drop size rest in
    if-IsSome (is_empty left) _ _ (λ e. (_, refl))
      (λ e.
        cons-IsSome (b ++ take size rest) _
          (spread-IsSome k pool left (omega (arith, n, h)) p (omega (arith, n, s))))
behind-IsSome k pool (second ∷ others) b rest h p s =
    cons-IsSome b _ (behind-IsSome k pool others second rest h p s)

abbrev pub fails : Event → Bool
fails failed = true
fails _ = false

queued-IsSome :
    (l : Linker) (wire : List ℕ) (o : Option Buffers) → IsSome o → IsSome (queued l wire o)
queued-IsSome l wire o s = rw (s.1) (_, refl)

send_now-IsSome :
    (l : Linker) (buf : List ℕ) (r : ℕ)
    → 1 ≤ l.pool
    → length buf ≤ 8188 * l.pool
    → IsSome (send_now l buf (some r))
send_now-IsSome l buf r p s =
    let n = length-drop r buf in
    if-IsSome (r == length buf) _ _ (λ e. (_, refl))
      (λ e. queued-IsSome l (l.wire ++ take r buf) _ (
        spread-IsSome (length buf + 1) l.pool (drop r buf) (omega (arith, n)) p
          (omega (arith, n, s))))

took-IsSome : (e : Event) (n : ℕ) → fails e ≡ false → IsSome (took e n)
took-IsSome (moved m) n f = (_, refl)
took-IsSome again n f = (_, refl)
took-IsSome interrupted n f = (_, refl)
took-IsSome failed n f = absurd (grind arith)

supplied :
    (bs : List (List ℕ)) (l : Linker) (e : Event) (buf : List ℕ)
    → l.buffers ≡ bs
    → fails e ≡ false
    → 1 ≤ l.pool
    → length buf ≤ 8188 * l.pool
    → IsSome (
        if is_empty bs
        then send_now l buf (took e (length buf))
        else queued l l.wire (behind (length buf + 1) l.pool bs buf))
supplied [] l e buf same f p s =
    let t = took-IsSome e (length buf) f in rw (t.1) (send_now-IsSome l buf t.0 p s)
supplied (b ∷ bs) l e buf same f p s =
    queued-IsSome l l.wire _ (behind-IsSome (length buf + 1) l.pool bs b buf (omega arith) p s)

-- Where the socket has no error but EAGAIN and EINTR, and memory gives a buffer, and as many that
-- they hold the package, send_pkg keeps the link, however long its list is: the rounds of its loop
-- are enough.
pub send_pkg_keeps :
    (l : Linker) (e : Event) (buf : List ℕ)
    → fails e ≡ false
    → 1 ≤ l.pool
    → length buf ≤ 8188 * l.pool
    → (l' : Linker) × (send_pkg e buf l ≡ some l')
unfolding send_pkg
send_pkg_keeps l e buf f p s = supplied l.buffers l e buf refl f p s
