-- ===== src/Proxy/Answers.antt =====
-- The lengths of the answers that the queries of buf_processor.cpp write, and how the queries end.
use native.Mathlib.Nat.{mod-le}
use friend_serv.Base.{
  ℕ, zero, suc, ◌+◌, ◌*◌, ◌%◌, ◌^◌, ◌≤◌, ◌≡◌, refl, inl, inr, Option, none, some, List, [], ◌∷◌,
  ◌++◌, arith, length, length-append, length-take, take, get_elem?, ◌>>=◌, leb, leb→le, Bool-cases,
}
use friend_serv.Proxy.Packet.{Packet, header_size, max_buf_len, put, grow, u32, atoi}
use friend_serv.Proxy.Query.{group_infos, idol_infos, mimi_ids}
use friend_serv.Proxy.Replies.{IsLaidOut}

abbrev pub OnPacket : (Packet → Type 0) → Option Packet → Type 0
OnPacket P none = Unit
OnPacket P (some p) = P p

module _ (P : Packet → Type 0) where
  pub bind-OnPacket {ℓ} :
      {A : Type ℓ} (o : Option A) (next : A → Option Packet)
      → ((a : A) → OnPacket P (next a))
      → OnPacket P (o >>= next)
  bind-OnPacket none next all = tt
  bind-OnPacket (some a) next all = all a

  pub put-OnPacket :
      (bytes : List ℕ) (p : Packet) (next : Packet → Option Packet)
      → (header_size + (length p.body + length bytes) ≤ max_buf_len
          → OnPacket P (next (record p { body = p.body ++ bytes })))
      → OnPacket P (put bytes p >>= next)
  unfolding put
  put-OnPacket bytes p next all =
      elim (Bool-cases (leb (header_size + (length p.body + length bytes)) max_buf_len)) [
        | inl e ↦ rw e (all (leb→le _ _ e))
        | inr e ↦ rw e tt
      ]

  -- Bytes written and counted keep the answer laid out.
  pub counted-OnPacket :
      (bytes : List ℕ) (n : ℕ) (p : Packet) (next : Packet → Option Packet)
      → length bytes ≡ n
      → IsLaidOut p
      → ((q : Packet) → IsLaidOut q → OnPacket P (next q))
      → OnPacket P (put bytes p >>= (λ p1. next (grow n p1)))
  counted-OnPacket bytes n p next e out all = put-OnPacket bytes p _ (λ room. all _ (
    omega (arith, e, out, room, length-append p.body bytes),
    omega (arith, e, out, room, length-append p.body bytes),
  ))

pub group_infos-IsLaidOut :
    (names : List (List ℕ)) (p : Packet) → IsLaidOut p → OnPacket IsLaidOut (group_infos names p)
unfolding group_infos
group_infos-IsLaidOut [] p out = out
group_infos-IsLaidOut (name ∷ names) p out =
    let len = length name % 2 ^ 32 in
    counted-OnPacket IsLaidOut (u32 len ++ take len name) (4 + len) p (group_infos names)
      (omega (arith, length-take len name, mod-le (length name) (2 ^ 32))) out
      (group_infos-IsLaidOut names)

pub idol_infos-IsLaidOut :
    (n i : ℕ) (xs : List (List ℕ)) (p : Packet)
    → IsLaidOut p
    → OnPacket IsLaidOut (idol_infos n i xs p)
unfolding idol_infos
idol_infos-IsLaidOut zero i xs p out = out
idol_infos-IsLaidOut (suc n) i xs p out = bind-OnPacket IsLaidOut (get_elem? xs (2 * i)) _ (λ id.
    bind-OnPacket IsLaidOut (get_elem? xs (2 * i + 1)) _ (λ time.
      counted-OnPacket IsLaidOut (u32 (atoi id) ++ u32 (atoi time)) 8 p (idol_infos n (i + 1) xs)
        refl out (idol_infos-IsLaidOut n (i + 1) xs)))

-- The length is set before the loop: it runs ahead of the bytes by four for each round left.
pub mimi_ids-IsLaidOut :
    (n i : ℕ) (xs : List (List ℕ)) (p : Packet)
    → p.pkg_len ≡ (header_size + length p.body + 4 * n) % 2 ^ 32
    → header_size + length p.body ≤ max_buf_len
    → OnPacket IsLaidOut (mimi_ids n i xs p)
unfolding mimi_ids
mimi_ids-IsLaidOut zero i xs p e room = (omega (arith, e, room), room)
mimi_ids-IsLaidOut (suc n) i xs p e room = bind-OnPacket IsLaidOut (get_elem? xs i) _ (λ id.
    put-OnPacket IsLaidOut (u32 (atoi id)) p _ (λ room'.
      mimi_ids-IsLaidOut n (i + 1) xs _ (omega (arith, e, length-append p.body (u32 (atoi id))))
        (omega (arith, room', length-append p.body (u32 (atoi id))))))
