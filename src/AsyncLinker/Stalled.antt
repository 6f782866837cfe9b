-- ===== src/AsyncLinker/Stalled.antt =====
-- The bytes that waited in a link of tcp_async_linker.cpp when its connect came up.
use friend_serv.Base.{
  ℕ, ◌≡◌, refl, inl, inr, Bool, true, false, ◌&&◌, ◌||◌, List, [], ◌∷◌, Option, none, some, ◌>>=◌,
  Bool-cases, length, ◌+◌, ◌-◌, min, take, drop, ◌++◌, ◌∙◌, sym, subst,
}
use friend_serv.TcpClient.{Event}
use friend_serv.Linker
use friend_serv.Linker.{Linker, is_empty, behind, queued, spread, buf_len}
use friend_serv.AsyncLinker.{AsyncLinker, Sending, send_pkg, send_all, with_sent, handle_output}
use friend_serv.AsyncLinker.Runs.{
  Call, sending, writable, shutting, call, run, Each, Each-bind, if-Each, true-not-false, run-Each,
  send_all-Each,
}

-- Bytes wait that are not registered for, behind those written.
pub record IsStalled (wire : List ℕ) (a : AsyncLinker) : Type 0 where
  pub waits : is_empty a.link.buffers ≡ false
  pub off : a.watch_out ≡ false
  pub same : a.link.wire ≡ wire

-- The buffers found for a list that was not empty.
abbrev Waits : Option (List (List ℕ) × ℕ) → Type 0
Waits none = Unit
Waits (some found) = is_empty found.0 ≡ false

grown-Waits :
    (b : List ℕ) (more : Option (List (List ℕ) × ℕ))
    → Waits (elim more [ none ↦ none | some found ↦ some (b ∷ found.0, found.1) ])
grown-Waits b none = tt
grown-Waits b (some found) = refl

behind-Waits :
    (k pool : ℕ) (b : List ℕ) (bs : List (List ℕ)) (rest : List ℕ)
    → Waits (behind k pool (b ∷ bs) rest)
unfolding behind
behind-Waits k pool b [] rest =
    let size = min (buf_len - length b) (length rest) in
    elim (Bool-cases (is_empty (drop size rest))) [
      | inl e ↦ rw e refl
      | inr e ↦ rw e (grown-Waits (b ++ take size rest) (spread k pool (drop size rest)))
    ]
behind-Waits k pool b (c ∷ cs) rest = grown-Waits b (behind k pool (c ∷ cs) rest)

and-false : (b : Bool) → (b && false || false) ≡ false
and-false true = refl
and-false false = refl

queued-IsStalled :
    (wire : List ℕ) (ctl : Bool) (a : AsyncLinker) (found : Option (List (List ℕ) × ℕ))
    → IsStalled wire a
    → Waits found
    → Each (IsStalled wire) (with_sent ctl a (queued a.link a.link.wire found))
queued-IsStalled wire ctl a none h w = tt
queued-IsStalled wire ctl a (some found) h w = record {
  waits = w;
  off = rw (h.waits, h.off) (and-false ctl);
  same = h.same;
}

waiting-Waits :
    (k pool : ℕ) (bs : List (List ℕ)) (rest : List ℕ)
    → is_empty bs ≡ false
    → Waits (behind k pool bs rest)
waiting-Waits k pool [] rest h = absurd (true-not-false h)
waiting-Waits k pool (b ∷ bs) rest h = behind-Waits k pool b bs rest

send_behind :
    (e : Event) (buf : List ℕ) (l : Linker)
    → is_empty l.buffers ≡ false
    → Linker.send_pkg e buf l ≡ queued l l.wire (behind (length buf + 1) l.pool l.buffers buf)
unfolding Linker.send_pkg
send_behind e buf l h = rw h refl

send_pkg-IsStalled :
    (wire : List ℕ) (x : Sending) (a : AsyncLinker)
    → IsStalled wire a
    → Each (IsStalled wire) (send_pkg x a)
send_pkg-IsStalled wire x a h =
    let buf = x.package_bytes in
    let found = behind (length buf + 1) a.link.pool a.link.buffers buf in
    subst (λ l. Each (IsStalled wire) (with_sent x.ctl a l))
      (sym (send_behind x.event buf a.link h.waits))
      (queued-IsStalled wire x.ctl a found h
        (waiting-Waits (length buf + 1) a.link.pool a.link.buffers buf h.waits))

call-IsStalled :
    (wire : List ℕ) (c : Call) (a : AsyncLinker)
    → IsStalled wire a
    → Each (IsStalled wire) (call c a)
call-IsStalled wire (sending x) a h = send_pkg-IsStalled wire x a h
call-IsStalled wire (writable memory ctl greeting es) a h =
    if-Each (IsStalled wire) a.watch_out _ _ (λ on. absurd (true-not-false (sym on ∙ h.off)))
      (λ off. h)
call-IsStalled wire shutting a h =
    rw (h.waits) (record { waits = h.waits; off = h.off; same = h.same })

-- A link on which a package waited when its pending connect came up: handle_output registers it for
-- EPOLLIN alone, and in every run of calls from then on, while the link is there, no byte is written
-- to the server any more.
pub connected_stalls :
    (memory ctl : Bool) (greeting : List Sending) (es : List Event) (cs : List Call)
    (a : AsyncLinker)
    → a.is_connected ≡ false
    → is_empty a.link.buffers ≡ false
    → Each (IsStalled a.link.wire) (handle_output memory ctl greeting es a >>= run cs)
connected_stalls memory ctl greeting es cs a down waits =
    let P = IsStalled a.link.wire in
    Each-bind P P (run cs) (handle_output memory ctl greeting es a)
      (if-Each P a.is_connected _ _ (λ up. absurd (true-not-false (sym up ∙ down)))
        (λ e.
          if-Each P (memory && ctl) _ _
            (λ ok.
              Each-bind P P (λ b. some (record b { is_connected = true }))
                (send_all greeting (record a { watch_out = false }))
                (send_all-Each P (send_pkg-IsStalled a.link.wire) greeting
                  (record a { watch_out = false })
                  (record { waits = waits; off = refl; same = refl }))
                (λ b h. record { waits = h.waits; off = h.off; same = h.same }))
            (λ fails. tt)))
      (λ b h. run-Each P (call-IsStalled a.link.wire) cs b h)
