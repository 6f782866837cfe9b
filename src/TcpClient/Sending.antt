-- ===== src/TcpClient/Sending.antt =====
-- What Send of tcp_client.cpp sends, and when it finishes.
use friend_serv.Base.{
  ℕ, suc, zero, ◌+◌, ◌≤◌, ◌<◌, ◌≡◌, ◌≢◌, refl, ◌⊎◌, inl, inr, true, false, Option, none, some, List,
  [], ◌∷◌, ◌++◌, arith, length, take, drop, min, leb, leb→le, Bool-cases, take-append-drop,
  take_all, length-drop, append_assoc, append-nil, ap, sym, subst, ◌∙◌,
}
use friend_serv.TcpClient.{
  Event, moved, again, interrupted, failed, all_done, timeout, tc_error, Outcome, send_loop, send,
}

pub all_done-ne-timeout : all_done ≢ timeout
all_done-ne-timeout e = grind arith

pub all_done-ne-tc_error : all_done ≢ tc_error
all_done-ne-tc_error e = grind arith

-- All of the buffer is sent on an open socket; or nothing of it, and the socket is as it was; or a
-- part of it, and the socket is closed.
abbrev pub IsSent : List ℕ → Outcome → Type 0
IsSent buf o =
    (o.done ++ o.left ≡ buf)
    × (((o.ret ≡ all_done) × (o.done ≡ buf) × (o.alive ≡ true))
        ⊎ ((o.ret ≡ timeout) × (o.done ≡ []) × (o.alive ≡ true))
        ⊎ ((o.ret ≡ tc_error) × (o.alive ≡ false)))

abbrev pub AllOf : (Outcome → Type 0) → Option Outcome → Type 0
AllOf P none = Unit
AllOf P (some o) = P o

send_loop-IsSent :
    (events : List Event) (done left buf : List ℕ)
    → done ++ left ≡ buf
    → AllOf (IsSent buf) (send_loop done left events)
unfolding send_loop
send_loop-IsSent [] done left buf e = tt
send_loop-IsSent (moved n ∷ events) done left buf e =
    let r = min n (length left) in
    elim (Bool-cases (leb (length left) r)) [
      | inl whole ↦
          let all : done ++ take r left ≡ buf = rw (take_all r left (leb→le _ _ whole)) e in
          rw whole (append-nil _ ∙ all, inl (refl, all, refl))
      | inr part ↦ rw part (
          send_loop-IsSent events (done ++ take r left) (drop r left) buf (
            append_assoc done (take r left) (drop r left)
            ∙ ap (λ l. done ++ l) (take-append-drop r left)
            ∙ e))
    ]
send_loop-IsSent (again ∷ events) [] left buf e = (e, inr (inl (refl, refl, refl)))
send_loop-IsSent (again ∷ events) (x ∷ done) left buf e = (e, inr (inr (refl, refl)))
send_loop-IsSent (interrupted ∷ events) done left buf e = send_loop-IsSent events done left buf e
send_loop-IsSent (failed ∷ events) done left buf e = (e, inr (inr (refl, refl)))

-- On an open socket Send of a buffer that is not empty sends all of it and keeps the socket; or
-- times out before the first byte, sends nothing and keeps the socket; or fails, and then it may
-- have sent a part of the buffer from the front, and has closed the socket.
pub send-IsSent :
    (buf : List ℕ) (events : List Event) → buf ≢ [] → AllOf (IsSent buf) (send true buf events)
unfolding send
send-IsSent [] events some_bytes = absurd (some_bytes refl)
send-IsSent (x ∷ buf) events some_bytes = send_loop-IsSent events [] (x ∷ buf) (x ∷ buf) refl

-- The kernel takes at least one byte in each of `n` calls, which signals may interrupt.
abbrev pub Progress : ℕ → List Event → Type 0
Progress zero events = Unit
Progress (suc n) [] = ⊥
Progress (suc n) (moved m ∷ events) = (1 ≤ m) × Progress n events
Progress (suc n) (again ∷ events) = ⊥
Progress (suc n) (interrupted ∷ events) = Progress (suc n) events
Progress (suc n) (failed ∷ events) = ⊥

IsSent-done :
    (buf : List ℕ) (o : Outcome)
    → IsSent buf o
    → o.ret ≡ all_done
    → (o.done ≡ buf) × (o.alive ≡ true)
IsSent-done buf o sent e = elim sent.1 [
  | inl whole ↦ (whole.1, whole.2)
  | inr (inl late) ↦ absurd (all_done-ne-timeout (sym e ∙ late.0))
  | inr (inr bad) ↦ absurd (all_done-ne-tc_error (sym e ∙ bad.0))
]

pub Progress-mono : (events : List Event) (n k : ℕ) → k ≤ n → Progress n events → Progress k events
Progress-mono events n zero h p = tt
Progress-mono events zero (suc k) h p = absurd (omega arith)
Progress-mono [] (suc n) (suc k) h p = p
Progress-mono (moved m ∷ events) (suc n) (suc k) h p =
    (p.0, Progress-mono events n k (omega arith) p.1)
Progress-mono (again ∷ events) (suc n) (suc k) h p = p
Progress-mono (interrupted ∷ events) (suc n) (suc k) h p = Progress-mono events (suc n) (suc k) h p
Progress-mono (failed ∷ events) (suc n) (suc k) h p = p

-- A loop that has progress for `k` more bytes than it sends leaves progress for `k`.
send_loop-finishes :
    (k : ℕ) (events : List Event) (n : ℕ) (done left : List ℕ)
    → Progress n events
    → 1 ≤ length left
    → length left + k ≤ n
    → (o : Outcome) × (send_loop done left events ≡ some o)
      × (o.ret ≡ all_done)
      × Progress k o.events
unfolding send_loop
send_loop-finishes k events zero done left p h room = absurd (omega arith)
send_loop-finishes k [] (suc n) done left p h room = absurd p
send_loop-finishes k (moved m ∷ events) (suc n) done left p h room =
    let r = min m (length left) in
    elim (Bool-cases (leb (length left) r)) [
      | inl whole ↦ rw whole (_, refl, refl, Progress-mono events n k (omega arith) p.1)
      | inr part ↦
          let short : r < length left = ground arith in
          rw part (
            send_loop-finishes k events n (done ++ take r left) (drop r left) p.1
              (omega (arith, length-drop r left, short))
              (omega (arith, length-drop r left, p.0, room)))
    ]
send_loop-finishes k (again ∷ events) (suc n) done left p h room = absurd p
send_loop-finishes k (interrupted ∷ events) (suc n) done left p h room =
    send_loop-finishes k events (suc n) done left p h room
send_loop-finishes k (failed ∷ events) (suc n) done left p h room = absurd p

-- Where the kernel takes a byte in each of as many calls as the buffer has bytes, whatever signals
-- come between, Send returns with all of the buffer sent and the socket open; of `k` such calls
-- more it leaves `k`.
pub send_finishes :
    (k : ℕ) (buf : List ℕ) (events : List Event)
    → buf ≢ []
    → Progress (length buf + k) events
    → (o : Outcome) × (send true buf events ≡ some o)
      × (o.ret ≡ all_done)
      × (o.done ≡ buf)
      × (o.alive ≡ true)
      × Progress k o.events
unfolding send
send_finishes k [] events some_bytes p = absurd (some_bytes refl)
send_finishes k (x ∷ buf) events some_bytes p =
    let ends =
      send_loop-finishes k events (length (x ∷ buf) + k) [] (x ∷ buf) p (omega arith)
        (omega arith) in
    let sent =
      IsSent-done (x ∷ buf) ends.0
        (subst (AllOf (IsSent (x ∷ buf))) ends.1
          (send_loop-IsSent events [] (x ∷ buf) (x ∷ buf) refl))
        ends.2 in
    (ends.0, ends.1, ends.2, sent.0, sent.1, ends.3)
