-- ===== src/TcpClient/Receiving.antt =====
-- What Recv of tcp_client.cpp takes from the stream.
use friend_serv.Base.{
  ℕ, suc, zero, ◌+◌, ◌-◌, ◌≤◌, ◌<◌, ◌≡◌, ◌≢◌, refl, ◌⊎◌, inl, inr, true, false, some, List, [], ◌∷◌,
  ◌++◌, arith, length, take, drop, min, leb, Bool-cases, take-append-drop, length-append,
  length-take, length-drop, append_assoc, ap, sym, subst, ◌∙◌, ◌==◌, take-append, drop-append,
  ==_ne,
}
use friend_serv.TcpClient.{
  Event, moved, again, interrupted, failed, all_done, timeout, tc_error, Outcome, recv_loop, recv,
}
use friend_serv.TcpClient.Sending.{
  AllOf, Progress, Progress-mono, all_done-ne-timeout, all_done-ne-tc_error,
}

-- The bytes asked for came from the front of the stream of an open socket; or none, and the socket
-- is as it was; or some, and the socket is closed.
abbrev pub IsReceived : ℕ → List ℕ → Outcome → Type 0
IsReceived want stream o =
    (o.done ++ o.left ≡ stream)
    × (((o.ret ≡ all_done) × (length o.done ≡ want) × (o.alive ≡ true))
        ⊎ ((o.ret ≡ timeout) × (o.done ≡ []) × (o.alive ≡ true))
        ⊎ ((o.ret ≡ tc_error) × (o.alive ≡ false)))

moved_on :
    (r : ℕ) (done left stream : List ℕ)
    → done ++ left ≡ stream
    → (done ++ take r left) ++ drop r left ≡ stream
moved_on r done left stream e =
    append_assoc done (take r left) (drop r left)
    ∙ ap (λ l. done ++ l) (take-append-drop r left)
    ∙ e

length-got :
    (r want n : ℕ) (done left : List ℕ)
    → r ≡ min n (min want (length left))
    → length (done ++ take r left) ≡ length done + r
length-got r want n done left e =
    omega (arith, e, length-append done (take r left), length-take r left)

recv_loop-IsReceived :
    (events : List Event) (want : ℕ) (done left stream : List ℕ) (total : ℕ)
    → done ++ left ≡ stream
    → length done + want ≡ total
    → AllOf (IsReceived total stream) (recv_loop want done left events)
unfolding recv_loop
recv_loop-IsReceived [] want done left stream total e f = tt
recv_loop-IsReceived (moved n ∷ events) want done left stream total e f =
    let r = min n (min want (length left)) in
    let got = length-got r want n done left refl in
    let on = moved_on r done left stream e in
    elim (Bool-cases (r == 0)) [
      | inl none_came ↦ rw none_came (e, inr (inr (refl, refl)))
      | inr some_came ↦ elim (Bool-cases (leb want r)) [
        | inl whole ↦
            let full : length (done ++ take r left) ≡ total = ground arith in
            rw (some_came, whole) (on, inl (refl, full, refl))
        | inr part ↦
            rw (some_came, part)
              (recv_loop-IsReceived events (want - r) (done ++ take r left) (drop r left) stream
                total on (omega (arith, got, f)))
      ]
    ]
recv_loop-IsReceived (again ∷ events) want [] left stream total e f =
    (e, inr (inl (refl, refl, refl)))
recv_loop-IsReceived (again ∷ events) want (x ∷ done) left stream total e f =
    (e, inr (inr (refl, refl)))
recv_loop-IsReceived (interrupted ∷ events) want done left stream total e f =
    recv_loop-IsReceived events want done left stream total e f
recv_loop-IsReceived (failed ∷ events) want done left stream total e f = (e, inr (inr (refl, refl)))

-- On an open socket Recv of some bytes takes exactly so many from the front of the stream; or times
-- out before the first byte, takes nothing and keeps the socket; or fails, also where the peer
-- closes, and then it may have taken some bytes, and has closed the socket.
pub recv-IsReceived :
    (want : ℕ) (stream : List ℕ) (events : List Event)
    → want ≢ 0
    → AllOf (IsReceived want stream) (recv true want stream events)
unfolding recv
recv-IsReceived want stream events some_bytes =
    rw (==_ne want 0 some_bytes)
      (recv_loop-IsReceived events want [] stream stream want refl (omega arith))

recv_loop-finishes :
    (k : ℕ) (events : List Event) (n want : ℕ) (done left : List ℕ)
    → Progress n events
    → 1 ≤ want
    → want + k ≤ n
    → want ≤ length left
    → (o : Outcome) × (recv_loop want done left events ≡ some o)
      × (o.ret ≡ all_done)
      × Progress k o.events
unfolding recv_loop
recv_loop-finishes k events zero want done left p h t room = absurd (omega arith)
recv_loop-finishes k [] (suc n) want done left p h t room = absurd p
recv_loop-finishes k (moved m ∷ events) (suc n) want done left p h t room =
    let r = min m (min want (length left)) in
    let some_came : (r == 0) ≡ false = ==_ne r 0 (λ z. absurd (omega (arith, z, p.0))) in
    elim (Bool-cases (leb want r)) [
      | inl whole ↦
          rw (some_came, whole) (_, refl, refl, Progress-mono events n k (omega arith) p.1)
      | inr part ↦
          let short : r < want = ground arith in
          rw (some_came, part)
            (recv_loop-finishes k events n (want - r) (done ++ take r left) (drop r left) p.1
              (omega (arith, short)) (omega (arith, p.0, t)) (omega (arith, length-drop r left)))
    ]
recv_loop-finishes k (again ∷ events) (suc n) want done left p h t room = absurd p
recv_loop-finishes k (interrupted ∷ events) (suc n) want done left p h t room =
    recv_loop-finishes k events (suc n) want done left p h t room
recv_loop-finishes k (failed ∷ events) (suc n) want done left p h t room = absurd p

-- What was received of a stream that starts with so many bytes is these bytes.
pub IsReceived-done :
    (front more : List ℕ) (o : Outcome)
    → IsReceived (length front) (front ++ more) o
    → o.ret ≡ all_done
    → (o.done ≡ front) × (o.left ≡ more) × (o.alive ≡ true)
IsReceived-done front more o got e = elim got.1 [
  | inl whole ↦
      let n = whole.1 in
      (
        sym (take-append o.done o.left)
            ∙ ap (λ k. take k (o.done ++ o.left)) n
            ∙ ap (take (length front)) got.0
            ∙ take-append front more,
        sym (drop-append o.done o.left)
            ∙ ap (λ k. drop k (o.done ++ o.left)) n
            ∙ ap (drop (length front)) got.0
            ∙ drop-append front more,
        whole.2,
      )
  | inr (inl late) ↦ absurd (all_done-ne-timeout (sym e ∙ late.0))
  | inr (inr bad) ↦ absurd (all_done-ne-tc_error (sym e ∙ bad.0))
]

-- Where the stream starts with the bytes asked for, and each of as many calls brings a byte,
-- whatever signals come between, Recv returns with these bytes, however the stream cut them, and
-- keeps the socket; of `k` such calls more it leaves `k`.
pub recv_finishes :
    (k : ℕ) (front more : List ℕ) (events : List Event)
    → length front ≢ 0
    → Progress (length front + k) events
    → (o : Outcome) × (recv true (length front) (front ++ more) events ≡ some o)
      × (o.ret ≡ all_done)
      × (o.done ≡ front)
      × (o.left ≡ more)
      × (o.alive ≡ true)
      × Progress k o.events
unfolding recv
recv_finishes k front more events some_bytes p =
    let n = length front in
    let ends =
      recv_loop-finishes k events (n + k) n [] (front ++ more) p (omega (arith, some_bytes))
        (omega arith) (omega (arith, length-append front more)) in
    let got =
      subst (AllOf (IsReceived n (front ++ more))) ends.1
        (recv_loop-IsReceived events n [] (front ++ more) (front ++ more) n refl (omega arith)) in
    let parts = IsReceived-done front more ends.0 got ends.2 in
    rw (==_ne n 0 some_bytes) (ends.0, ends.1, ends.2, parts.0, parts.1, parts.2, ends.3)
