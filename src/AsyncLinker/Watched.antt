-- ===== src/AsyncLinker/Watched.antt =====
-- Whether the bytes that wait in a link of tcp_async_linker.cpp are registered for EPOLLOUT.
use friend_serv.Base.{
  ◌≡◌, refl, inl, inr, Bool, true, false, ◌||◌, ◌&&◌, not, List, [], ◌∷◌, Option, none, some, ◌>>=◌,
  Bool-cases, ◌∙◌, ap, sym,
}
use friend_serv.TcpClient.{Event}
use friend_serv.Linker
use friend_serv.Linker.{Linker, is_empty, behind, queued, spread, buf_len}
use friend_serv.AsyncLinker.{
  AsyncLinker, Sending, send_all, with_sent, handle_output, written, shut,
}
use friend_serv.AsyncLinker.Runs.{
  Call, sending, writable, shutting, call, run, Each, Each-bind, if-Each, true-not-false,
}

-- A connected link, where bytes that wait are registered for.
pub record IsWatched (a : AsyncLinker) : Type 0 where
  pub up : a.is_connected ≡ true
  pub watched : (is_empty a.link.buffers || a.watch_out) ≡ true

-- Every handle_ctl behind a package succeeds.
abbrev pub AllRegister : List Sending → Type 0
AllRegister [] = Unit
AllRegister (x ∷ xs) = (x.ctl ≡ true) × AllRegister xs

-- The same for the calls of a run, and the greetings in them.
abbrev pub CallsRegister : List Call → Type 0
CallsRegister [] = Unit
CallsRegister (sending x ∷ cs) = (x.ctl ≡ true) × CallsRegister cs
CallsRegister (writable memory ctl greeting es ∷ cs) = AllRegister greeting × CallsRegister cs
CallsRegister (shutting ∷ cs) = CallsRegister cs

watch_kept :
    (ctl old new w : Bool)
    → ctl ≡ true
    → (old || w) ≡ true
    → (new || (ctl && (old && not new) || w)) ≡ true
watch_kept false old new w e h = absurd (cc)
watch_kept true old true w e h = refl
watch_kept true true false w e h = refl
watch_kept true false false w e h = h

-- The test alone, while the link is not connected yet.
abbrev Half : AsyncLinker → Type 0
Half a = (is_empty a.link.buffers || a.watch_out) ≡ true

with_sent-Half :
    (ctl : Bool) (a : AsyncLinker) (l : Option Linker)
    → ctl ≡ true
    → Half a
    → Each Half (with_sent ctl a l)
with_sent-Half ctl a none e h = tt
with_sent-Half ctl a (some l) e h =
    watch_kept ctl (is_empty a.link.buffers) (is_empty l.buffers) a.watch_out e h

send_all-Half :
    (xs : List Sending) (a : AsyncLinker) → AllRegister xs → Half a → Each Half (send_all xs a)
send_all-Half [] a r h = h
send_all-Half (x ∷ xs) a (e, r) h =
    Each-bind Half Half (send_all xs) _
      (with_sent-Half x.ctl a (Linker.send_pkg x.event x.package_bytes a.link) e h)
      (λ b k. send_all-Half xs b r k)

with_sent-IsWatched :
    (ctl : Bool) (a : AsyncLinker) (l : Option Linker)
    → ctl ≡ true
    → IsWatched a
    → Each IsWatched (with_sent ctl a l)
with_sent-IsWatched ctl a none e h = tt
with_sent-IsWatched ctl a (some l) e h = record {
  up = h.up;
  watched = watch_kept ctl (is_empty a.link.buffers) (is_empty l.buffers) a.watch_out e h.watched;
}

or-true : (b : Bool) → (b || true) ≡ true
or-true true = refl
or-true false = refl

written-IsWatched :
    (ctl : Bool) (a : AsyncLinker) (l : Option Linker)
    → a.is_connected ≡ true
    → a.watch_out ≡ true
    → Each IsWatched (written ctl a l)
written-IsWatched ctl a none up on = tt
written-IsWatched ctl a (some l) up on = elim (Bool-cases (is_empty l.buffers)) [
  | inr some_left ↦ rw some_left (record {
    up = up;
    watched = ap (λ w. is_empty l.buffers || w) on ∙ or-true (is_empty l.buffers);
  })
  | inl all ↦ elim (Bool-cases ctl) [
    | inl c ↦ rw (all, c) (record { up = up; watched = ap (λ w. w || false) all })
    | inr c ↦ rw (all, c) tt
  ]
]

with_shut-IsWatched : (a : AsyncLinker) → IsWatched a → Each IsWatched (shut a)
with_shut-IsWatched a h = elim (Bool-cases (is_empty a.link.buffers)) [
  | inl e ↦ rw e tt
  | inr e ↦ rw e (record { up = h.up; watched = h.watched })
]

writable-IsWatched :
    (memory ctl : Bool) (greeting : List Sending) (es : List Event) (a : AsyncLinker)
    → IsWatched a
    → Each IsWatched (call (writable memory ctl greeting es) a)
writable-IsWatched memory ctl greeting es a h =
    if-Each IsWatched a.watch_out _ _
      (λ on.
        if-Each IsWatched a.is_connected _ _
          (λ up. written-IsWatched ctl a (Linker.handle_output es a.link) up on)
          (λ down. absurd (true-not-false (sym h.up ∙ down))))
      (λ off. h)

run-IsWatched :
    (cs : List Call) (a : AsyncLinker) → CallsRegister cs → IsWatched a → Each IsWatched (run cs a)
run-IsWatched [] a r h = h
run-IsWatched (sending x ∷ cs) a (e, r) h =
    Each-bind IsWatched IsWatched (run cs) _
      (with_sent-IsWatched x.ctl a (Linker.send_pkg x.event x.package_bytes a.link) e h)
      (λ b k. run-IsWatched cs b r k)
run-IsWatched (writable memory ctl greeting es ∷ cs) a (_, r) h =
    Each-bind IsWatched IsWatched (run cs) _ (writable-IsWatched memory ctl greeting es a h)
      (λ b k. run-IsWatched cs b r k)
run-IsWatched (shutting ∷ cs) a r h =
    Each-bind IsWatched IsWatched (run cs) _ (with_shut-IsWatched a h)
      (λ b k. run-IsWatched cs b r k)

-- A link whose connect was pending, and on which nothing waited when it came up, if each handle_ctl for
-- EPOLLOUT in send_pkg succeeds from then on: in every run of calls, greetings included, a link with
-- bytes that wait is registered for EPOLLOUT, so that the reactor goes on to write them.
pub connected_watches :
    (memory ctl : Bool) (greeting : List Sending) (es : List Event) (cs : List Call)
    (a : AsyncLinker)
    → AllRegister greeting
    → CallsRegister cs
    → a.is_connected ≡ false
    → is_empty a.link.buffers ≡ true
    → Each IsWatched (handle_output memory ctl greeting es a >>= run cs)
connected_watches memory ctl greeting es cs a all_in all_on down none_left =
    Each-bind IsWatched IsWatched (run cs) (handle_output memory ctl greeting es a)
      (if-Each IsWatched a.is_connected _ _ (λ up. absurd (true-not-false (sym up ∙ down)))
        (λ e.
          if-Each IsWatched (memory && ctl) _ _
            (λ ok.
              Each-bind Half IsWatched (λ b. some (record b { is_connected = true }))
                (send_all greeting (record a { watch_out = false }))
                (send_all-Half greeting (record a { watch_out = false }) all_in
                  (ap (λ w. w || false) none_left))
                (λ b h. record { up = refl; watched = h }))
            (λ fails. tt)))
      (λ b h. run-IsWatched cs b all_on h)
