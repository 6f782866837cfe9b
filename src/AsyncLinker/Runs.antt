-- ===== src/AsyncLinker/Runs.antt =====
-- Runs of calls on a link of tcp_async_linker.cpp.
use friend_serv.Base.{
  ◌≡◌, refl, Bool, true, false, List, [], ◌∷◌, Option, none, some, ◌>>=◌, if◌then◌else◌,
}
use friend_serv.TcpClient.{Event}
use friend_serv.AsyncLinker.{AsyncLinker, Sending, send_pkg, send_all, handle_output, shut}

-- The calls on a link: those of the plugin, and those of the reactor, which calls handle_output only
-- where the link is registered for it.
pub data Call : Type 0 where
  sending : Sending → Call
  writable : (memory ctl : Bool) → List Sending → List Event → Call
  shutting : Call

abbrev pub call : Call → AsyncLinker → Option AsyncLinker
call (sending x) a = send_pkg x a
call (writable memory ctl greeting es) a =
    if a.watch_out then handle_output memory ctl greeting es a else some a
call shutting a = shut a

abbrev pub run : List Call → AsyncLinker → Option AsyncLinker
run [] a = some a
run (c ∷ cs) a = call c a >>= run cs

-- Of a link that was not ended.
abbrev pub Each : (AsyncLinker → Type 0) → Option AsyncLinker → Type 0
Each P none = Unit
Each P (some a) = P a

pub Each-bind :
    (P Q : AsyncLinker → Type 0) (f : AsyncLinker → Option AsyncLinker) (x : Option AsyncLinker)
    → Each P x
    → ((a : AsyncLinker) → P a → Each Q (f a))
    → Each Q (x >>= f)
Each-bind P Q f none h k = tt
Each-bind P Q f (some a) h k = k a h

pub if-Each :
    (P : AsyncLinker → Type 0) (b : Bool) (x y : Option AsyncLinker)
    → (b ≡ true → Each P x)
    → (b ≡ false → Each P y)
    → Each P (if b then x else y)
if-Each P true x y l r = l refl
if-Each P false x y l r = r refl

pub true-not-false : true ≡ false → ⊥
true-not-false e = cc

pub run-Each :
    (P : AsyncLinker → Type 0)
    → ((c : Call) (a : AsyncLinker) → P a → Each P (call c a))
    → (cs : List Call) (a : AsyncLinker) → P a
    → Each P (run cs a)
run-Each P keeps [] a h = h
run-Each P keeps (c ∷ cs) a h =
    Each-bind P P (run cs) (call c a) (keeps c a h) (λ b k. run-Each P keeps cs b k)

pub send_all-Each :
    (P : AsyncLinker → Type 0)
    → ((x : Sending) (a : AsyncLinker) → P a → Each P (send_pkg x a))
    → (xs : List Sending) (a : AsyncLinker) → P a
    → Each P (send_all xs a)
send_all-Each P keeps [] a h = h
send_all-Each P keeps (x ∷ xs) a h =
    Each-bind P P (send_all xs) (send_pkg x a) (keeps x a h) (λ b k. send_all-Each P keeps xs b k)
