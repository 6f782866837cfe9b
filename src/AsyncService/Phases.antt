-- ===== src/AsyncService/Phases.antt =====
-- The phases of an AsyncService of common/service.cpp.
use friend_serv.Base.{
  ℕ, ◌-◌, ◌≡◌, refl, Bool, true, false, ◌||◌, Option, none, some, List, [], ◌∷◌, ==_self, ltb, leb,
  if◌then◌else◌, arith, subst,
}
use friend_serv.AsyncService.{
  AsyncService, Opened, descriptor, refused, bad_params, find, shut, opened, connect, init, reinit,
  link_down, send, set_service_connected, set_service_disconnected,
}

-- Linked: chosen by strategies, registered under its descriptor, not waiting. Linking: registered
-- and waiting, but never chosen. Down: no descriptor and no entry.
pub data Phase : AsyncService → Type 0 where
  linked :
      (fd time ms : ℕ) (forbidden : Bool)
      → Phase (record {
        fd = some fd;
        connecting = false;
        connect_time_ms = time;
        enabled = true;
        waiting = false;
        timeout_ms = ms;
        forbidden = forbidden;
        fds = (fd, true) ∷ [];
      })
  linking :
      (fd time ms : ℕ) (forbidden : Bool)
      → Phase (record {
        fd = some fd;
        connecting = true;
        connect_time_ms = time;
        enabled = false;
        waiting = true;
        timeout_ms = ms;
        forbidden = forbidden;
        fds = (fd, true) ∷ [];
      })
  down :
      (time ms : ℕ) (forbidden waiting : Bool)
      → Phase (record {
        fd = none;
        connecting = false;
        connect_time_ms = time;
        enabled = false;
        waiting = waiting;
        timeout_ms = ms;
        forbidden = forbidden;
        fds = [];
      })

-- The calls: by the owner, by the timer, and by the event loop for a registered descriptor.
pub data Step : AsyncService → AsyncService → Type 0 where
  init_step : (o : Opened) (now : ℕ) (s : AsyncService) → Step s (init o now s).1
  reinit_step : (o : Opened) (now : ℕ) (s : AsyncService) → Step s (reinit o now s).1
  shut_step : (s : AsyncService) → Step s (shut s)
  send_step : (sent : Bool) (buf : List ℕ) (s : AsyncService) → Step s (send sent buf s).1
  connected_step :
      (fd : ℕ) (s t : AsyncService)
      → find s.fds fd ≡ some true
      → set_service_connected fd s ≡ some t
      → Step s t
  disconnected_step :
      (fd : ℕ) (s : AsyncService)
      → find s.fds fd ≡ some true
      → Step s (set_service_disconnected fd s)

pub data Reach (s : AsyncService) : AsyncService → Type 0 where
  here : Reach s s
  next : {t u : AsyncService} → Reach s t → Step t u → Reach s u

shut-Phase : {s : AsyncService} → Phase s → Phase (shut s)
shut-Phase (linked fd time ms f) = rw (==_self fd) (down time ms f false)
shut-Phase (linking fd time ms f) = rw (==_self fd) (down time ms f false)
shut-Phase (down time ms f w) = down time ms f false

link_down-Phase : {s : AsyncService} → Phase s → Phase (link_down s)
link_down-Phase (linked fd time ms f) = rw (==_self fd) (down time ms f true)
link_down-Phase (linking fd time ms f) = rw (==_self fd) (down time ms f true)
link_down-Phase (down time ms f w) = down time ms f true

opened-Phase :
    (o : Opened) (now time ms : ℕ) (f w : Bool) {s : AsyncService}
    → s ≡ record {
      fd = none;
      connecting = false;
      connect_time_ms = time;
      enabled = false;
      waiting = w;
      timeout_ms = ms;
      forbidden = f;
      fds = [];
    }
    → Phase (opened o now s).1
opened-Phase (descriptor fd) now time ms f w e = rw e (linking fd now ms f)
opened-Phase refused now time ms f w e = rw e (down time ms f true)
opened-Phase bad_params now time ms f w e = rw e (down time ms f false)

if-Phase :
    (b : Bool) (x y : Bool × AsyncService) → Phase x.1 → Phase y.1 → Phase (if b then x else y).1
if-Phase true x y l r = l
if-Phase false x y l r = r

connect-Phase :
    (o : Opened) (now : ℕ) {s : AsyncService}
    → Phase s
    → s.enabled ≡ false
    → Phase (connect o now s).1
connect-Phase o now (linked fd time ms f) e = absurd (grind arith)
connect-Phase o now (linking fd time ms f) e =
    if-Phase (leb (now - time) ms) _ _ (linking fd time ms f)
      (opened-Phase o now time ms f false (rw (==_self fd) refl))
connect-Phase o now (down time ms f w) e = opened-Phase o now time ms f w refl

init-Phase : (o : Opened) (now : ℕ) {s : AsyncService} → Phase s → Phase (init o now s).1
unfolding init
init-Phase o now (linked fd time ms f) = shut-Phase (linked fd time ms f)
init-Phase o now (linking fd time ms f) =
    let p = linking fd time ms f in
    if-Phase (ltb ms 1 || ltb 10000 ms) _ _ (shut-Phase p)
      (if-Phase f _ _ (shut-Phase p) (connect-Phase o now p refl))
init-Phase o now (down time ms f w) =
    let p = down time ms f w in
    if-Phase (ltb ms 1 || ltb 10000 ms) _ _ (shut-Phase p)
      (if-Phase f _ _ (shut-Phase p) (connect-Phase o now p refl))

reinit-Phase : (o : Opened) (now : ℕ) {s : AsyncService} → Phase s → Phase (reinit o now s).1
reinit-Phase o now (linked fd time ms f) = init-Phase o now (rw (==_self fd) (down time ms f false))
reinit-Phase o now (linking fd time ms f) = init-Phase o now (linking fd time ms f)
reinit-Phase o now (down time ms f w) = init-Phase o now (down time ms f false)

waiting-Phase : {s : AsyncService} → Phase s → Phase (record (shut s) { waiting = true })
waiting-Phase (linked fd time ms f) = rw (==_self fd) (down time ms f true)
waiting-Phase (linking fd time ms f) = rw (==_self fd) (down time ms f true)
waiting-Phase (down time ms f w) = down time ms f true

send-Phase : (sent : Bool) (buf : List ℕ) {s : AsyncService} → Phase s → Phase (send sent buf s).1
send-Phase sent [] p = p
send-Phase true (x ∷ buf) p = p
send-Phase false (x ∷ buf) p = waiting-Phase p

abbrev PhaseOf : Option AsyncService → Type 0
PhaseOf none = Unit
PhaseOf (some s) = Phase s

connected-PhaseOf :
    (fd : ℕ) (s : AsyncService)
    → Phase s
    → find s.fds fd ≡ some true
    → PhaseOf (set_service_connected fd s)
connected-PhaseOf fd _ (linked g time ms f) e = rw e (linked g time ms f)
connected-PhaseOf fd _ (linking g time ms f) e = rw e (linked g time ms f)
connected-PhaseOf fd _ (down time ms f w) e = absurd (grind arith)

disconnected-Phase :
    (fd : ℕ) (s : AsyncService)
    → Phase s
    → find s.fds fd ≡ some true
    → Phase (set_service_disconnected fd s)
disconnected-Phase fd _ (linked g time ms f) e = rw e (link_down-Phase (linked g time ms f))
disconnected-Phase fd _ (linking g time ms f) e = rw e (link_down-Phase (linking g time ms f))
disconnected-Phase fd _ (down time ms f w) e = absurd (grind arith)

Step-Phase : {s t : AsyncService} → Step s t → Phase s → Phase t
Step-Phase (init_step o now s) p = init-Phase o now p
Step-Phase (reinit_step o now s) p = reinit-Phase o now p
Step-Phase (shut_step s) p = shut-Phase p
Step-Phase (send_step sent buf s) p = send-Phase sent buf p
Step-Phase (connected_step fd s t e c) p = subst PhaseOf c (connected-PhaseOf fd s p e)
Step-Phase (disconnected_step fd s e) p = disconnected-Phase fd s p e

-- Whatever Init, ReInit, Shut and Send are called on a service, and whatever connections and
-- disconnections the event loop reports for descriptors registered for it, in any order and at any
-- times, a service in one of the phases linked, linking and down stays in one of them.
pub Reach-Phase : {s t : AsyncService} → Reach s t → Phase s → Phase t
Reach-Phase here p = p
Reach-Phase (next steps step) p = Step-Phase step (Reach-Phase steps p)
