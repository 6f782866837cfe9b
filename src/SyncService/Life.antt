-- ===== src/SyncService/Life.antt =====
-- The states that a SyncService of common/service.cpp goes through.
use friend_serv.Base.{
  ◌>>=◌, ℕ, ◌≡◌, refl, ◌⊎◌, inl, inr, Bool, true, false, ◌||◌, ◌&&◌, Option, none, some, List, ltb,
  if◌then◌else◌, subst, sym, ◌-◌,
}
use friend_serv.TcpClient.{Outcome, send, recv}
use friend_serv.SyncService.{
  SyncService, Connect, connected, invalid_host, unreachable, Net, Result, shut, set_to_reinit,
  answered, give_up, proto_len, after_send, after_recv, send_and_recv, send_and_recv_proto, is_done,
  recv_body, recv_proto, init, reinit, connect, on_connect,
}

-- The socket is open exactly where the service can be chosen, and such a service is not in the set.
abbrev pub IsSound : SyncService → Type 0
IsSound s = (s.alive ≡ s.enabled) × ((s.enabled && s.waiting) ≡ false)

-- How SendAndRecv can leave the service: as it was; or closed and in the set.
abbrev pub Left : SyncService → Option Result → Type 0
Left s none = Unit
Left s (some r) = (r.service ≡ s) ⊎ ((r.ok ≡ false) × (r.service ≡ set_to_reinit (shut s)))

module _ (s : SyncService) where
  bind-Left :
      (o : Option Outcome) (next : Outcome → Option Result)
      → ((got : Outcome) → Left s (next got))
      → Left s (o >>= next)
  bind-Left none next all = tt
  bind-Left (some got) next all = all got

  if-Left : (b : Bool) (x y : Option Result) → Left s x → Left s y → Left s (if b then x else y)
  if-Left true x y l r = l
  if-Left false x y l r = r

  give-Left : (net : Net) → Left s (some (give_up s net))
  give-Left net = inr (refl, refl)

  either-Left :
      (b : Bool) (out : List ℕ) (net net' : Net)
      → Left s (some (if b then answered s out net else give_up s net'))
  either-Left true out net net' = inl refl
  either-Left false out net net' = inr (refl, refl)

  recv_body-Left : (head : Outcome) (net : Net) → Left s (recv_body s head net)
  unfolding recv_body
  recv_body-Left head net =
      bind-Left (recv head.alive (proto_len head.done - 4) net.incoming net.events) _
        (λ body. either-Left (is_done body.ret) _ _ _)

  recv_proto-Left : (n : ℕ) (sent : Outcome) (net : Net) → Left s (recv_proto s n sent net)
  unfolding recv_proto
  recv_proto-Left n sent net = bind-Left (recv sent.alive 4 net.incoming net.events) _ (λ head.
      let net' = after_recv net head in
      if-Left (is_done head.ret) _ _
        (if-Left (ltb (proto_len head.done) 8 || ltb n (proto_len head.done)) _ _ (give-Left net')
          (recv_body-Left head net'))
        (give-Left net'))

  send_and_recv_proto-Left :
      (in_buf : List ℕ) (n : ℕ) (net : Net) → Left s (send_and_recv_proto s in_buf n net)
  unfolding send_and_recv_proto
  send_and_recv_proto-Left in_buf n net = if-Left (ltb n 8) _ _ (inl refl) (
      bind-Left (send s.alive in_buf net.events) _ (λ sent.
        if-Left (is_done sent.ret) _ _ (recv_proto-Left n sent (after_send net sent))
          (give-Left (after_send net sent))))

  send_and_recv-Left : (in_buf : List ℕ) (n : ℕ) (net : Net) → Left s (send_and_recv s in_buf n net)
  unfolding send_and_recv
  send_and_recv-Left in_buf n net = bind-Left (send s.alive in_buf net.events) _ (λ sent.
      let net1 = after_send net sent in
      if-Left (is_done sent.ret) _ _
        (bind-Left (recv sent.alive n net1.incoming net1.events) _
          (λ got. either-Left (is_done got.ret) _ _ _))
        (give-Left net1))

-- What the program does with a service: Init, ReInit, Shut, and the two forms of SendAndRecv, on any
-- network and any answers of the kernel.
pub data Step : SyncService → SyncService → Type 0 where
  init_step : (c : Connect) (s : SyncService) → Step s (init c s).1
  reinit_step : (c : Connect) (s : SyncService) → Step s (reinit c s).1
  shut_step : (s : SyncService) → Step s (shut s)
  fixed_step :
      (s : SyncService) (in_buf : List ℕ) (out_len : ℕ) (net : Net) (r : Result)
      → send_and_recv s in_buf out_len net ≡ some r
      → Step s r.service
  proto_step :
      (s : SyncService) (in_buf : List ℕ) (out_buf_len : ℕ) (net : Net) (r : Result)
      → send_and_recv_proto s in_buf out_buf_len net ≡ some r
      → Step s r.service

pub data Reach (s : SyncService) : SyncService → Type 0 where
  here : Reach s s
  next : {t u : SyncService} → Reach s t → Step t u → Reach s u

shut-IsSound : (s : SyncService) → IsSound (shut s)
shut-IsSound s = (refl, refl)

on_connect-IsSound : (c : Connect) (s : SyncService) → IsSound s → IsSound (on_connect s c).1
on_connect-IsSound connected s sound = (refl, refl)
on_connect-IsSound invalid_host s sound = sound
on_connect-IsSound unreachable s sound = (refl, refl)

if-IsSound :
    (b : Bool) (x y : Bool × SyncService)
    → IsSound x.1
    → IsSound y.1
    → IsSound (if b then x else y).1
if-IsSound true x y l r = l
if-IsSound false x y l r = r

init-IsSound : (c : Connect) (s : SyncService) → IsSound s → IsSound (init c s).1
unfolding init
init-IsSound c s sound =
    if-IsSound (s.enabled || (ltb s.timeout_ms 1 || ltb 10000 s.timeout_ms)) _ _ (shut-IsSound s)
      (if-IsSound s.forbidden _ _ (shut-IsSound s) (on_connect-IsSound (connect s.alive c) s sound))

Left-IsSound : (s : SyncService) (r : Result) → Left s (some r) → IsSound s → IsSound r.service
Left-IsSound s r (inl same) sound = subst IsSound (sym same) sound
Left-IsSound s r (inr gone) sound = subst IsSound (sym gone.1) (refl, refl)

Step-IsSound : {s t : SyncService} → Step s t → IsSound s → IsSound t
Step-IsSound (init_step c s) sound = init-IsSound c s sound
Step-IsSound (reinit_step c s) sound = init-IsSound c (shut s) (shut-IsSound s)
Step-IsSound (shut_step s) sound = shut-IsSound s
Step-IsSound (fixed_step s in_buf n net r e) sound =
    Left-IsSound s r (subst (Left s) e (send_and_recv-Left s in_buf n net)) sound
Step-IsSound (proto_step s in_buf n net r e) sound =
    Left-IsSound s r (subst (Left s) e (send_and_recv_proto-Left s in_buf n net)) sound

-- Whatever Init, ReInit, Shut and SendAndRecv are called on a service whose socket is open exactly
-- where it is enabled and that does not wait then, in any order and with any network, it stays so:
-- a strategy never chooses a closed service, and no socket is left open behind a disabled one.
pub Reach-IsSound : {s t : SyncService} → Reach s t → IsSound s → IsSound t
Reach-IsSound here sound = sound
Reach-IsSound (next steps step) sound = Step-IsSound step (Reach-IsSound steps sound)
