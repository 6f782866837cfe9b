-- ===== src/Replicas/Sync.antt =====
-- SyncServiceReplicas of common/service_replicas.h: the services are SyncServices, each with the
-- network on its socket.
use friend_serv.Base.{
  ℕ, ◌<◌, ◌≡◌, refl, Bool, true, false, ◌||◌, List, [], ◌∷◌, ◌++◌, Option, none, some,
  if◌then◌else◌, ltb, length, subst, sym, ◌∙◌, ap,
}
use friend_serv.Config.{HostInfo}
use friend_serv.SyncService
use friend_serv.TcpClient.{send, recv}
use friend_serv.SyncService.{
  SyncService, Connect, connected, invalid_host, unreachable, Net, Result, shut, on_connect,
  connect, init, send_and_recv, is_done, after_send, after_recv, answered, give_up,
}
use friend_serv.Level.{Parts, Answer, answers, waits}
use friend_serv.Level.Sound.{FailsOff, Gives, if-Gives, bind-Gives}
use friend_serv.Level.Failed.{any-Gives}
use friend_serv.Level.Failover.{EachFalls, Holds}
use friend_serv.Level.Recovery.{Recovered, retry, retry_recovers}
use friend_serv.Replicas.{ISendAndRecv, Replicas}
use friend_serv.Replicas

-- A service, what `connect` gives it, and its side of the network.
pub record Peer : Type 0 where
  pub service : SyncService
  pub network : Connect
  pub net : Net

-- `SyncService(hi)`
abbrev pub new_service : HostInfo → SyncService
new_service hi = record {
  alive = false;
  enabled = false;
  waiting = false;
  timeout_ms = hi.timeout_ms;
  forbidden = hi.forbidden;
}

abbrev with_service : Peer → Bool × SyncService → Bool × Peer
with_service c (ok, s) = (ok, record c { service = s })

-- CreateService and the members that ServiceReplicas uses. `memory` is whether `new` gives the service
-- at that place, `peer` what the network holds for its host.
abbrev pub sync_parts :
    (memory : List ℕ → Bool) → (peer : List ℕ → HostInfo → Connect × Net) → Parts HostInfo Peer
sync_parts memory peer = record {
  create = λ path hi.
      if memory path
      then some
          (record { service = new_service hi; network = (peer path hi).0; net = (peer path hi).1 })
      else none;
  init_child = λ path hi c. some (with_service c (init c.network c.service));
  is_enable = λ c. c.service.enabled;
  destroy = λ c. true;
  memory = memory [];
}

abbrev received : Peer → Option Result → Answer (List ℕ) Peer
received c none = waits
received c (some r) = answers r.ok r.out (record c { service = r.service; net = r.net })

-- `SyncService` as an ISendAndRecv.
abbrev pub sync_service : ISendAndRecv Peer
sync_service = record {
  send_and_recv = λ in_buf n c. received c (send_and_recv c.service in_buf n c.net);
  send_and_recv_proto =
      λ in_buf n c. received c (SyncService.send_and_recv_proto c.service in_buf n c.net);
}

-- A result false comes with a disabled service.
abbrev Off : Result → Type 0
Off r = r.ok ≡ false → r.service.enabled ≡ false

either-Off :
    (s : SyncService) (b : Bool) (out : List ℕ) (net net' : Net)
    → Gives Off (some (if b then answered s out net else give_up s net'))
either-Off s true out net net' = λ e. cc
either-Off s false out net net' = λ e. refl

send_and_recv-Off :
    (s : SyncService) (in_buf : List ℕ) (n : ℕ) (net : Net)
    → Gives Off (send_and_recv s in_buf n net)
unfolding send_and_recv
send_and_recv-Off s in_buf n net =
    bind-Gives Off (λ _. Unit {0}) (send s.alive in_buf net.events) _ (any-Gives _)
      (λ sent _.
        let net1 = after_send net sent in
        if-Gives Off (is_done sent.ret) _ _
          (bind-Gives Off (λ _. Unit {0}) (recv sent.alive n net1.incoming net1.events) _
            (any-Gives _) (λ got _. either-Off s (is_done got.ret) _ _ _))
          (λ _. refl))

-- Init that returns false leaves the service disabled.
abbrev Shy : Bool × SyncService → Type 0
Shy r = r.0 ≡ false → r.1.enabled ≡ false

on_connect-Shy : (c : Connect) (s : SyncService) → s.enabled ≡ false → Shy (on_connect s c)
on_connect-Shy connected s off = λ e. cc
on_connect-Shy invalid_host s off = λ e. off
on_connect-Shy unreachable s off = λ e. cc

if-Shy : (b : Bool) (x y : Bool × SyncService) → Shy x → Shy y → Shy (if b then x else y)
if-Shy true x y l r = l
if-Shy false x y l r = r

init-Shy : (c : Connect) (s : SyncService) → s.enabled ≡ false → Shy (init c s)
unfolding init
init-Shy c s off =
    if-Shy (s.enabled || (ltb s.timeout_ms 1 || ltb 10000 s.timeout_ms)) _ _ (λ _. refl)
      (if-Shy s.forbidden _ _ (λ _. refl) (on_connect-Shy (connect s.alive c) s off))

service_of : Option Peer → Peer → SyncService
service_of none a = a.service
service_of (some c) a = c.service

given-service :
    (b : Bool) (a c : Peer) → (if b then some a else none) ≡ some c → a.service ≡ c.service
unfolding service_of
given-service true a c e = ap (λ (o : Option Peer). service_of o a) e
given-service false a c e = absurd (cc)

abbrev Late : Option (Bool × Peer) → Type 0
Late none = Unit
Late (some (ok, c)) = ok ≡ false → c.service.enabled ≡ false

module _ (memory : List ℕ → Bool) (peer : List ℕ → HostInfo → Connect × Net) where
  abbrev parts : Parts HostInfo Peer
  parts = sync_parts memory peer

  pub sync_parts-FailsOff : FailsOff parts
  sync_parts-FailsOff path hi c c' e e' =
      let fresh = given-service (memory path) _ c e in
      let shy = init-Shy c.network c.service (sym (ap (λ s. s.enabled) fresh)) in
      subst Late e' shy refl

  -- The exchange with this service ends, whatever its result.
  abbrev pub EachEnds : List ℕ → ℕ → List Peer → Type 0
  EachEnds in_buf n [] = Unit
  EachEnds in_buf n (c ∷ cs) =
      ((r : Result) × (send_and_recv c.service in_buf n c.net ≡ some r)) × EachEnds in_buf n cs

  EachEnds-Falls :
      (in_buf : List ℕ) (n : ℕ) (cs : List Peer)
      → EachEnds in_buf n cs
      → EachFalls parts (sync_service.send_and_recv in_buf n) cs
  EachEnds-Falls in_buf n [] h = tt
  EachEnds-Falls in_buf n (c ∷ cs) ((r, e), h) = (
    λ _. (
      r.ok,
      r.out,
      record c { service = r.service; net = r.net },
      ap (received c) e,
      subst (Gives Off) e (send_and_recv-Off c.service in_buf n c.net),
    ),
    EachEnds-Falls in_buf n cs h,
  )

  -- SendAndRecv of SyncServiceReplicas, called again and again under the fixed strategy, comes to true
  -- in as many calls as there are services up to the first one that is enabled and whose exchange
  -- succeeds, if the exchanges with the services before it end. Then the services are these: some, from the
  -- first on, that are disabled, each as it was, where it was disabled before, and else as an exchange that
  -- failed left it; the one that answered, which was enabled, as its exchange left it; and those behind, as
  -- they were. What the caller gets is the answer of that one.
  pub send_and_recv_recovers :
      (rounds : ℕ) (r : Replicas Peer) (in_buf : List ℕ) (n : ℕ) (before : List Peer) (good : Peer)
      (rest : List Peer) (res : Result)
      → Holds parts [] (sync_service.send_and_recv in_buf n) r (before ++ good ∷ rest)
      → EachEnds in_buf n before
      → good.service.enabled ≡ true
      → send_and_recv good.service in_buf n good.net ≡ some res
      → res.ok ≡ true
      → length before < rounds
      → (out : List ℕ) × (r' : Replicas Peer) × (retry rounds
            (Replicas.send_and_recv parts sync_service in_buf n)
            []
            r
          ≡ answers true out r')
        × Recovered parts [] (sync_service.send_and_recv in_buf n) [] (before ++ good ∷ rest) out r'
  send_and_recv_recovers rounds r in_buf n before good rest res h ends on e ok enough =
      retry_recovers parts [] (sync_service.send_and_recv in_buf n) rounds r [] before good rest
        res.out (record good { service = res.service; net = res.net }) h refl
        (EachEnds-Falls in_buf n before ends) on
        (ap (received good) e
          ∙ ap (λ b. answers b res.out (record good { service = res.service; net = res.net })) ok)
        enough
