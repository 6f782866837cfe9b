-- ===== src/SyncService/Exchange.antt =====
-- A request and its answer through SendAndRecv of common/service.cpp.
use friend_serv.Base.{
  ℕ, ◌+◌, ◌-◌, ◌≤◌, ◌≡◌, ◌≢◌, refl, true, false, some, List, [], ◌++◌, ltb, le→ltb, arith, length,
  ap, sym, subst, ◌∙◌,
}
use friend_serv.TcpClient.{Event, Outcome, send, recv}
use friend_serv.TcpClient.Sending.{Progress, send_finishes}
use friend_serv.TcpClient.Receiving.{recv_finishes}
use friend_serv.SyncService.{
  SyncService, Net, answered, proto_len, after_send, after_recv, send_and_recv_proto, recv_body,
  recv_proto,
}

module _ (s : SyncService) (head body more : List ℕ) (out_buf_len k : ℕ) (four : length head ≡ 4)
    (len : proto_len head ≡ 4 + length body) where
  recv_body-answered :
      (net : Net) (o : Outcome)
      → o.alive ≡ true
      → o.done ≡ head
      → net.incoming ≡ body ++ more
      → length body ≢ 0
      → Progress (length body + k) net.events
      → (events : List Event) × (recv_body s o net
          ≡ some (
              answered s
                (head ++ body)
                (record { wire = net.wire; incoming = more; events = events })))
  unfolding recv_body
  recv_body-answered net o live done stream some_bytes p =
      let got = recv_finishes k body more net.events some_bytes p in
      let want : proto_len head - 4 ≡ length body = omega (arith, len) in
      rw (live, done, want, stream, got.1, got.2, got.3, got.4) (got.0.events, refl)

  recv_proto-answered :
      (net : Net) (o : Outcome)
      → o.alive ≡ true
      → net.incoming ≡ head ++ (body ++ more)
      → 4 ≤ length body
      → 4 + length body ≤ out_buf_len
      → Progress (4 + (length body + k)) net.events
      → (events : List Event) × (recv_proto s out_buf_len o net
          ≡ some (
              answered s
                (head ++ body)
                (record { wire = net.wire; incoming = more; events = events })))
  unfolding recv_proto
  recv_proto-answered net o live stream low high p =
      let p4 = subst (λ n. Progress (n + (length body + k)) net.events) (sym four) p in
      let some_head : length head ≢ 0 = λ z. absurd (omega (arith, z, four)) in
      let got = recv_finishes (length body + k) head (body ++ more) net.events some_head p4 in
      let call : recv true 4 (head ++ (body ++ more)) net.events ≡ some got.0 =
        subst (λ n. recv true n (head ++ (body ++ more)) net.events ≡ some got.0) four got.1 in
      let plen : proto_len got.0.done ≡ 4 + length body = ap proto_len got.3 ∙ len in
      let small : ltb (4 + length body) 8 ≡ false = le→ltb (4 + length body) 8 (omega arith) in
      let fits : ltb out_buf_len (4 + length body) ≡ false = le→ltb out_buf_len _ high in
      let rest =
        recv_body-answered (after_recv net got.0) got.0 got.5 got.3 got.4
          (λ z. absurd (omega (arith, z, low))) got.6 in
      rw (live, stream, call, got.2, plen, small, fits) rest

-- Where the peer's stream holds an answer whose first four bytes are its length, at least 8 and no
-- more than the buffer, and the kernel makes progress for the bytes of the request and the answer,
-- in pieces of any size and with any signals between, SendAndRecv sends the whole request, returns
-- true with exactly the answer, leaves what follows in the stream, and the service as it was.
pub send_and_recv_proto-answered :
    (s : SyncService) (in_buf head body more : List ℕ) (out_buf_len : ℕ) (net : Net)
    → s.alive ≡ true
    → in_buf ≢ []
    → length head ≡ 4
    → proto_len head ≡ 4 + length body
    → 4 ≤ length body
    → 4 + length body ≤ out_buf_len
    → net.incoming ≡ head ++ (body ++ more)
    → Progress (length in_buf + (4 + (length body + 0))) net.events
    → (events : List Event) × (send_and_recv_proto s in_buf out_buf_len net
        ≡ some (
            answered s
              (head ++ body)
              (record { wire = net.wire ++ in_buf; incoming = more; events = events })))
unfolding send_and_recv_proto
send_and_recv_proto-answered s in_buf head body more out_buf_len net live some_in four len low high
      stream p =
    let sent = send_finishes (4 + (length body + 0)) in_buf net.events some_in p in
    let room : ltb out_buf_len 8 ≡ false = le→ltb out_buf_len 8 (omega (arith, low, high)) in
    let net1 = after_send net sent.0 in
    let rest =
      recv_proto-answered s head body more out_buf_len 0 four len net1 sent.0 sent.4 stream low high
        sent.5 in
    let wire : net1.wire ≡ net.wire ++ in_buf = ap (λ b. net.wire ++ b) sent.3 in
    let call : send s.alive in_buf net.events ≡ some sent.0 =
      subst (λ b. send b in_buf net.events ≡ some sent.0) (sym live) sent.1 in
    rw (room, call, sent.2)
      (
        rest.0,
        rest.1
            ∙ ap
                (λ w. some (
                  answered s (head ++ body)
                    (record { wire = w; incoming = more; events = rest.0 })))
                wire,
      )
