-- ===== src/Linker/Order.antt =====
-- Runs of send_pkg, handle_output and shut on a link of tcp_linker.cpp.
use friend_serv.Base.{
  ◌>>=◌, ℕ, zero, suc, ◌+◌, ◌-◌, ◌≤◌, ◌≡◌, refl, inl, inr, Bool, true, false, Option, none, some,
  List, [], ◌∷◌, ◌++◌, ◌==◌, ==_iff, if◌then◌else◌, length, take, drop, min, arith, ap, sym, subst,
  ◌∙◌, Bool-cases, append-nil, append_assoc, take-append-drop, length-drop, take_all, drop-nil,
}
use friend_serv.TcpClient.{Event, moved, again, interrupted, failed}
use friend_serv.Linker.{Linker, is_empty, took, send_pkg, output_loop, handle_output, shut}
use friend_serv.Linker.Spread.{concat, behind-Extends}
use friend_serv.Linker.Sends.{
  pending, Fits, IsOrdered, AllOf, drop_zero, behind-IsOrdered, send_now-IsOrdered,
}

abbrev link : List (List ℕ) → ℕ → Bool → ℕ → List ℕ → Linker
link bs pos closed pool wire = record {
  buffers = bs;
  send_pos = pos;
  is_closed = closed;
  pool = pool;
  wire = wire;
}

link-send_pkg :
    (bs : List (List ℕ)) (pos : ℕ) (closed : Bool) (pool : ℕ) (wire xs buf : List ℕ) (e : Event)
    → IsOrdered xs (link bs pos closed pool wire)
    → AllOf (IsOrdered (xs ++ buf)) (send_pkg e buf (link bs pos closed pool wire))
unfolding send_pkg
link-send_pkg [] pos closed pool wire xs buf e o =
    send_now-IsOrdered (link [] pos closed pool wire) buf xs (took e (length buf)) refl o.1
      (sym (append-nil wire) ∙ o.0)
link-send_pkg (b ∷ bs) pos closed pool wire xs buf e o =
    behind-IsOrdered (link (b ∷ bs) pos closed pool wire) b bs xs buf _ o.0 o.1
      (behind-Extends (length buf + 1) pool bs b buf)

send_pkg-IsOrdered :
    (l : Linker) (xs buf : List ℕ) (e : Event)
    → IsOrdered xs l
    → AllOf (IsOrdered (xs ++ buf)) (send_pkg e buf l)
send_pkg-IsOrdered l xs buf e o =
    link-send_pkg l.buffers l.send_pos l.is_closed l.pool l.wire xs buf e o

drop-drop : (m n : ℕ) (xs : List ℕ) → drop (m + n) xs ≡ drop n (drop m xs)
drop-drop zero n xs = ap (λ k. drop k xs) (let e : 0 + n ≡ n = omega arith in e)
drop-drop (suc m) n [] = drop-nil ℕ (suc m + n) ∙ sym (drop-nil ℕ n)
drop-drop (suc m) n (x ∷ xs) =
    ap (λ k. drop k (x ∷ xs)) (let e : suc m + n ≡ suc (m + n) = omega arith in e)
    ∙ drop-drop m n xs

Fits-zero : (bs : List (List ℕ)) → Fits 0 bs
Fits-zero [] = refl
Fits-zero (b ∷ bs) = omega arith

-- The front buffer is sent to its end.
front_done :
    (r pos : ℕ) (b : List ℕ) (bs : List (List ℕ)) (wire xs : List ℕ)
    → pos + r ≡ length b
    → wire ++ (drop pos b ++ concat bs) ≡ xs
    → (wire ++ take r (drop pos b)) ++ pending 0 bs ≡ xs
front_done r pos b bs wire xs e o =
    ap (λ d. (wire ++ d) ++ pending 0 bs)
      (take_all r (drop pos b) (omega (arith, e, length-drop pos b)))
    ∙ ap (λ d. (wire ++ drop pos b) ++ d) (drop_zero bs)
    ∙ append_assoc wire (drop pos b) (concat bs)
    ∙ o

front_part :
    (r pos : ℕ) (b : List ℕ) (bs : List (List ℕ)) (wire xs : List ℕ)
    → wire ++ (drop pos b ++ concat bs) ≡ xs
    → (wire ++ take r (drop pos b)) ++ pending (pos + r) (b ∷ bs) ≡ xs
front_part r pos b bs wire xs o =
    let d = drop pos b in
    ap (λ t. (wire ++ take r d) ++ (t ++ concat bs)) (drop-drop pos r b)
    ∙ append_assoc wire (take r d) (drop r d ++ concat bs)
    ∙ ap (λ t. wire ++ t)
        (sym (append_assoc (take r d) (drop r d) (concat bs))
          ∙ ap (λ t. t ++ concat bs) (take-append-drop r d))
    ∙ o

kept :
    (bs : List (List ℕ)) (l : Linker) (xs : List ℕ)
    → l.buffers ≡ bs
    → l.wire ++ pending l.send_pos bs ≡ xs
    → Fits l.send_pos bs
    → IsOrdered xs l
kept bs l xs e o f =
    subst (λ q. (l.wire ++ pending l.send_pos q ≡ xs) × Fits l.send_pos q) (sym e) (o, f)

unless-IsOrdered :
    (closed : Bool) (l : Linker) (xs : List ℕ)
    → IsOrdered xs l
    → AllOf (IsOrdered xs) (if closed then none else some l)
unless-IsOrdered true l xs o = tt
unless-IsOrdered false l xs o = o

output_loop-IsOrdered :
    (es : List Event) (bs : List (List ℕ)) (l : Linker) (xs : List ℕ)
    → l.buffers ≡ bs
    → l.wire ++ pending l.send_pos bs ≡ xs
    → Fits l.send_pos bs
    → AllOf (IsOrdered xs) (output_loop es bs l)
unfolding output_loop
output_loop-IsOrdered es [] l xs e o f = unless-IsOrdered l.is_closed l xs (kept [] l xs e o f)
output_loop-IsOrdered [] (b ∷ bs) l xs e o f = kept (b ∷ bs) l xs e o f
output_loop-IsOrdered (again ∷ es) (b ∷ bs) l xs e o f = kept (b ∷ bs) l xs e o f
output_loop-IsOrdered (interrupted ∷ es) (b ∷ bs) l xs e o f = kept (b ∷ bs) l xs e o f
output_loop-IsOrdered (failed ∷ es) (b ∷ bs) l xs e o f = tt
output_loop-IsOrdered (moved n ∷ es) (b ∷ bs) l xs e o f =
    let r = min n (length b - l.send_pos) in
    elim (Bool-cases (r == 0)) [
      | inl z ↦ rw z tt
      | inr nz ↦ elim (Bool-cases (l.send_pos + r == length b)) [
        | inl all ↦
            let whole : l.send_pos + r ≡ length b = (==_iff _ _).0 all in
            rw (nz, all)
              (output_loop-IsOrdered es bs _ xs refl
                (front_done r l.send_pos b bs l.wire xs whole o) (Fits-zero bs))
        | inr part ↦
            let on : l.send_pos + r ≤ length b = omega (arith, f) in
            let rest =
              subst
                (λ q.
                  (((l.wire ++ take r (drop l.send_pos b)) ++ pending (l.send_pos + r) q ≡ xs)
                    × Fits (l.send_pos + r) q))
                (sym e) (front_part r l.send_pos b bs l.wire xs o, on) in
            rw (nz, part) (output_loop-IsOrdered es l.buffers _ xs refl rest.0 rest.1)
      ]
    ]

-- What the reactor and the plugin do with a link.
pub data Call : Type 0 where
  sending : Event → List ℕ → Call
  writable : List Event → Call
  shutdown : Call

abbrev pub call : Call → Linker → Option Linker
call (sending e buf) l = send_pkg e buf l
call (writable es) l = handle_output es l
call shutdown l = shut l

-- The bytes that a call is to send.
abbrev pub given : Call → List ℕ
given (sending e buf) = buf
given (writable es) = []
given shutdown = []

abbrev pub run : List Call → Linker → Option Linker
run [] l = some l
run (c ∷ cs) l = call c l >>= run cs

abbrev pub all_given : List Call → List ℕ
all_given [] = []
all_given (c ∷ cs) = given c ++ all_given cs

shut-IsOrdered : (l : Linker) (xs : List ℕ) → IsOrdered xs l → AllOf (IsOrdered xs) (shut l)
shut-IsOrdered l xs o = unless-IsOrdered (is_empty l.buffers) (record l { is_closed = true }) xs o

call-IsOrdered :
    (c : Call) (l : Linker) (xs : List ℕ)
    → IsOrdered xs l
    → AllOf (IsOrdered (xs ++ given c)) (call c l)
call-IsOrdered (sending e buf) l xs o = send_pkg-IsOrdered l xs buf e o
call-IsOrdered (writable es) l xs o =
    subst (λ ys. AllOf (IsOrdered ys) (handle_output es l)) (sym (append-nil xs))
      (output_loop-IsOrdered es l.buffers l xs refl o.0 o.1)
call-IsOrdered shutdown l xs o =
    subst (λ ys. AllOf (IsOrdered ys) (shut l)) (sym (append-nil xs)) (shut-IsOrdered l xs o)

bind-AllOf :
    (P Q : Linker → Type 0) (o : Option Linker) (next : Linker → Option Linker)
    → AllOf P o
    → ((l : Linker) → P l → AllOf Q (next l))
    → AllOf Q (o >>= next)
bind-AllOf P Q none next p all = tt
bind-AllOf P Q (some l) next p all = all l p

-- Over any calls of send_pkg, handle_output and shut, with any answers of the kernel and any supply
-- of buffers, a link that is still up has put a prefix of all packages given to it on the wire, and
-- holds exactly the rest: no byte is lost, doubled or moved.
pub run-IsOrdered :
    (cs : List Call) (l : Linker) (xs : List ℕ)
    → IsOrdered xs l
    → AllOf (IsOrdered (xs ++ all_given cs)) (run cs l)
run-IsOrdered [] l xs o = subst (λ ys. IsOrdered ys l) (sym (append-nil xs)) o
run-IsOrdered (c ∷ cs) l xs o =
    bind-AllOf (IsOrdered (xs ++ given c)) (IsOrdered (xs ++ all_given (c ∷ cs))) (call c l)
      (run cs) (call-IsOrdered c l xs o)
      (λ l' o'.
        subst (λ ys. AllOf (IsOrdered ys) (run cs l')) (append_assoc xs (given c) (all_given cs))
          (run-IsOrdered cs l' (xs ++ given c) o'))
