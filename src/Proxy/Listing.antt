-- ===== src/Proxy/Listing.antt =====
-- What QueryList, QueryListByGroup and QueryFansList of buf_processor.cpp answer.
use friend_serv.Base.{
  ℕ, zero, suc, ◌+◌, ◌*◌, ◌/◌, ◌%◌, ◌^◌, ◌≤◌, ◌<◌, ◌≡◌, refl, true, some, List, [], ◌∷◌, ◌++◌,
  arith, length, length-append, take, drop, get_or, get_elem?, drop-eq-cons, leb, append_assoc,
  append-nil, ◌∙◌, ap, ap₂, sym, min, if◌then◌else◌, ◌==◌,
}
use friend_serv.Proxy.Redis.{Redis, Command, Reply}
use friend_serv.Proxy.Packet.{
  Packet, Header, init, header_size, max_buf_len, put, u32, grow, finish,
}
use friend_serv.Proxy.Query.{
  idol_infos, idol_count, idol_answer, idol_reply, as_session, query_list, last_index,
}
use friend_serv.Proxy.Replies.{on}
use friend_serv.Proxy.Meaning.{replied-some}
use friend_serv.Proxy.Decimal.{printed, atoi-printed}

-- Members and scores as WITHSCORES lists them.
abbrev pub scored : List (ℕ × ℕ) → List (List ℕ)
scored [] = []
scored (x ∷ xs) = printed x.0 ∷ printed x.1 ∷ scored xs

-- The `idol_info` structures of members and scores.
abbrev pub packed : List (ℕ × ℕ) → List ℕ
packed [] = []
packed (x ∷ xs) = (u32 (x.0 % 2 ^ 32) ++ u32 (x.1 % 2 ^ 32)) ++ packed xs

abbrev nobody : ℕ × ℕ
nobody = (0, 0)

get_elem?-scored :
    (xs : List (ℕ × ℕ)) (i : ℕ)
    → i < length xs
    → (get_elem? (scored xs) (2 * i) ≡ some (printed (get_or xs i nobody).0))
      × (get_elem? (scored xs) (2 * i + 1) ≡ some (printed (get_or xs i nobody).1))
get_elem?-scored [] i h = absurd (omega arith)
get_elem?-scored (x ∷ xs) zero h = (refl, refl)
get_elem?-scored (x ∷ xs) (suc i) h =
    let even : 2 * suc i ≡ suc (suc (2 * i)) = omega arith in
    let odd : 2 * suc i + 1 ≡ suc (suc (2 * i + 1)) = omega arith in
    let rest = get_elem?-scored xs i (omega arith) in (rw even rest.0, rw odd rest.1)

put_room :
    (bytes : List ℕ) (p : Packet)
    → header_size + (length p.body + length bytes) ≤ max_buf_len
    → put bytes p ≡ some (record p { body = p.body ++ bytes })
unfolding put
put_room bytes p h =
    let e : leb (header_size + (length p.body + length bytes)) max_buf_len ≡ true = ground arith in
    rw e refl

sized :
    (p : Packet) (a b : ℕ) (bs cs : List ℕ)
    → a ≡ b
    → bs ≡ cs
    → some (record p { pkg_len = a; body = bs }) ≡ some (record p { pkg_len = b; body = cs })
sized p a b bs cs e f = ap₂ (λ n xs. some (record p { pkg_len = n; body = xs })) e f

idol_infos-scored :
    (n i : ℕ) (xs : List (ℕ × ℕ)) (p : Packet)
    → n + i ≤ length xs
    → header_size + (length p.body + 8 * n) ≤ max_buf_len
    → p.pkg_len ≡ header_size + length p.body
    → idol_infos n i (scored xs) p
      ≡ some (record p {
        pkg_len = header_size + (length p.body + 8 * n);
        body = p.body ++ packed (take n (drop i xs));
      })
unfolding idol_infos
idol_infos-scored zero i xs p h room e =
    sized p _ _ _ _ (omega (arith, e)) (sym (append-nil p.body))
idol_infos-scored (suc n) i xs p h room e =
    let x = get_or xs i nobody in
    let found = get_elem?-scored xs i (omega arith) in
    let bytes = u32 (x.0 % 2 ^ 32) ++ u32 (x.1 % 2 ^ 32) in
    let p1 = grow 8 (record p { body = p.body ++ bytes }) in
    let longer : length (p.body ++ bytes) ≡ length p.body + 8 = length-append p.body bytes in
    let rest =
      idol_infos-scored n (i + 1) xs p1 (omega arith) (omega (arith, longer))
        (omega (arith, longer, e, room)) in
    let all : (p.body ++ bytes) ++ packed (take n (drop (i + 1) xs))
        ≡ p.body ++ packed (take (suc n) (drop i xs)) =
      rw (drop-eq-cons xs i nobody (omega arith)) (append_assoc p.body bytes _) in
    rw (found.0, found.1, atoi-printed x.0, atoi-printed x.1, put_room bytes p (omega arith))
      (rest ∙ sized p _ _ _ _ (omega (arith, longer)) all)

length-scored : (xs : List (ℕ × ℕ)) → length (scored xs) ≡ 2 * length xs
length-scored [] = omega arith
length-scored (x ∷ xs) = omega (arith, length-scored xs)

-- The number of entries that `count` asks for, where 0 asks for all.
abbrev pub asked : (count have : ℕ) → ℕ
asked count have = if count == 0 then have else min have count

idol_count-scored :
    (count : ℕ) (xs : List (ℕ × ℕ))
    → length xs < 2 ^ 32
    → idol_count count (scored xs) ≡ asked count (length xs)
idol_count-scored count xs h =
    let e = length-scored xs in
    let half : length (scored xs) / 2 ≡ length xs = omega (arith, e) in rw half (ground arith)

idol_answer-scored :
    (head : Header) (count : ℕ) (xs : List (ℕ × ℕ))
    → length xs < 2 ^ 32
    → 18 + (4 + 8 * asked count (length xs)) ≤ 1024 * 1024
    → idol_answer count (Reply.array (scored xs)) (finish (init head))
      ≡ some (record (init head) {
        pkg_len = 18 + (4 + 8 * asked count (length xs));
        body = u32 (asked count (length xs)) ++ packed (take (asked count (length xs)) xs);
      })
idol_answer-scored head count xs small room =
    let n = asked count (length xs) in
    let p0 = finish (init head) in
    let p1 = grow 4 (record p0 { body = u32 n }) in
    let fits : n + 0 ≤ length xs = ground arith in
    let pairs = idol_infos-scored n 0 xs p1 fits (omega (arith, room)) refl in
    rw (idol_count-scored count xs small, put_room (u32 n) p0 (omega (arith, room))) pairs

-- Where the server lists the members and scores of a range, QueryList answers their number and the
-- pairs, as 32-bit words, in the order of the list: the first `count` of them, or all for 0. It
-- holds for lists whose answer fits into MAX_BUF_LEN.
pub query_list_pairs :
    (redis : Redis) (h : List Command) (l : ℕ) (head : Header) (user_id offset count : ℕ)
    (xs : List (ℕ × ℕ))
    → let cmd = Command.query_list user_id offset (last_index offset count) in
      redis h cmd ≡ some (Reply.array (scored xs))
      → length xs < 2 ^ 32
      → 18 + (4 + 8 * asked count (length xs)) ≤ 1024 * 1024
      → query_list redis (on h [] l (init head)) user_id offset count
        ≡ some (
            on (h ++ cmd ∷ []) [] (suc l) (record (init head) {
              pkg_len = 18 + (4 + 8 * asked count (length xs));
              body = u32 (asked count (length xs)) ++ packed (take (asked count (length xs)) xs);
            }))
unfolding idol_reply
query_list_pairs redis h l head user_id offset count xs r small room =
    let cmd = Command.query_list user_id offset (last_index offset count) in
    replied-some redis h cmd [] l (init head) _ _ r
    ∙ ap (as_session (record { history = h ++ cmd ∷ []; pending = []; live = suc l }))
        (idol_answer-scored head count xs small room)
