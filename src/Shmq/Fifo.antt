-- ===== src/Shmq/Fifo.antt =====
-- A ring of shmq.cpp holds a queue of blocks: `shmq_push` appends one, `shmq_pull` takes the oldest.
use friend_serv.Base.{
  ltb→lt, ℕ, ◌+◌, ◌≤◌, ◌<◌, ◌≡◌, refl, ◌⊎◌, inl, inr, List, [], ◌∷◌, ◌++◌, arith, ap, sym, ◌∙◌, ltb,
  length, take, take_all, length-append, Bool-cases, append_assoc, append-nil,
}
use friend_serv.Base.Words.{add32}
use friend_serv.Shmq.{Mem, Shmq, Block, free_space, header, place, push, head_size}
use friend_serv.Shmq.Memory.{window, length-window}
use friend_serv.Shmq.Place.{Placed, place-Placed}
use friend_serv.Shmq.Append.{window-Placed}
use friend_serv.Shmq.Twice.{Placed-append, wrap-le}
use friend_serv.Shmq.Header.{IsBlock, length-header}
use friend_serv.Shmq.Positions.{IsValid, load, used, free_space-load, used-write}

-- A block with its bytes, and how it lies in the ring.
abbrev pub Item : Type 0
Item = Block × List ℕ

abbrev pub wire : Item → List ℕ
wire (sb, body) = header sb ++ body

unfoldable pub wires : List Item → List ℕ
wires [] = []
wires (x ∷ xs) = wire x ++ wires xs

pub record IsItem (x : Item) : Type 0 where
  pub block : IsBlock x.0
  pub bytes : length x.1 ≡ x.0.len

abbrev pub AllItems : List Item → Type 0
AllItems [] = Unit {0}
AllItems (x ∷ xs) = IsItem x × AllItems xs

-- The ring is valid, and the bytes from the read position are those of these blocks, oldest first.
pub record Holds (q : Shmq) (xs : List Item) : Type 0 where
  pub valid : IsValid q
  pub items : AllItems xs
  pub bytes : window q.mem q.size q.r_pos (load q) ≡ wires xs

wires-append : (xs ys : List Item) → wires (xs ++ ys) ≡ wires xs ++ wires ys
unfolding wires
wires-append [] ys = refl
wires-append (x ∷ xs) ys =
    rw (wires-append xs ys) (sym (append_assoc (wire x) (wires xs) (wires ys)))

-- A block and those behind it take their bytes more.
pub length-wires_next :
    (xs : List Item) (sb : Block) (body : List ℕ) (ys : List Item)
    → length body ≡ sb.len
    → length (wires xs) + 16 + sb.len ≤ length (wires (xs ++ (sb, body) ∷ ys))
unfolding wires
length-wires_next xs sb body ys h = rw (wires-append xs ((sb, body) ∷ ys)) (
    omega (
      arith,
      h,
      length-header sb,
      length-append (wires xs) (wires ((sb, body) ∷ ys)),
      length-append (header sb ++ body) (wires ys),
      length-append (header sb) body,
    ))

AllItems-append : (xs : List Item) (y : Item) → AllItems xs → IsItem y → AllItems (xs ++ y ∷ [])
AllItems-append [] y a v = (v, tt)
AllItems-append (x ∷ xs) y a v = (a.0, AllItems-append xs y a.1 v)

-- The write of one block, header and bytes.
written-Placed :
    (q : Shmq) (x : Item)
    → IsValid q
    → IsItem x
    → load q + length (wire x) < q.size
    → let (m1, p1) = place q.size q.mem q.w_pos (q.w_pos + head_size) (header x.0) in
      Placed q.size q.mem q.w_pos
        (wire x)
        (place q.size m1 p1 (add32 p1 x.0.len) (take x.0.len x.1))
written-Placed q (sb, body) v item room =
    let size = q.size in
    let lh = length-header sb in
    let sum = length-append (header sb) body in
    let whole : take sb.len body ≡ body = take_all sb.len body (omega arith) in
    let first =
      place-Placed size q.mem q.w_pos (header sb)
        (record { inside = v.write_in; fits = omega arith; word = v.word }) (q.w_pos + head_size)
        (omega arith) in
    let (m1, p1) = place size q.mem q.w_pos (q.w_pos + head_size) (header sb) in
    let p1_in : p1 ≤ size =
      omega (arith, first.next, wrap-le size q.w_pos (length (header sb)) v.write_in) in
    let second =
      place-Placed size m1 p1 body (record { inside = p1_in; fits = omega arith; word = v.word })
        (add32 p1 sb.len) (omega arith) in
    rw whole (
      Placed-append size q.mem m1 _ q.w_pos p1 _ (header sb) body first second v.write_in
        (omega arith))

pub length-Holds : (q : Shmq) (xs : List Item) → Holds q xs → load q ≡ length (wires xs)
length-Holds q xs h = sym (length-window q.mem q.size q.r_pos (load q)) ∙ ap length h.bytes

Holds-write :
    (q : Shmq) (xs : List Item) (x : Item) (out : Mem × ℕ)
    → Holds q xs
    → IsItem x
    → load q + length (wire x) < q.size
    → Placed q.size q.mem q.w_pos (wire x) out
    → Holds (record q { mem = out.0; w_pos = out.1 }) (xs ++ x ∷ [])
unfolding wires
Holds-write q xs x out h item room p =
    let v = h.valid in
    let size = q.size in
    let n = length (wire x) in
    let more : used size out.1 q.r_pos ≡ load q + n =
      ap (λ w. used size w q.r_pos) p.next
      ∙ used-write size q.w_pos q.r_pos n v.write_in v.read_in room in
    record {
      valid = record {
        write_in = omega (arith, p.next, wrap-le size q.w_pos n v.write_in);
        read_in = v.read_in;
        gap = omega arith;
        word = v.word;
      };
      items = AllItems-append xs x h.items item;
      bytes =
          ap (window out.0 size q.r_pos) more
          ∙ window-Placed size q.mem out.0 q.w_pos q.r_pos out.1 (wire x) p v.write_in v.read_in
              room
          ∙ ap (λ l. l ++ wire x) h.bytes
          ∙ sym (wires-append xs (x ∷ []) ∙ ap (◌++◌ (wires xs)) (append-nil (wire x)));
    }

-- `shmq_push` of a block whose length is below the size of the ring: if the block, its 16 bytes of
-- header and one byte more fit in the free space, it returns 0 and the block is the last of the
-- queue; else it returns 1 and nothing changes. Size and read position stay either way.
pub push_appends :
    (q : Shmq) (xs : List Item) (sb : Block) (body : List ℕ)
    → Holds q xs
    → IsItem (sb, body)
    → sb.len < q.size
    → let (ret, q') = push q sb body in
      (((ret ≡ 0) × (length (wires xs) + 16 + sb.len < q.size) × Holds q' (xs ++ (sb, body) ∷ []))
        ⊎ ((ret ≡ 1) × (q.size ≤ length (wires xs) + 16 + sb.len) × (q' ≡ q)))
      × (q'.size ≡ q.size)
      × (q'.r_pos ≡ q.r_pos)
unfolding push
push_appends q xs sb body h item small =
    let free = free_space-load q h.valid in
    let len = length-Holds q xs h in
    let lw = length-append (header sb) body in
    let lh = length-header sb in
    elim (Bool-cases (ltb (free_space q) (add32 (add32 sb.len head_size) 1))) [
      | inl full ↦ rw full (inr (refl, omega (arith, ltb→lt _ _ full), refl), refl, refl)
      | inr fits ↦
          let room : load q + length (wire (sb, body)) < q.size = ground arith in
          rw fits (
            inl (
              refl,
              omega arith,
              Holds-write q xs (sb, body) _ h item room
                  (written-Placed q (sb, body) h.valid item room),
            ),
            refl,
            refl,
          )
    ]
