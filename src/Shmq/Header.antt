-- ===== src/Shmq/Header.antt =====
-- The bytes of a header of shmq.cpp: how many there are, and what is read out of them.
use friend_serv.Base.{ℕ, ◌^◌, ◌<◌, ◌≡◌, refl, arith, length}
use friend_serv.Shmq.{Block, header, le32, read_header, un32}

-- Every field fits the type that it has in the source.
pub record IsBlock (sb : Block) : Type 0 where
  pub fd : sb.fd < 2 ^ 32
  pub id : sb.id < 2 ^ 32
  pub len : sb.len < 2 ^ 32
  pub kind : sb.kind < 256

pub length-header : (sb : Block) → length (header sb) ≡ 16
unfolding header
length-header sb = refl

un32-le32 : (n : ℕ) → n < 2 ^ 32 → un32 (le32 n) 0 ≡ n
un32-le32 n h = omega arith

-- Of the bytes of a header, every field is read as it was.
pub read_header-header : (sb : Block) → IsBlock sb → read_header (header sb) ≡ sb
unfolding header read_header
read_header-header sb v = λ k. record {
  fd = un32-le32 sb.fd v.fd k;
  id = un32-le32 sb.id v.id k;
  len = un32-le32 sb.len v.len k;
  kind = sb.kind;
}
