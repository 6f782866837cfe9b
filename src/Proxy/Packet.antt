-- ===== src/Proxy/Packet.antt =====
-- The answer packet that buf_processor.cpp fills in, its errors, the copies of names, and `atoi`.
use friend_serv.Base.{
  ◌>>=◌, zero, ℕ, suc, ◌+◌, ◌-◌, ◌*◌, ◌/◌, ◌%◌, ◌^◌, Bool, false, ◌&&◌, Option, none, some, List,
  [], ◌∷◌, ◌++◌, ◌==◌, leb, if◌then◌else◌, length, take,
}
use friend_serv.Base.Words.{add32}
use friend_serv.Proxy.Redis.{Conn, Reply}

-- The header of the answer and the bytes written behind it.
pub record Packet : Type 0 where
  pub pkg_len : ℕ
  pub seq_num : ℕ
  pub cmd_id : ℕ
  pub status_code : ℕ
  pub user_id : ℕ
  pub body : List ℕ

pub record Session : Type 0 where
  pub conn : Conn
  pub out : Packet

abbrev pub header_size : ℕ
header_size = 18

abbrev pub max_buf_len : ℕ
max_buf_len = 1024 * 1024

abbrev pub sys_err : ℕ
sys_err = 1001

abbrev pub param_err : ℕ
param_err = 1002

abbrev pub feed_redis_err : ℕ
feed_redis_err = 1003

-- The header fields that a request carries.
pub record Header : Type 0 where
  pub seq_num : ℕ
  pub cmd_id : ℕ
  pub user_id : ℕ

abbrev pub init : Header → Packet
init h = record {
  pkg_len = 0;
  seq_num = h.seq_num;
  cmd_id = h.cmd_id;
  status_code = 0;
  user_id = h.user_id;
  body = [];
}

abbrev pub get_error : ℕ → Packet → Packet
get_error code p = record p { pkg_len = header_size; status_code = code }

abbrev pub finish : Packet → Packet
finish p = record p { pkg_len = header_size }

unfoldable pub check_zset : Reply → Packet → Packet
check_zset (Reply.integer n) p =
    if n == 1 then p else if n == 0 then p else get_error feed_redis_err p
check_zset _ p = get_error feed_redis_err p

-- `strcmp(reply.str, "OK")` on a reply without a NUL inside.
abbrev pub is_ok : List ℕ → Bool
is_ok (a ∷ b ∷ []) = (a == 79) && (b == 75)
is_ok _ = false

unfoldable pub check_hash_map : Reply → Packet → Packet
check_hash_map (Reply.status text) p = if is_ok text then p else get_error feed_redis_err p
check_hash_map _ p = get_error feed_redis_err p

unfoldable pub check_hash_map_del : Reply → Packet → Packet
check_hash_map_del (Reply.integer n) p =
    if n == 3 then p else if n == 0 then p else get_error feed_redis_err p
check_hash_map_del _ p = get_error feed_redis_err p

-- A `uint32_t` as the bytes that it is stored in.
abbrev pub u32 : ℕ → List ℕ
u32 n = n % 256 ∷ n / 256 % 256 ∷ n / 65536 % 256 ∷ n / 16777216 % 256 ∷ []

-- Writes behind the body; past the end of `out_buf` they are out of bounds.
unfoldable pub put : List ℕ → Packet → Option Packet
put bytes p =
    if leb (header_size + (length p.body + length bytes)) max_buf_len
    then some (record p { body = p.body ++ bytes })
    else none

abbrev pub grow : ℕ → Packet → Packet
grow n p = record p { pkg_len = add32 p.pkg_len n }

-- The characters before the first NUL.
abbrev pub c_string : List ℕ → Option (List ℕ)
c_string [] = none
c_string (c ∷ cs) =
    let rest = c_string cs >>= (λ text. some (c ∷ text)) in if c == 0 then some [] else rest

abbrev pub zeros : ℕ → List ℕ
zeros zero = []
zeros (suc n) = 0 ∷ zeros n

-- `memset(name, 0, 64); memcpy(name, p, len)` and the string that `%s` then prints: out of bounds
-- where `len` is more than the packet or the array holds, or where no NUL is left in the array.
unfoldable pub c_name : List ℕ → ℕ → Option (List ℕ)
c_name p len =
    if leb len 64 && leb len (length p) then c_string (take len p ++ zeros (64 - len)) else none

abbrev pub is_digit : ℕ → Bool
is_digit c = leb 48 c && leb c 57

-- The digits at the front, as `strtol` reads them below 2^63, where it stops at LONG_MAX; the result of
-- `atoi` is cut to 32 bits.
unfoldable pub digits : ℕ → List ℕ → ℕ
digits n [] = n
digits n (c ∷ cs) = let rest = digits (n * 10 + (c - 48)) cs in if is_digit c then rest else n

-- `atoi` on the replies that redis sends for ids and scores, which have no sign and no blanks.
unfoldable pub atoi : List ℕ → ℕ
atoi text = digits 0 text % 2 ^ 32
