-- ===== src/Valkey/Frame.antt =====
-- `redis_protocol::resp2::types::BytesFrame`, which the source calls `ValkeyFrame`, and
-- shotover/src/frame/valkey.rs. An `i64` is its pattern of 64 bits.
use shotover_proxy.Prelude.{
  Bool, false, bytes_eq, codes, String, ◌||◌, is_utf8, Option, none, some, ℕ, ◌-◌, ◌≡◌, refl, ap,
  ◌&&◌, List, [], ◌∷◌, Bytes, leb, if◌then◌else◌,
}

mutual
  pub data ValkeyFrame : Type 0 where
    simple_string error bulk_string : Bytes → ValkeyFrame
    integer : ℕ → ValkeyFrame
    array : Frames → ValkeyFrame
    null : ValkeyFrame

  pub data Frames : Type 0 where
    nil : Frames
    cons : ValkeyFrame → Frames → Frames

-- The vector of an array, as a list and back.
unfoldable pub to_list : Frames → List ValkeyFrame
to_list nil = []
to_list (cons f fs) = f ∷ to_list fs

unfoldable pub of_list : List ValkeyFrame → Frames
of_list [] = nil
of_list (f ∷ fs) = cons f (of_list fs)

pub to_list-of_list : (fs : List ValkeyFrame) → to_list (of_list fs) ≡ fs
unfolding to_list of_list
to_list-of_list [] = refl
to_list-of_list (f ∷ fs) = ap (◌∷◌ f) (to_list-of_list fs)

-- `to_ascii_uppercase`
abbrev upper_byte : ℕ → ℕ
upper_byte b = if leb b'a' b && leb b b'z' then b - 32 else b

unfoldable pub to_ascii_uppercase : Bytes → Bytes
to_ascii_uppercase [] = []
to_ascii_uppercase (b ∷ bs) = upper_byte b ∷ to_ascii_uppercase bs

pub data QueryType : Type 0 where
  read write read_write schema_change pub_sub : QueryType

abbrev one_of : Bytes → List String → Bool
one_of name [] = false
one_of name (s ∷ ss) = bytes_eq name (codes s) || one_of name ss

abbrev pub is_read : Bytes → Bool
is_read name = one_of name (
    "APPEND" ∷ "BITCOUNT" ∷ "STRLEN" ∷ "GET" ∷ "GETRANGE" ∷ "MGET" ∷ "LRANGE" ∷ "LINDEX" ∷ "LLEN"
    ∷ "SCARD" ∷ "SISMEMBER" ∷ "SMEMBERS" ∷ "SUNION" ∷ "SINTER" ∷ "ZCARD" ∷ "ZCOUNT" ∷ "ZRANGE"
    ∷ "ZRANK" ∷ "ZSCORE" ∷ "ZRANGEBYSCORE" ∷ "HGET" ∷ "HGETALL" ∷ "HEXISTS" ∷ "HKEYS" ∷ "HLEN"
    ∷ "HSTRLEN" ∷ "HVALS" ∷ "PFCOUNT" ∷ [])

unfoldable pub valkey_query_type : ValkeyFrame → QueryType
unfolding bytes_eq to_ascii_uppercase
valkey_query_type (array (cons (bulk_string bytes) rest)) =
    if is_read (to_ascii_uppercase bytes) then read else write
valkey_query_type _ = write

-- A text that is not UTF-8 has no name.
unfoldable pub valkey_query_name : ValkeyFrame → Option Bytes
unfolding to_ascii_uppercase is_utf8
valkey_query_name (array (cons (bulk_string v) rest)) =
    if is_utf8 (to_ascii_uppercase v) then some (to_ascii_uppercase v) else none
valkey_query_name _ = none
