-- ===== src/Cassandra/Murmur.antt =====
-- shotover/src/transforms/cassandra/sink_cluster/murmur.rs: the streaming partitioner hash.
-- A `Wrapping<i64>` is its bit pattern, a number below 2 ^ 64. `total_len` does not wrap.
pub mod Blocks
pub mod Buffer
pub mod Stream
pub mod Token
mod Tests
use Prim.Native.Nat.{bit_or, bit_xor, min}
use shotover_proxy.Prelude.{
  ℕ, zero, suc, ◌+◌, ◌-◌, ◌*◌, ◌/◌, ◌%◌, ◌^◌, Bool, true, false, ◌&&◌, [], ◌∷◌, ◌++◌, Bytes, Result,
  ok, panic, ◌>>=◌, ltb, leb, ◌==◌, if◌then◌else◌, length, take, drop, replicate,
}

abbrev pub word : ℕ
word = 2 ^ 64

abbrev pub buf_capacity : ℕ
buf_capacity = 16

abbrev c1 : ℕ
c1 = 0x87c3_7b91_1142_53d5

abbrev c2 : ℕ
c2 = 0x4cf5_ad43_2745_937f

pub record Hasher : Type 0 where
  pub total_len : ℕ
  pub buf : Bytes
  pub h1 : ℕ
  pub h2 : ℕ

unfoldable pub new : Hasher
new = record { total_len = 0; buf = replicate buf_capacity 0; h1 = 0; h2 = 0 }

-- `(v.0 << n) | (v.0 as u64 >> (64 - n)) as i64`
rotl64 : ℕ → ℕ → ℕ
rotl64 v n = bit_or (v * 2 ^ n % word) (v / 2 ^ (64 - n))

unfoldable pub hash_16_bytes : Hasher → ℕ → ℕ → Hasher
unfolding rotl64
hash_16_bytes h k1 k2 =
    let k1' = rotl64 (k1 * c1 % word) 31 * c2 % word in
    let a = (rotl64 (bit_xor h.h1 k1') 27 + h.h2) % word in
    let a' = (a * 5 + 0x52dce729) % word in
    let k2' = rotl64 (k2 * c2 % word) 33 * c1 % word in
    let b = (rotl64 (bit_xor h.h2 k2') 31 + a') % word in
    let b' = (b * 5 + 0x38495ab5) % word in record h { h1 = a'; h2 = b' }

-- `bytes::Buf::get_i64_le` on the first eight bytes.
unfoldable pub get_i64_le : Bytes → ℕ
get_i64_le [] = 0
get_i64_le (b ∷ bs) = b + 256 * get_i64_le bs

-- The two halves of 16 bytes; the caller has checked that there are 16.
unfoldable pub fetch_16_bytes_from_buf : Bytes → ℕ × ℕ
unfolding get_i64_le
fetch_16_bytes_from_buf buf = (get_i64_le (take 8 buf), get_i64_le (take 8 (drop 8 buf)))

-- One block: fetch, then hash.
unfoldable pub absorb : Hasher → Bytes → Hasher
absorb h block = let (k1, k2) = fetch_16_bytes_from_buf block in hash_16_bytes h k1 k2

-- `buf[at..at + src.len()].copy_from_slice(src)`; a range that ends behind the buffer panics.
unfoldable pub copy_into : Bytes → ℕ → Bytes → Result Bytes
copy_into buf at src =
    if leb (at + length src) (length buf)
    then ok (take at buf ++ (src ++ drop (at + length src) buf))
    else panic

-- The first phase: fill a buffer that is not empty, if the input reaches, and hash it.
unfoldable pub fill : Hasher → ℕ → Bytes → Result (Hasher × ℕ × Bytes)
fill h buf_len pk_part =
    if ltb 0 buf_len && leb (buf_capacity - buf_len) (length pk_part)
    then (do
      let to_write = min (buf_capacity - buf_len) (length pk_part)
      buf ← copy_into h.buf buf_len (take to_write pk_part)
      ok (absorb (record h { buf = buf }) buf, 0, drop to_write pk_part))
    else ok (h, buf_len, pk_part)

-- The second phase, `while pk_part.len() >= 16`. Each round takes 16 bytes.
unfoldable pub hash_whole : ℕ → Hasher → Bytes → Hasher × Bytes
hash_whole zero h pk_part = (h, pk_part)
hash_whole (suc fuel) h pk_part = elim (leb buf_capacity (length pk_part)) [
  | true ↦ hash_whole fuel (absorb h (take 16 pk_part)) (drop 16 pk_part)
  | false ↦ (h, pk_part)
]

-- `if buf_len == 0 { while … }`
unfoldable pub bulk : Hasher → ℕ → Bytes → Hasher × Bytes
bulk h buf_len pk_part =
    if buf_len == 0 then hash_whole (length pk_part) h pk_part else (h, pk_part)

-- The third phase: keep what is left in the buffer.
unfoldable pub keep : Hasher → ℕ → Bytes → Result Hasher
keep h buf_len pk_part = do buf ← copy_into h.buf buf_len pk_part; ok (record h { buf = buf })

unfoldable pub write : Hasher → Bytes → Result Hasher
write h pk_part = do
  let counted = record h { total_len = h.total_len + length pk_part }
  (filled, buf_len, rest) ← fill counted (h.total_len % buf_capacity) pk_part
  let (hashed, rest') = bulk filled buf_len rest
  keep hashed buf_len rest'

-- `buf[i] as i8 as i64`
abbrev byte_as_i64 : ℕ → ℕ
byte_as_i64 b = if ltb b 128 then b else b + word - 256

-- `buf[i]` on the array of 16 bytes.
unfoldable pub byte_at : Bytes → ℕ → ℕ
byte_at [] i = 0
byte_at (b ∷ bs) zero = b
byte_at (b ∷ bs) (suc i) = byte_at bs i

-- `for i in (start..start + n).rev() { k ^= Wrapping(buf[i] as i8 as i64) << ((i - start) * 8) }`
unfoldable pub mix_tail : Bytes → ℕ → ℕ → ℕ → ℕ
mix_tail buf start zero k = k
mix_tail buf start (suc n) k =
    mix_tail buf start n (bit_xor k (byte_as_i64 (byte_at buf (start + n)) * 2 ^ (n * 8) % word))

fmix : ℕ → ℕ
fmix k =
    let a = bit_xor k (k / 2 ^ 33) * 0xff51afd7ed558ccd % word in
    let b = bit_xor a (a / 2 ^ 33) * 0xc4ceb9fe1a85ec53 % word in bit_xor b (b / 2 ^ 33)

-- `h1.0 as i128`, as a pattern of 128 bits.
abbrev sign_extend : ℕ → ℕ
sign_extend h = if ltb h (2 ^ 63) then h else h + 2 ^ 128 - word

-- What `finish` does once the bytes of the buffer are mixed in.
finalize : ℕ → ℕ → ℕ → ℕ
unfolding fmix
finalize total_len h1 h2 =
    let a = bit_xor h1 (total_len % word) in
    let b = bit_xor h2 (total_len % word) in
    let a1 = (a + b) % word in
    let b1 = (b + a1) % word in
    let a2 = fmix a1 in
    let b2 = fmix b1 in
    let a3 = (a2 + b2) % word in
    let b3 = (b2 + a3) % word in bit_or (sign_extend b3 * word % 2 ^ 128) (sign_extend a3) % word

unfoldable pub finish : Hasher → ℕ
unfolding rotl64 finalize
finish h =
    let buf_len = h.total_len % buf_capacity in
    let k2 = rotl64 (mix_tail h.buf 8 (buf_len - 8) 0 * c2 % word) 33 * c1 % word in
    let h2 = if ltb 8 buf_len then bit_xor h.h2 k2 else h.h2 in
    let k1 = rotl64 (mix_tail h.buf 0 (min 8 buf_len) 0 * c1 % word) 31 * c2 % word in
    let h1 = if ltb 0 buf_len then bit_xor h.h1 k1 else h.h1 in finalize h.total_len h1 h2
