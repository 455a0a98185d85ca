-- ===== src/Kafka/Codec/Framing.antt =====
-- Messages and their length prefix.
use shotover_proxy.Prelude.{
  ℕ, zero, suc, ◌+◌, ◌/◌, ◌%◌, ◌^◌, ◌≡◌, ◌<◌, refl, ◌∷◌, ◌++◌, Bytes, none, some, length,
  length-append, take, length-take, leb, if◌then◌else◌, arith,
}
use shotover_proxy.Kafka.Codec.{get_length_of_full_message, from_be_bytes}

-- `u32::to_be_bytes` before the bytes.
abbrev pub framed : Bytes → Bytes
framed payload =
    let n = length payload in
    n / 2 ^ 24 % 256 ∷ n / 2 ^ 16 % 256 ∷ n / 2 ^ 8 % 256 ∷ n % 256 ∷ payload

be_bytes_lem :
    (n : ℕ)
    → n < 2 ^ 32
    → from_be_bytes (n / 2 ^ 24 % 256) (n / 2 ^ 16 % 256) (n / 2 ^ 8 % 256) (n % 256) ≡ n
be_bytes_lem n h = omega arith

decided :
    (n m l : ℕ)
    → l ≡ n + m
    → (if leb (n + 4) (suc (suc (suc (suc l)))) then some (n + 4) else none)
      ≡ some (suc (suc (suc (suc n))))
decided n m l e = ground arith

-- The length of a framed message is known as soon as all of it is there.
pub get_length-framed :
    (payload rest : Bytes)
    → length payload < 2 ^ 32
    → get_length_of_full_message (framed payload ++ rest) ≡ some (length (framed payload))
unfolding get_length_of_full_message
get_length-framed payload rest h =
    rw (be_bytes_lem (length payload) h) (
      decided (length payload) (length rest) (length (payload ++ rest))
        (length-append payload rest))

short_of :
    (n l : ℕ)
    → l < n
    → (if leb (n + 4) (suc (suc (suc (suc l)))) then some (n + 4) else none) ≡ none
short_of n l e = ground arith

get_length-part :
    (payload : Bytes) (k : ℕ)
    → length payload < 2 ^ 32
    → k < length (framed payload)
    → get_length_of_full_message (take k (framed payload)) ≡ none
unfolding get_length_of_full_message
get_length-part payload zero h less = refl
get_length-part payload (suc zero) h less = refl
get_length-part payload (suc (suc zero)) h less = refl
get_length-part payload (suc (suc (suc zero))) h less = refl
get_length-part payload (suc (suc (suc (suc k)))) h less =
    let shorter : length (take k payload) < length payload =
      rw (length-take k payload) (omega arith) in
    rw (be_bytes_lem (length payload) h)
      (short_of (length payload) (length (take k payload)) shorter)

-- Of a message of less than 2 ^ 32 bytes behind its length prefix: as soon as all of it has arrived,
-- whatever follows, its whole length is found; and while only a part has arrived, none is.
pub get_length_of_full_message-framed :
    (payload rest : Bytes) (k : ℕ)
    → length payload < 2 ^ 32
    → k < length (framed payload)
    → (get_length_of_full_message (framed payload ++ rest) ≡ some (length (framed payload)))
      × (get_length_of_full_message (take k (framed payload)) ≡ none)
get_length_of_full_message-framed payload rest k h less =
    (get_length-framed payload rest h, get_length-part payload k h less)
