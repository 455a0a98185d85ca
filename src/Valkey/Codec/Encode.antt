-- ===== src/Valkey/Codec/Encode.antt =====
-- The encoder's half: the kind of each request that is sent down the channel to the decoder.
use shotover_proxy.Prelude.{
  ℕ, ◌≡◌, refl, List, [], ◌∷◌, Bytes, codes, bytes_eq, Option, some, Result, ok, err, ◌>>=◌, map,
  if◌then◌else◌,
}
use shotover_proxy.Valkey.Frame.{ValkeyFrame, bulk_string, array, cons, to_list, to_ascii_uppercase}
use shotover_proxy.Valkey.Codec.{
  RequestType, subscribe, psubscribe, ssubscribe, unsubscribe, punsubscribe, sunsubscribe, reset,
  other, RequestInfo,
}

-- `extract_args`, on the array behind its first frame.
unfoldable pub extract_args : List ValkeyFrame → Result (List Bytes)
extract_args [] = ok []
extract_args (bulk_string x ∷ rest) = do xs ← extract_args rest; ok (x ∷ xs)
extract_args (_ ∷ rest) = err "subscribe/unsubscribe command included non bulkstring args"

-- `match bytes.to_ascii_uppercase()`
pub of_name : Bytes → List ValkeyFrame → Result RequestType
unfolding extract_args bytes_eq
of_name name args =
    let with_args =
      λ (kind : List Bytes → RequestType). (extract_args args >>= λ xs. ok (kind xs)) in
    if bytes_eq name (codes "SUBSCRIBE")
    then with_args subscribe
    else if bytes_eq name (codes "PSUBSCRIBE")
    then with_args psubscribe
    else if bytes_eq name (codes "SSUBSCRIBE")
    then with_args ssubscribe
    else if bytes_eq name (codes "UNSUBSCRIBE")
    then with_args unsubscribe
    else if bytes_eq name (codes "PUNSUBSCRIBE")
    then with_args punsubscribe
    else if bytes_eq name (codes "SUNSUBSCRIBE")
    then with_args sunsubscribe
    else if bytes_eq name (codes "RESET")
    then ok reset
    else ok other

-- `none` is a message that does not parse.
unfoldable pub request_type : Option ValkeyFrame → Result RequestType
unfolding of_name to_ascii_uppercase to_list
request_type (some (array (cons (bulk_string bytes) rest))) =
    of_name (to_ascii_uppercase bytes) (to_list rest)
request_type _ = ok other

-- What the encoder sends for a batch: the first request that it cannot encode ends it.
pub request_infos : List (ℕ × Option ValkeyFrame) → Result (List RequestInfo)
request_infos [] = ok []
request_infos ((id, frame) ∷ requests) = do
  ty ← request_type frame
  infos ← request_infos requests
  ok (record { ty = ty; id = id } ∷ infos)

extract_args-map : (xs : List Bytes) → extract_args (map bulk_string xs) ≡ ok xs
unfolding extract_args
extract_args-map [] = refl
extract_args-map (x ∷ xs) = rw (extract_args-map xs, ◌>>=◌) refl
