-- ===== src/Kafka/Codec/Encode.antt =====
-- `KafkaEncoder::encode`.
use shotover_proxy.Prelude.{
  ℕ, ◌+◌, ◌*◌, Bool, true, false, ◌&&◌, not, List, [], ◌∷◌, ◌++◌, Bytes, Option, none, some, Result,
  ok, err, panic, ◌>>=◌, if◌then◌else◌, drop, ◌==◌, is_empty,
}
use shotover_proxy.Message.Frame.{Protocols, kafka_frame, CodecState, kafka_state, kafka}
use shotover_proxy.Message.State.{
  Message, ensure_message_type, Encodable, bytes_of, frame_of, into_encodable,
}
use shotover_proxy.Message.Response.{response_is_dummy}
use shotover_proxy.Kafka.Codec.{
  RequestHeader, SaslMessageState, RequestInfo, KafkaFrames, from_name,
}

module _ (P : Protocols) (K : KafkaFrames P) where
  -- What a message has written, the SASL message that follows it, and whether it succeeded.
  abbrev pub Written : Type 0
  Written = Bytes × Option SaslMessageState × Result (Unit {0})

  abbrev pub contains_raw_sasl : CodecState P → Bool
  contains_raw_sasl (kafka_state s) = K.raw_sasl s
  contains_raw_sasl _ = false

  abbrev pub write_sasl : Option Bytes → Result Written
  write_sasl none = panic
  write_sasl (some bytes) = ok (bytes, none, ok tt)

  abbrev pub expected : Option (ℕ × Bytes) → Result (Option SaslMessageState)
  expected none = ok none
  expected (some (version, mechanism)) =
      if version == 0 then (do s ← from_name mechanism; ok (some s)) else ok none

  unfoldable pub write_encodable : Bool → Encodable P → Result Written
  unfolding from_name
  write_encodable raw (bytes_of bytes) = ok (bytes, none, ok tt)
  write_encodable true (frame_of (kafka_frame f)) = write_sasl (K.auth_bytes f)
  write_encodable false (frame_of (kafka_frame f)) = do
    expect ← expected (K.handshake f)
    let (bytes, outcome) = K.encode f
    ok (bytes, expect, outcome)
  write_encodable raw (frame_of _) = panic

  abbrev pub known_key : Option ℕ → ℕ → Result RequestHeader
  known_key none version = err "unknown api key"
  known_key (some key) version = ok (record { api_key = key; version = version })

  abbrev pub header_at : Bytes → Result RequestHeader
  header_at (a ∷ b ∷ c ∷ d ∷ rest) = known_key (K.api_key_from (a * 256 + b)) (c * 256 + d)
  header_at _ = panic

  unfoldable pub header_written : Bool → Bytes → Result RequestHeader
  header_written true bytes = ok (record { api_key = K.sasl_authenticate; version = 0 })
  header_written false bytes = header_at (drop 4 bytes)

  -- `if !dst[start..].is_empty() && … { … }`
  unfoldable pub send_info :
      Bool
      → Option (List RequestInfo)
      → ℕ
      → Bool
      → Bytes
      → Option SaslMessageState
      → Result (Option (List RequestInfo))
  unfolding header_written
  send_info true (some infos) id raw bytes expect = do
    header ← header_written raw bytes
    ok (some (infos ++ record { header = header; id = id; expect_raw_sasl = expect } ∷ []))
  send_info _ tx id raw bytes expect = ok tx

  unfoldable pub encode_message :
      Option (List RequestInfo) → Bytes → Message P → Result (Option (List RequestInfo) × Bytes)
  unfolding ensure_message_type response_is_dummy into_encodable write_encodable send_info
  encode_message tx dst m = do
    fits ← ensure_message_type P kafka m
    (m', response_dummy) ← response_is_dummy P m
    encodable ← into_encodable P m'
    (bytes, expect, outcome) ← write_encodable (contains_raw_sasl m.codec_state) encodable
    tx' ←
        send_info (not (is_empty bytes) && not response_dummy) tx m.id
          (contains_raw_sasl m.codec_state) bytes expect
    succeeded ← outcome
    ok (tx', dst ++ bytes)

  unfoldable pub encode :
      Option (List RequestInfo)
      → Bytes
      → List (Message P)
      → Result (Option (List RequestInfo) × Bytes)
  unfolding encode_message
  encode tx dst [] = ok (tx, dst)
  encode tx dst (m ∷ ms) = do (tx', dst') ← encode_message tx dst m; encode tx' dst' ms
