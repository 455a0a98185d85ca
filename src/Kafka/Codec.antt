-- ===== src/Kafka/Codec.antt =====
-- shotover/src/codec/kafka.rs: the decoder and the encoder of a kafka connection.
pub mod Encode
pub mod Framing
pub mod Pairing
pub mod Short
mod Tests
use mathlib.Core.Option
use shotover_proxy.Prelude.{
  ℕ, ◌+◌, ◌*◌, Bool, true, false, ◌&&◌, not, List, [], ◌∷◌, ◌++◌, Bytes, bytes_eq, codes, Option,
  none, some, Result, ok, err, panic, ◌>>=◌, if◌then◌else◌, length, take, drop, leb, ◌==◌, is_empty,
}
use shotover_proxy.Message.Frame.{Protocols, Frame, kafka_frame, CodecState, kafka_state, kafka}
use shotover_proxy.Message.State.{
  Message, from_bytes_at_instant, set_request_id, frame, invalidate_cache, ensure_message_type,
  Encodable, bytes_of, frame_of, into_encodable,
}
use shotover_proxy.Message.Response.{response_is_dummy}

-- The number of an api key, and the 16 bits of a version.
pub record RequestHeader : Type 0 where
  pub api_key : ℕ
  pub version : ℕ

pub data SaslMessageState : Type 0 where
  plain scram_first scram_final : SaslMessageState

unfoldable pub from_name : Bytes → Result SaslMessageState
unfolding bytes_eq
from_name mechanism =
    if bytes_eq mechanism (codes "PLAIN")
    then ok plain
    else if bytes_eq mechanism (codes "SCRAM-SHA-512")
    then ok scram_first
    else if bytes_eq mechanism (codes "SCRAM-SHA-256")
    then ok scram_first
    else err "Unknown sasl mechanism"

pub record RequestInfo : Type 0 where
  pub header : RequestHeader
  pub id : ℕ
  pub expect_raw_sasl : Option SaslMessageState

-- What the codec asks of frames, and of the api keys of the kafka-protocol crate. `handshake` is the
-- version and the mechanism of a SASL handshake request, `auth_bytes` the bytes of a SASL
-- authenticate request or response, and `encode` what a frame writes and whether it succeeds.
pub record KafkaFrames (P : Protocols) : Type 0 where
  pub codec_state : Option RequestHeader → Bool → P.KafkaCodecState
  pub raw_sasl : P.KafkaCodecState → Bool
  pub api_key_from : ℕ → Option ℕ
  pub sasl_handshake : ℕ
  pub sasl_authenticate : ℕ
  pub handshake : P.KafkaFrame → Option (ℕ × Bytes)
  pub auth_bytes : P.KafkaFrame → Option Bytes
  pub encode : P.KafkaFrame → Bytes × Result (Unit {0})

-- `u32::from_be_bytes`
abbrev pub from_be_bytes : ℕ → ℕ → ℕ → ℕ → ℕ
from_be_bytes a b c d = ((a * 256 + b) * 256 + c) * 256 + d

unfoldable pub get_length_of_full_message : Bytes → Option ℕ
get_length_of_full_message (a ∷ b ∷ c ∷ d ∷ rest) =
    let size = from_be_bytes a b c d + 4 in
    if leb size (length (a ∷ b ∷ c ∷ d ∷ rest)) then some size else none
get_length_of_full_message _ = none

-- The requests whose headers the encoder sends before it hangs up; a source has none.
pub record KafkaDecoder : Type 0 where
  pub request_header_rx : Option (List RequestInfo)
  pub expect_raw_sasl : Option SaslMessageState

-- `rx.recv()`. It waits for a header while the encoder lives, so there is no more of the list only
-- when the encoder is lost.
abbrev pub recv :
    Option (List RequestInfo) → Result (Option (List RequestInfo) × Option RequestInfo)
recv none = ok (none, none)
recv (some []) = err "kafka encoder half was lost"
recv (some (info ∷ infos)) = ok (some infos, some info)

abbrev pub is_some_state : Option SaslMessageState → Bool
is_some_state none = false
is_some_state (some s) = true

-- The next state of `expect_raw_sasl`.
unfoldable pub advance : Option SaslMessageState → Option SaslMessageState
advance (some plain) = none
advance (some scram_first) = some scram_final
advance (some scram_final) = none
advance none = none

module _ (P : Protocols) (K : KafkaFrames P) where
  -- `ApiKey::try_from(…).unwrap()`; a slice out of range panics too.
  abbrev pub known_key : Option ℕ → ℕ → Result RequestHeader
  known_key none version = panic
  known_key (some key) version = ok (record { api_key = key; version = version })

  unfoldable pub header_in : Bytes → Result RequestHeader
  header_in (a ∷ b ∷ c ∷ d ∷ rest) = known_key (K.api_key_from (a * 256 + b)) (c * 256 + d)
  header_in _ = panic

  unfoldable pub header_of :
      Option RequestInfo → Option SaslMessageState → Bytes → Result RequestHeader
  unfolding header_in
  header_of (some info) _ bytes = ok info.header
  header_of none (some s) bytes = ok (record { api_key = K.sasl_authenticate; version = 0 })
  header_of none none bytes = header_in (drop 4 bytes)

  unfoldable pub message_of : ℕ → ℕ → Option RequestInfo → RequestHeader → Bool → Bytes → Message P
  unfolding from_bytes_at_instant set_request_id
  message_of id at (some info) header raw bytes =
      set_request_id P info.id
        (from_bytes_at_instant P id bytes (kafka_state (K.codec_state (some header) raw)) (some at))
  message_of id at none header raw bytes =
      from_bytes_at_instant P id bytes (kafka_state (K.codec_state none raw)) (some at)

  abbrev pub mechanism_of : Option (Frame P) → Option (ℕ × Bytes)
  mechanism_of (some (kafka_frame f)) = K.handshake f
  mechanism_of _ = none

  abbrev pub handshaken :
      Option SaslMessageState
      → Message P
      → Option (ℕ × Bytes)
      → Result (Option SaslMessageState × Message P)
  handshaken state m none = ok (state, m)
  handshaken state m (some (version, mechanism)) = do
    s ← from_name mechanism
    ok (some s, invalidate_cache P m)

  abbrev pub or_state : Option SaslMessageState → Option SaslMessageState → Option SaslMessageState
  or_state none state = state
  or_state (some s) state = some s

  -- The state that is expected behind a message, and the message.
  unfoldable pub expect_next :
      Option RequestInfo
      → RequestHeader
      → Option SaslMessageState
      → Message P
      → Result (Option SaslMessageState × Message P)
  unfolding from_name frame invalidate_cache
  expect_next (some info) header state m = ok (or_state info.expect_raw_sasl state, m)
  expect_next none header state m =
      if (header.api_key == K.sasl_handshake) && (header.version == 0)
      then (do (m', f) ← frame P m; handshaken state m' (mechanism_of f))
      else ok (state, m)

  -- `id` and `at` are the id that is drawn for the message, and the time.
  abbrev pub decode_message : ℕ → ℕ → KafkaDecoder → Bytes → Result (KafkaDecoder × Message P)
  decode_message id at d bytes = do
    (rx, info) ← recv d.request_header_rx
    header ← header_of info d.expect_raw_sasl bytes
    let m = message_of id at info header (is_some_state d.expect_raw_sasl) bytes
    (state, m') ← expect_next info header (advance d.expect_raw_sasl) m
    ok (record { request_header_rx = rx; expect_raw_sasl = state }, m')

  abbrev pub decode_size :
      ℕ → ℕ → KafkaDecoder → Bytes → Option ℕ → Result (KafkaDecoder × Bytes × Option (Message P))
  decode_size id at d src none = ok (d, src, none)
  decode_size id at d src (some size) = do
    (d', m) ← decode_message id at d (take size src)
    ok (d', drop size src, some m)

  unfoldable pub decode :
      ℕ → ℕ → KafkaDecoder → Bytes → Result (KafkaDecoder × Bytes × Option (Message P))
  unfolding get_length_of_full_message header_of message_of advance expect_next
  decode id at d src = decode_size id at d src (get_length_of_full_message src)
