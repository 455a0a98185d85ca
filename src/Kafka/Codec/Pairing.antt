-- ===== src/Kafka/Codec/Pairing.antt =====
-- The decoder of a sink: which request a response is paired with.
use shotover_proxy.Prelude.{
  ℕ, zero, suc, ◌^◌, ◌≡◌, ◌<◌, refl, List, [], ◌∷◌, ◌++◌, Bytes, map, Option, none, some, Result,
  ok, err, ◌>>=◌, length, take-append_exact, drop-append_exact, All, arith,
}
use shotover_proxy.Message.Frame.{Protocols, kafka}
use shotover_proxy.Message.State.{Message, raw_bytes, from_bytes_at_instant, set_request_id}
use shotover_proxy.Kafka.Codec.{
  RequestInfo, KafkaFrames, KafkaDecoder, SaslMessageState, decode, message_of, header_of,
  expect_next, advance, or_state, is_some_state,
}
use shotover_proxy.Kafka.Codec.Framing.{framed, get_length-framed}

module _ (P : Protocols) (K : KafkaFrames P) (id at : ℕ) where
  abbrev pub sink : List RequestInfo → Option SaslMessageState → KafkaDecoder
  sink infos x = record { request_header_rx = some infos; expect_raw_sasl = x }

  abbrev paired : RequestInfo → Option SaslMessageState → Bytes → Message P
  paired info x payload =
      message_of P K id at (some info) info.header (is_some_state x) (framed payload)

  decode-framed :
      (info : RequestInfo) (infos : List RequestInfo) (x : Option SaslMessageState)
      (payload rest : Bytes)
      → length payload < 2 ^ 32
      → decode P K id at (sink (info ∷ infos) x) (framed payload ++ rest)
        ≡ ok (
          sink infos (or_state P K info.expect_raw_sasl (advance x)),
          rest,
          some (paired info x payload),
        )
  unfolding decode header_of expect_next
  decode-framed info infos x payload rest h =
      rw
        (
          get_length-framed payload rest h,
          take-append_exact (framed payload) rest (length (framed payload)) refl,
          drop-append_exact (framed payload) rest (length (framed payload)) refl,
        )
        refl

  abbrev pub arrived : Option (Message P) → Result (Message P)
  arrived none = err "more bytes are needed"
  arrived (some m) = ok m

  -- As many calls of the decoder as there are messages.
  unfoldable pub decode_times :
      ℕ → KafkaDecoder → Bytes → Result (List (Message P) × KafkaDecoder × Bytes)
  unfolding decode
  decode_times zero d src = ok ([], d, src)
  decode_times (suc n) d src = do
    (d', src', o) ← decode P K id at d src
    m ← arrived o
    (ms, d'', src'') ← decode_times n d' src'
    ok (m ∷ ms, d'', src'')

  abbrev pub stream : List Bytes → Bytes → Bytes
  stream [] rest = rest
  stream (payload ∷ payloads) rest = framed payload ++ stream payloads rest

  -- For a sink whose encoder has sent the headers of some requests: a stream of as many responses, each
  -- of less than 2 ^ 32 bytes behind its length prefix, is decoded whatever follows it; the responses
  -- answer the requests in their order, each has exactly its own bytes, all headers are used up, and
  -- what follows the stream is left.
  pub decode_times-stream :
      (infos : List RequestInfo) (payloads : List Bytes) (x : Option SaslMessageState)
      (rest : Bytes)
      → length infos ≡ length payloads
      → All (λ payload. length payload < 2 ^ 32) payloads
      → (ms : List (Message P)) × (x' : Option SaslMessageState) × (decode_times
            (length infos)
            (sink infos x)
            (stream payloads rest)
          ≡ ok (ms, sink [] x', rest))
        × (map (λ m. m.request_id) ms ≡ map (λ i. some i.id) infos)
        × (map (λ m. m.inner) ms
            ≡ map (λ payload. some (raw_bytes (framed payload) kafka)) payloads)
  unfolding decode_times message_of from_bytes_at_instant set_request_id
  decode_times-stream [] [] x rest same small = ([], x, refl, refl, refl)
  decode_times-stream [] (p ∷ ps) x rest same small = absurd (omega arith)
  decode_times-stream (i ∷ is) [] x rest same small = absurd (omega arith)
  decode_times-stream (i ∷ is) (p ∷ ps) x rest same (s, small) =
      let (ms, x', run, ids, bytes) =
        decode_times-stream is ps (or_state P K i.expect_raw_sasl (advance x)) rest (omega arith)
          small in
      (
        paired i x p ∷ ms,
        x',
        rw (decode-framed i is x p (stream ps rest) s, run) refl,
        rw ids refl,
        rw bytes refl,
      )
