-- ===== src/Kafka/Codec/Tests.antt =====
-- A kafka connection at small streams.
use shotover_proxy.Prelude.{
  ℕ, ◌≡◌, refl, false, List, [], ◌∷◌, ◌++◌, Bytes, codes, map, Option, none, some, ok, panic, take,
  arith,
}
use shotover_proxy.Message.Frame.{kafka}
use shotover_proxy.Message.State.{Message, raw_bytes}
use shotover_proxy.Message.Samples.{only_valkey}
use shotover_proxy.Kafka.Codec.{
  KafkaFrames, RequestInfo, SaslMessageState, scram_first, decode, get_length_of_full_message,
}
use shotover_proxy.Kafka.Codec.Framing.{framed, get_length_of_full_message-framed}
use shotover_proxy.Kafka.Codec.Pairing.{decode_times, sink, stream, decode_times-stream}
use shotover_proxy.Kafka.Codec.Short.{source, decode-short}

abbrev frames : KafkaFrames only_valkey
frames = record {
  codec_state = λ header raw. 0;
  raw_sasl = λ s. false;
  api_key_from = λ k. some k;
  sasl_handshake = 17;
  sasl_authenticate = 36;
  handshake = λ f. none;
  auth_bytes = λ f. none;
  encode = λ f. ([], ok tt);
}

abbrev info : ℕ → Option SaslMessageState → RequestInfo
info id expect = record {
  header = record { api_key = 3; version = 9 };
  id = id;
  expect_raw_sasl = expect;
}

abbrev two : List RequestInfo
two = info 1 (some scram_first) ∷ info 2 none ∷ []

abbrev payloads : List Bytes
payloads = codes "first" ∷ codes "second" ∷ []

decode_times-stream_example :
    (ms : List (Message only_valkey)) × (x' : Option SaslMessageState) × (decode_times only_valkey
        frames 5 0 2
        (sink only_valkey frames 5 0 two none)
        (stream only_valkey frames 5 0 payloads (0 ∷ 0 ∷ []))
      ≡ ok (ms, sink only_valkey frames 5 0 [] x', 0 ∷ 0 ∷ []))
    × (map (λ m. m.request_id) ms ≡ some 1 ∷ some 2 ∷ [])
    × (map (λ m. m.inner) ms ≡ map (λ payload. some (raw_bytes (framed payload) kafka)) payloads)
decode_times-stream_example =
    decode_times-stream only_valkey frames 5 0 two payloads none (0 ∷ 0 ∷ []) refl
      (omega arith, (omega arith, tt))

get_length_of_full_message-framed_example :
    (get_length_of_full_message (framed (codes "abc") ++ (1 ∷ [])) ≡ some 7)
    × (get_length_of_full_message (take 5 (framed (codes "abc"))) ≡ none)
get_length_of_full_message-framed_example =
    get_length_of_full_message-framed (codes "abc") (1 ∷ []) 5 (omega arith) (omega arith)

decode-short_example :
    decode only_valkey frames 5 0 (source only_valkey frames 5 0) (framed (1 ∷ []) ++ []) ≡ panic
decode-short_example = decode-short only_valkey frames 5 0 (1 ∷ []) [] (omega arith)
