-- ===== src/Kafka/Codec/Short.antt =====
-- Messages of a client that are too short for a header.
use shotover_proxy.Prelude.{
  ℕ, ◌^◌, ◌≡◌, ◌<◌, refl, ap, ◌∙◌, [], ◌∷◌, ◌++◌, Bytes, none, panic, length, take,
  take-append_exact, arith,
}
use shotover_proxy.Message.Frame.{Protocols}
use shotover_proxy.Kafka.Codec.{KafkaFrames, KafkaDecoder, decode, header_of, header_in}
use shotover_proxy.Kafka.Codec.Framing.{framed, get_length-framed}

module _ (P : Protocols) (K : KafkaFrames P) (id at : ℕ) where
  abbrev pub source : KafkaDecoder
  source = record { request_header_rx = none; expect_raw_sasl = none }

  header_in-short : (payload : Bytes) → length payload < 4 → header_in P K payload ≡ panic
  unfolding header_in
  header_in-short [] h = refl
  header_in-short (a ∷ []) h = refl
  header_in-short (a ∷ b ∷ []) h = refl
  header_in-short (a ∷ b ∷ c ∷ []) h = refl
  header_in-short (a ∷ b ∷ c ∷ d ∷ rest) h = absurd (omega arith)

  -- At a source that expects no SASL bytes, a message of less than four bytes behind its length prefix
  -- makes the decoder panic, whatever follows it.
  pub decode-short :
      (payload rest : Bytes)
      → length payload < 4
      → decode P K id at source (framed payload ++ rest) ≡ panic
  unfolding decode header_of
  decode-short payload rest h =
      let small : length payload < 2 ^ 32 = omega arith in
      let none_read : header_in P K (take (length payload) (payload ++ rest)) ≡ panic =
        ap (header_in P K) (take-append_exact payload rest (length payload) refl)
        ∙ header_in-short payload h in
      rw (get_length-framed payload rest small, none_read) refl
