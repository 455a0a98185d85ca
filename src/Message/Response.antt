-- ===== src/Message/Response.antt =====
-- `Metadata` and the methods of `Message` that make responses: errors, dummies and backpressure.
use shotover_proxy.Prelude.{
  ℕ, ◌*◌, ◌+◌, Bool, true, false, [], ◌∷◌, ◌++◌, Bytes, Option, none, some, Result, ok, err, panic,
  ◌>>=◌, codes, leb, ◌==◌, if◌then◌else◌, length,
}
use shotover_proxy.Valkey.Frame.{error}
use shotover_proxy.Message.Frame.{
  Protocols, MessageErrorType, valkey, cassandra, kafka, open_search, dummy, Frame, cassandra_frame,
  valkey_frame, kafka_frame, open_search_frame, dummy_frame,
}
use shotover_proxy.Message.State.{
  MessageInner, raw_bytes, parsed, modified, Message, Metadata, cassandra_metadata, valkey_metadata,
  kafka_metadata, open_search_metadata, unwrap, from_frame_at_instant, message_type, frame,
}

-- `.replace("\r\n", " ").replace('\n', " ")`, in two passes.
unfoldable pub replace_crlf : Bytes → Bytes
replace_crlf [] = []
replace_crlf (x ∷ []) = x ∷ []
replace_crlf (x ∷ y ∷ rest) =
    let behind = replace_crlf rest in
    let next = replace_crlf (y ∷ rest) in
    if x == 13 then (if y == 10 then b' ' ∷ behind else x ∷ next) else x ∷ next

unfoldable pub replace_lf : Bytes → Bytes
replace_lf [] = []
replace_lf (x ∷ rest) = (if x == 10 then b' ' else x) ∷ replace_lf rest

module _ (P : Protocols) where
  abbrev pub frame_metadata : Frame P → Result (Metadata P)
  frame_metadata (cassandra_frame f) = ok (cassandra_metadata (P.cassandra_metadata f))
  frame_metadata (kafka_frame f) = ok kafka_metadata
  frame_metadata (valkey_frame f) = ok valkey_metadata
  frame_metadata dummy_frame = err "dummy has no metadata"
  frame_metadata (open_search_frame f) = err "OpenSearch has no metadata"

  abbrev pub raw_cassandra : Result P.CassandraMetadata → Result (Metadata P)
  raw_cassandra (ok meta) = ok (cassandra_metadata meta)
  raw_cassandra (err e) = err e
  raw_cassandra panic = panic

  abbrev pub inner_metadata : MessageInner P → Result (Metadata P)
  inner_metadata (raw_bytes bytes cassandra) = raw_cassandra (P.raw_metadata bytes)
  inner_metadata (raw_bytes bytes valkey) = ok valkey_metadata
  inner_metadata (raw_bytes bytes kafka) = ok kafka_metadata
  inner_metadata (raw_bytes bytes dummy) = err "Dummy has no metadata"
  inner_metadata (raw_bytes bytes open_search) = err "OpenSearch has no metadata"
  inner_metadata (parsed bytes f) = frame_metadata f
  inner_metadata (modified f) = frame_metadata f

  unfoldable pub metadata : Message P → Result (Metadata P)
  metadata m = do inner ← unwrap m.inner; inner_metadata inner

  -- `id` is the id of the new message.
  unfoldable pub to_error_response : ℕ → Metadata P → Bytes → MessageErrorType → Result (Message P)
  unfolding from_frame_at_instant replace_crlf replace_lf
  to_error_response id valkey_metadata text ty = ok (
      from_frame_at_instant P id
        (valkey_frame (error (replace_lf (replace_crlf (codes "ERR " ++ text))))) none)
  to_error_response id (cassandra_metadata meta) text ty =
      ok (from_frame_at_instant P id (cassandra_frame (P.cassandra_error meta text ty)) none)
  to_error_response id kafka_metadata text ty =
      err "A generic error cannot be formed because the kafka protocol does not support it"
  to_error_response id open_search_metadata text ty = panic

  abbrev pub answering : Option ℕ → Message P → Message P
  answering none response = response
  answering (some request_id) response = record response { request_id = some request_id }

  unfoldable pub from_response_to_error_response :
      ℕ → Message P → Bytes → MessageErrorType → Result (Message P)
  unfolding metadata to_error_response
  from_response_to_error_response id m text ty = do
    meta ← metadata m
    response ← to_error_response id meta text ty
    ok (answering m.request_id response)

  unfoldable pub from_request_to_error_response :
      ℕ → Message P → Bytes → MessageErrorType → Result (Message P)
  unfolding metadata to_error_response
  from_request_to_error_response id m text ty = do
    meta ← metadata m
    response ← to_error_response id meta text ty
    ok (record response { request_id = some m.id })

  unfoldable pub replace_with_dummy : Message P → Message P
  replace_with_dummy m = record m { inner = some (modified dummy_frame) }

  unfoldable pub is_dummy : Message P → Bool
  is_dummy m = elim m.inner [
    | some inner ↦ elim inner [ modified f ↦ elim f [ dummy_frame ↦ true | _ ↦ false ] | _ ↦ false ]
    | none ↦ false
  ]

  abbrev pub unacknowledged : Option (Frame P) → Bool
  unacknowledged (some (kafka_frame f)) = elim (P.produce_acks f) [
    | none ↦ false
    | some acks ↦ acks == 0
  ]
  unacknowledged _ = false

  unfoldable pub response_is_dummy : Message P → Result (Message P × Bool)
  unfolding message_type frame
  response_is_dummy m = message_type P m >>= λ ty. elim ty [
    | kafka ↦ (do (m', f) ← frame P m; ok (m', unacknowledged f))
    | dummy ↦ ok (m, true)
    | _ ↦ ok (m, false)
  ]

  abbrev pub backpressure_frame : Metadata P → Result (Frame P)
  backpressure_frame (cassandra_metadata meta) = ok (cassandra_frame (P.backpressure_response meta))
  backpressure_frame _ = panic

  unfoldable pub to_backpressure : ℕ → Message P → Result (Message P)
  unfolding metadata from_frame_at_instant
  to_backpressure id m = do
    meta ← metadata m
    f ← backpressure_frame meta
    ok (from_frame_at_instant P id f m.received_from_source_or_sink_at)

  -- Bytes 2 and 3 as an `i16`, given as its pattern of 16 bits.
  abbrev raw_stream_id : Bytes → Option ℕ
  raw_stream_id (b0 ∷ b1 ∷ b2 ∷ b3 ∷ rest) =
      if leb 9 (length (b0 ∷ b1 ∷ b2 ∷ b3 ∷ rest)) then some (b2 * 256 + b3) else none
  raw_stream_id _ = none

  abbrev frame_stream_id : Frame P → Option ℕ
  frame_stream_id (cassandra_frame f) = some (P.cassandra_stream_id f)
  frame_stream_id _ = none

  pub stream_id : Message P → Option ℕ
  stream_id m = elim m.inner [
    | none ↦ none
    | some inner ↦ elim inner [
      | raw_bytes bytes ty ↦ elim ty [ cassandra ↦ raw_stream_id bytes | _ ↦ none ]
      | parsed bytes f ↦ frame_stream_id f
      | modified f ↦ frame_stream_id f
    ]
  ]
