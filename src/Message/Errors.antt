-- ===== src/Message/Errors.antt =====
-- The error responses of message/mod.rs: their request and their type.
use shotover_proxy.Prelude.{
  ℕ, ◌≡◌, refl, sym, ap, false, Bytes, some, Result, ok, err, panic, ok_injective, bind_ok,
}
use shotover_proxy.Message.Frame.{
  Protocols, MessageErrorType, MessageType, valkey, cassandra, kafka, open_search, dummy, Frame,
  cassandra_frame, valkey_frame, kafka_frame, open_search_frame, dummy_frame, get_type,
}
use shotover_proxy.Message.State.{
  MessageInner, raw_bytes, parsed, modified, Message, Metadata, cassandra_metadata, valkey_metadata,
  kafka_metadata, open_search_metadata, unwrap, inner_type, message_type, from_frame_at_instant,
}
use shotover_proxy.Message.Response.{
  metadata, inner_metadata, frame_metadata, raw_cassandra, to_error_response,
  from_request_to_error_response, is_dummy,
}

abbrev pub type_of_metadata : {P : Protocols} → Metadata P → MessageType
type_of_metadata (cassandra_metadata meta) = cassandra
type_of_metadata valkey_metadata = valkey
type_of_metadata kafka_metadata = kafka
type_of_metadata open_search_metadata = open_search

module _ (P : Protocols) where
  frame_metadata-type :
      (f : Frame P) (meta : Metadata P)
      → frame_metadata P f ≡ ok meta
      → get_type P f ≡ type_of_metadata meta
  unfolding get_type
  frame_metadata-type (cassandra_frame f) meta h = ap type_of_metadata (ok_injective _ _ h)
  frame_metadata-type (valkey_frame f) meta h = ap type_of_metadata (ok_injective _ _ h)
  frame_metadata-type (kafka_frame f) meta h = ap type_of_metadata (ok_injective _ _ h)
  frame_metadata-type dummy_frame meta h = cc
  frame_metadata-type (open_search_frame f) meta h = cc

  raw_cassandra-type :
      (r : Result P.CassandraMetadata) (meta : Metadata P)
      → raw_cassandra P r ≡ ok meta
      → cassandra ≡ type_of_metadata meta
  raw_cassandra-type (ok c) meta h = ap type_of_metadata (ok_injective _ _ h)
  raw_cassandra-type (err e) meta h = cc
  raw_cassandra-type panic meta h = cc

  inner_metadata-type :
      (i : MessageInner P) (meta : Metadata P)
      → inner_metadata P i ≡ ok meta
      → inner_type P i ≡ type_of_metadata meta
  inner_metadata-type (raw_bytes bytes cassandra) meta h =
      raw_cassandra-type (P.raw_metadata bytes) meta h
  inner_metadata-type (raw_bytes bytes valkey) meta h = ap type_of_metadata (ok_injective _ _ h)
  inner_metadata-type (raw_bytes bytes kafka) meta h = ap type_of_metadata (ok_injective _ _ h)
  inner_metadata-type (raw_bytes bytes dummy) meta h = cc
  inner_metadata-type (raw_bytes bytes open_search) meta h = cc
  inner_metadata-type (parsed bytes f) meta h = frame_metadata-type f meta h
  inner_metadata-type (modified f) meta h = frame_metadata-type f meta h

  -- What is said of an error response: its own id, its type, and that it reaches the client.
  abbrev Speaks : ℕ → MessageType → Message P → Type 0
  Speaks id ty r = (r.id ≡ id) × (message_type P r ≡ ok ty) × (is_dummy P r ≡ false)

  to_error_response-Speaks :
      (id : ℕ) (meta : Metadata P) (text : Bytes) (ty : MessageErrorType) (r : Message P)
      → to_error_response P id meta text ty ≡ ok r
      → Speaks id (type_of_metadata meta) r
  unfolding to_error_response from_frame_at_instant message_type is_dummy get_type
  to_error_response-Speaks id (cassandra_metadata meta) text ty r h =
      rw (sym (ok_injective _ _ h)) (refl, refl, refl)
  to_error_response-Speaks id valkey_metadata text ty r h =
      rw (sym (ok_injective _ _ h)) (refl, refl, refl)
  to_error_response-Speaks id kafka_metadata text ty r h = cc
  to_error_response-Speaks id open_search_metadata text ty r h = cc

  -- Whenever an error response to a request can be made: it answers that request's id, it has the
  -- type of the request, so that the client's protocol can carry it, and it is no dummy.
  pub from_request_to_error_response-message_type :
      (id : ℕ) (m : Message P) (text : Bytes) (ty : MessageErrorType) (r : Message P)
      → from_request_to_error_response P id m text ty ≡ ok r
      → (r.request_id ≡ some m.id) × (message_type P r ≡ message_type P m) × (is_dummy P r ≡ false)
  unfolding from_request_to_error_response message_type is_dummy metadata
  from_request_to_error_response-message_type id m text ty r h =
      let (meta, hm, h1) = bind_ok (metadata P m) _ r h in
      let (e, he, h2) = bind_ok (to_error_response P id meta text ty) _ r h1 in
      let (i, hi, h3) = bind_ok (unwrap m.inner) _ meta hm in
      let (own, spoken, shown) = to_error_response-Speaks id meta text ty e he in
      let same : inner_type P i ≡ type_of_metadata meta = inner_metadata-type i meta h3 in
      rw (sym (ok_injective _ _ h2), hi, same) (refl, spoken, shown)
