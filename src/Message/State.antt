-- ===== src/Message/State.antt =====
-- `Message`: the raw, parsed and modified states of a message, and its metadata.
use mathlib.Core.Option
use shotover_proxy.Prelude.{
  ℕ, Bool, true, false, [], Bytes, Option, none, some, Result, ok, err, panic, ◌>>=◌, if◌then◌else◌,
  ◌||◌,
}
use shotover_proxy.Valkey.Frame.{QueryType, read_write, valkey_query_type}
use shotover_proxy.Message.Frame.{
  Protocols, MessageType, valkey, cassandra, dummy, CodecState, Frame, cassandra_frame,
  valkey_frame, dummy_frame, type_of_state, as_codec_state, get_type, from_bytes, same_type,
}

pub data MessageInner (P : Protocols) : Type 0 where
  raw_bytes : Bytes → MessageType → MessageInner P
  parsed : Bytes → Frame P → MessageInner P
  modified : Frame P → MessageInner P

-- An instant is a number.
pub record Message (P : Protocols) : Type 0 where
  pub inner : Option (MessageInner P)
  pub received_from_source_or_sink_at : Option ℕ
  pub codec_state : CodecState P
  pub id : ℕ
  pub request_id : Option ℕ

pub data Encodable (P : Protocols) : Type 0 where
  bytes_of : Bytes → Encodable P
  frame_of : Frame P → Encodable P

pub data Metadata (P : Protocols) : Type 0 where
  cassandra_metadata : P.CassandraMetadata → Metadata P
  valkey_metadata kafka_metadata open_search_metadata : Metadata P

abbrev pub unwrap : {A : Type 0} → Option A → Result A
unwrap none = panic
unwrap (some a) = ok a

module _ (P : Protocols) where
  -- The constructors; `id` is the number that `rand::random()` draws.
  unfoldable pub from_bytes_at_instant : ℕ → Bytes → CodecState P → Option ℕ → Message P
  unfolding type_of_state
  from_bytes_at_instant id bytes state at = record {
    inner = some (raw_bytes bytes (type_of_state P state));
    received_from_source_or_sink_at = at;
    codec_state = state;
    id = id;
    request_id = none;
  }

  unfoldable pub from_bytes_and_frame_at_instant : ℕ → Bytes → Frame P → Option ℕ → Message P
  unfolding as_codec_state
  from_bytes_and_frame_at_instant id bytes frame at = record {
    inner = some (parsed bytes frame);
    received_from_source_or_sink_at = at;
    codec_state = as_codec_state P frame;
    id = id;
    request_id = none;
  }

  unfoldable pub from_frame_at_instant : ℕ → Frame P → Option ℕ → Message P
  unfolding as_codec_state
  from_frame_at_instant id frame at = record {
    inner = some (modified frame);
    received_from_source_or_sink_at = at;
    codec_state = as_codec_state P frame;
    id = id;
    request_id = none;
  }

  unfoldable pub from_frame_diverged : Frame P → Message P → Message P
  unfolding as_codec_state
  from_frame_diverged frame diverged_from = record {
    inner = some (modified frame);
    received_from_source_or_sink_at = diverged_from.received_from_source_or_sink_at;
    codec_state = as_codec_state P frame;
    id = diverged_from.id;
    request_id = none;
  }

  -- The state afterwards, and whether there is a frame.
  abbrev pub after_parse : Bytes → MessageType → Result (Frame P) → Result (MessageInner P × Bool)
  after_parse bytes ty (ok frame) = ok (parsed bytes frame, true)
  after_parse bytes ty (err e) = ok (raw_bytes bytes ty, false)
  after_parse bytes ty panic = panic

  unfoldable pub ensure_parsed : MessageInner P → CodecState P → Result (MessageInner P × Bool)
  unfolding from_bytes
  ensure_parsed (raw_bytes bytes ty) state = after_parse bytes ty (from_bytes P bytes ty state)
  ensure_parsed (parsed bytes frame) state = ok (parsed bytes frame, true)
  ensure_parsed (modified frame) state = ok (modified frame, true)

  -- The second half of `frame`; `unreachable!` panics.
  unfoldable pub parsed_frame : MessageInner P × Bool → Result (Option (Frame P))
  parsed_frame (inner, false) = ok none
  parsed_frame (raw_bytes bytes ty, true) = panic
  parsed_frame (parsed bytes frame, true) = ok (some frame)
  parsed_frame (modified frame, true) = ok (some frame)

  unfoldable pub frame : Message P → Result (Message P × Option (Frame P))
  unfolding ensure_parsed parsed_frame
  frame m = do
    inner ← unwrap m.inner
    r ← ensure_parsed inner m.codec_state
    f ← parsed_frame r
    ok (record m { inner = some r.0 }, f)

  pub into_frame : Message P → Result (Option (Frame P))
  unfolding ensure_parsed parsed_frame
  into_frame m = do inner ← unwrap m.inner; r ← ensure_parsed inner m.codec_state; parsed_frame r

  -- What a transform does with the `&mut Frame` that `frame` returns: the frame becomes `f`.
  abbrev pub set_frame : Frame P → MessageInner P → MessageInner P
  set_frame f (raw_bytes bytes ty) = raw_bytes bytes ty
  set_frame f (parsed bytes old) = parsed bytes f
  set_frame f (modified old) = modified f

  abbrev pub map_inner : (MessageInner P → MessageInner P) → Message P → Message P
  map_inner f m = record m { inner = Option.map f m.inner }

  abbrev pub edit : Frame P → Message P → Message P
  edit f m = map_inner (set_frame f) m

  unfoldable pub invalidate_inner : MessageInner P → MessageInner P
  invalidate_inner (raw_bytes bytes ty) = raw_bytes bytes ty
  invalidate_inner (parsed bytes frame) = modified frame
  invalidate_inner (modified frame) = modified frame

  unfoldable pub invalidate_cache : Message P → Message P
  unfolding invalidate_inner
  invalidate_cache m = map_inner invalidate_inner m

  abbrev pub encode_frame : Frame P → Encodable P
  encode_frame dummy_frame = bytes_of []
  encode_frame f = frame_of f

  abbrev pub encode_inner : MessageInner P → Encodable P
  encode_inner (raw_bytes bytes ty) = bytes_of bytes
  encode_inner (parsed bytes frame) = bytes_of bytes
  encode_inner (modified frame) = encode_frame frame

  unfoldable pub into_encodable : Message P → Result (Encodable P)
  into_encodable m = do inner ← unwrap m.inner; ok (encode_inner inner)

  unfoldable pub set_request_id : ℕ → Message P → Message P
  set_request_id request_id m = record m { request_id = some request_id }

  unfoldable pub clone_with_new_id : ℕ → Message P → Message P
  clone_with_new_id id m = record m { received_from_source_or_sink_at = none; id = id }

  abbrev pub inner_type : MessageInner P → MessageType
  inner_type (raw_bytes bytes ty) = ty
  inner_type (parsed bytes frame) = get_type P frame
  inner_type (modified frame) = get_type P frame

  unfoldable pub message_type : Message P → Result MessageType
  unfolding get_type
  message_type m = do inner ← unwrap m.inner; ok (inner_type inner)

  unfoldable pub ensure_message_type : MessageType → Message P → Result Bool
  unfolding same_type message_type
  ensure_message_type expected m = do
    ty ← message_type m
    if same_type ty expected || same_type ty dummy
        then ok true
        else err "Expected message of another type"

  abbrev pub frame_cell_count : Frame P → Result ℕ
  frame_cell_count (cassandra_frame f) = P.cassandra_cell_count f
  frame_cell_count (valkey_frame f) = ok 1
  frame_cell_count dummy_frame = ok 1
  frame_cell_count _ = panic

  abbrev pub inner_cell_count : MessageInner P → Result ℕ
  inner_cell_count (raw_bytes bytes valkey) = ok 1
  inner_cell_count (raw_bytes bytes cassandra) = P.raw_cell_count bytes
  inner_cell_count (raw_bytes bytes dummy) = ok 1
  inner_cell_count (raw_bytes bytes _) = panic
  inner_cell_count (parsed bytes f) = frame_cell_count f
  inner_cell_count (modified f) = frame_cell_count f

  unfoldable pub cell_count : Message P → Result ℕ
  cell_count m = do inner ← unwrap m.inner; inner_cell_count inner

  abbrev pub query_type_of : Option (Frame P) → Result QueryType
  query_type_of (some (cassandra_frame f)) = ok (P.cassandra_query_type f)
  query_type_of (some (valkey_frame f)) = ok (valkey_query_type f)
  query_type_of (some _) = panic
  query_type_of none = ok read_write

  unfoldable pub get_query_type : Message P → Result (Message P × QueryType)
  unfolding frame valkey_query_type
  get_query_type m = do (m', f) ← frame m; q ← query_type_of f; ok (m', q)
