-- ===== src/Message/Frame.antt =====
-- shotover/src/frame/mod.rs and `CodecState` of shotover/src/codec/mod.rs.
use shotover_proxy.Prelude.{
  ℕ, Bool, true, false, Bytes, Option, none, some, Result, ok, panic, ◌>>=◌,
}
use shotover_proxy.Valkey.Frame.{ValkeyFrame, QueryType}

pub data MessageErrorType : Type 0 where
  internal rejected : MessageErrorType

-- The protocols whose frames other crates parse: their types, and what the source asks of them.
pub record Protocols : Type 1 where
  pub Compression : Type 0
  pub CassandraFrame : Type 0
  pub CassandraMetadata : Type 0
  pub KafkaCodecState : Type 0
  pub KafkaFrame : Type 0
  pub OpenSearchFrame : Type 0
  pub no_compression : Compression
  pub no_request_header : KafkaCodecState
  pub cassandra_from_bytes : Bytes → Compression → Result CassandraFrame
  pub valkey_from_bytes : Bytes → Result (Option ValkeyFrame)
  pub kafka_from_bytes : Bytes → KafkaCodecState → Result KafkaFrame
  pub open_search_from_bytes : Bytes → Result OpenSearchFrame
  pub cassandra_query_type : CassandraFrame → QueryType
  pub cassandra_cell_count : CassandraFrame → Result ℕ
  pub cassandra_metadata : CassandraFrame → CassandraMetadata
  pub cassandra_stream_id : CassandraFrame → ℕ
  pub raw_cell_count : Bytes → Result ℕ
  pub raw_metadata : Bytes → Result CassandraMetadata
  pub cassandra_error : CassandraMetadata → Bytes → MessageErrorType → CassandraFrame
  pub backpressure_response : CassandraMetadata → CassandraFrame
  pub produce_acks : KafkaFrame → Option ℕ

pub data MessageType : Type 0 where
  valkey cassandra kafka open_search dummy : MessageType

unfoldable pub is_inorder : MessageType → Bool
is_inorder cassandra = false
is_inorder valkey = true
is_inorder kafka = true
is_inorder open_search = true
is_inorder dummy = false

unfoldable pub same_type : MessageType → MessageType → Bool
same_type valkey valkey = true
same_type cassandra cassandra = true
same_type kafka kafka = true
same_type open_search open_search = true
same_type dummy dummy = true
same_type _ _ = false

pub data CodecState (P : Protocols) : Type 0 where
  cassandra_state : P.Compression → CodecState P
  kafka_state : P.KafkaCodecState → CodecState P
  valkey_state : CodecState P
  open_search_state : CodecState P
  dummy_state : CodecState P

pub data Frame (P : Protocols) : Type 0 where
  cassandra_frame : P.CassandraFrame → Frame P
  valkey_frame : ValkeyFrame → Frame P
  kafka_frame : P.KafkaFrame → Frame P
  open_search_frame : P.OpenSearchFrame → Frame P
  dummy_frame : Frame P

module _ (P : Protocols) where
  -- `MessageType::from(&CodecState)`
  unfoldable pub type_of_state : CodecState P → MessageType
  type_of_state (cassandra_state c) = cassandra
  type_of_state (kafka_state s) = kafka
  type_of_state valkey_state = valkey
  type_of_state open_search_state = open_search
  type_of_state dummy_state = dummy

  unfoldable pub as_codec_state : Frame P → CodecState P
  as_codec_state (cassandra_frame f) = cassandra_state P.no_compression
  as_codec_state (valkey_frame f) = valkey_state
  as_codec_state (kafka_frame f) = kafka_state P.no_request_header
  as_codec_state (open_search_frame f) = open_search_state
  as_codec_state dummy_frame = dummy_state

  unfoldable pub get_type : Frame P → MessageType
  get_type (cassandra_frame f) = cassandra
  get_type (valkey_frame f) = valkey
  get_type (kafka_frame f) = kafka
  get_type (open_search_frame f) = open_search
  get_type dummy_frame = dummy

  pub as_cassandra : CodecState P → Result P.Compression
  as_cassandra (cassandra_state c) = ok c
  as_cassandra _ = panic

  pub as_kafka : CodecState P → Result P.KafkaCodecState
  as_kafka (kafka_state s) = ok s
  as_kafka _ = panic

  -- `x.unwrap().0`
  abbrev whole_frame : Option ValkeyFrame → Result (Frame P)
  whole_frame none = panic
  whole_frame (some f) = ok (valkey_frame f)

  unfoldable pub from_bytes : Bytes → MessageType → CodecState P → Result (Frame P)
  unfolding as_cassandra as_kafka
  from_bytes bytes cassandra state = do
    c ← as_cassandra state
    f ← P.cassandra_from_bytes bytes c
    ok (cassandra_frame f)
  from_bytes bytes valkey state = do r ← P.valkey_from_bytes bytes; whole_frame r
  from_bytes bytes kafka state = do
    s ← as_kafka state
    f ← P.kafka_from_bytes bytes s
    ok (kafka_frame f)
  from_bytes bytes dummy state = ok dummy_frame
  from_bytes bytes open_search state = do
    f ← P.open_search_from_bytes bytes
    ok (open_search_frame f)
