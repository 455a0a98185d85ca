-- ===== src/Message/Samples.antt =====
-- Protocols of which only valkey parses, for the tests.
use shotover_proxy.Prelude.{ℕ, none, some, ok, err}
use shotover_proxy.Valkey.Frame.{simple_string, write}
use shotover_proxy.Message.Frame.{Protocols}

abbrev pub only_valkey : Protocols
only_valkey = record {
  Compression = ℕ;
  CassandraFrame = ℕ;
  CassandraMetadata = ℕ;
  KafkaCodecState = ℕ;
  KafkaFrame = ℕ;
  OpenSearchFrame = ℕ;
  no_compression = 0;
  no_request_header = 0;
  cassandra_from_bytes = λ b c. err "not cassandra";
  valkey_from_bytes = λ b. ok (some (simple_string b));
  kafka_from_bytes = λ b s. err "not kafka";
  open_search_from_bytes = λ b. err "not opensearch";
  cassandra_query_type = λ f. write;
  cassandra_cell_count = λ f. ok 1;
  cassandra_metadata = λ f. 0;
  cassandra_stream_id = λ f. 0;
  raw_cell_count = λ b. ok 1;
  raw_metadata = λ b. ok 0;
  cassandra_error = λ m text ty. 0;
  backpressure_response = λ m. 0;
  produce_acks = λ f. none;
}
