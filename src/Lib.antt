-- ===== src/Lib.antt =====
-- Shotover, a proxy between database clients and clusters: its messages, some of its transforms, and
-- the parts that decide where a request goes and which request a response answers.
--
-- Messages: Message/ models shotover/src/message/mod.rs, shotover/src/frame/mod.rs and `CodecState` of
-- shotover/src/codec/mod.rs.
-- * Message/Frame has the protocols. What the source leaves to other crates, the frames of Cassandra,
--   Kafka and OpenSearch with their parsers, is the record `Protocols`, a parameter of all the rest.
-- * Message/State has `Message` and `MessageInner` with their constructors and methods, and
--   Message/Response the metadata, the error responses, the dummies and the backpressure response. An
--   id that the source draws at random is an argument.
--
-- Transforms: Transforms/ models files of shotover/src/transforms/. A transform is a function of its
-- state, of the state of the rest of the chain and of a batch of requests; `call_next_transform` is its
-- parameter `next`.
-- * Transforms/Filter is filter.rs, Transforms/Throttling is throttling.rs with the limiter of the
--   governor crate as the record `Limiter`, and Transforms/Pending is the loop that both end with.
-- * Transforms/Coalesce is coalesce.rs without the task that sleeps.
-- * Transforms/Tee is tee.rs: the pairing of the responses of both chains, with the queues or maps that
--   wait for the other side, and Transforms/Tee/Behaviour what is done with a mismatch. The loop over both
--   queues runs on the number of responses that wait as fuel; each round takes at least one.
-- * Transforms/ParallelMap is parallel_map.rs. Its rounds run on the number of messages as fuel; with one
--   chain or more, each round takes at least one message.
-- * Transforms/Chain is the validation of a chain in chain.rs.
-- * Transforms/Sinks is null.rs and debug/returner.rs.
--
-- Cassandra: models of shotover/src/transforms/cassandra/sink_cluster/.
-- * Cassandra/Murmur is murmur.rs: `Hasher`, with `new`, `write` and `finish`. The loop over whole
--   blocks runs on the length of the input as fuel, and each round takes 16 bytes, so it is enough.
-- * Cassandra/RoutingKey is routing_key.rs, which hashes the columns of a partition key.
-- * Cassandra/TokenRing is token_ring.rs with the records of node.rs and node_pool.rs that it reads. A
--   host id and an address are natural numbers, a connection is a type parameter.
-- * Cassandra/NodePool is node_pool.rs: updates and the choice of replicas in NodePool itself, the opening
--   of connections in NodePool/Connect. A reference to a node is its place in the list of nodes; the
--   connection factory and the shuffle are parameters.
--
-- Kafka: Kafka/Codec is shotover/src/codec/kafka.rs, the decoder in Codec itself and the encoder in
-- Codec/Encode. What it asks of frames is the record `KafkaFrames`; the channel from the encoder to the
-- decoder is the list of request headers that are on their way.
--
-- Valkey: models of shotover/src/codec/valkey.rs and shotover/src/transforms/valkey/sink_cluster.rs
-- and its neighbours.
-- * Valkey/Frame is the frame of the redis-protocol crate. An `i64` is its pattern of 64 bits.
-- * Valkey/Codec is `ValkeyDecoder`, whose parser of frames is a parameter, and the part of
--   `ValkeyEncoder` that classifies requests. Valkey/Codec/Server describes what a
--   server sends.
-- * Valkey/Cluster/Routing is `RoutingInfo` and `ResponseJoin`; the crc16 function is a parameter.
-- * Valkey/Cluster/Slots is `SlotMap`, `parse_slots` and `build_slot_to_server`.
-- * Valkey/Cluster/Redirection is `Redirection::parse`.
-- * Valkey/Cluster/Sink is `ValkeySinkCluster` as explicit state (Prelude/Stateful has the steps): sending
--   in Sink itself, `build_connections` in Sink/Build, `dispatch_message` and `on_auth` in Sink/Dispatch,
--   and `transform` in Sink/Responses. The nodes, the connection pool and the random choices are the
--   record `Nodes`; a future is the response that it will give. Valkey/Errors is mod.rs of the folder.
-- * Valkey/PortsRewrite is cluster_ports_rewrite.rs; the reader and the writer of the csv crate are
--   parameters.
--
-- Bytes are natural numbers. Words keep their wrap-around: `% 2 ^ 64` for a hash, `% 2 ^ 16` for a
-- slot. An `Err` is `err`, a panic of the source is `panic` (Prelude/Results).
--
-- Not modelled: connections, tasks and channels, which are input and output; the frames of Cassandra
-- and Kafka, which other crates parse; the Kafka sinks and frames; configuration, metrics and hot reloading.
pub mod Cassandra
pub mod Kafka
pub mod Message
pub mod Prelude
pub mod Transforms
pub mod Valkey
