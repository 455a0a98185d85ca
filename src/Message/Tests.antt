-- ===== src/Message/Tests.antt =====
-- A message that is parsed, and the theorems at it.
use shotover_proxy.Prelude.{◌≡◌, refl, codes, none, some, ok}
use shotover_proxy.Valkey.Frame.{error, simple_string}
use shotover_proxy.Message.Frame.{
  rejected, MessageType, Frame, valkey_frame, from_bytes, type_of_state, valkey_state,
}
use shotover_proxy.Message.Samples.{only_valkey}
use shotover_proxy.Message.State.{
  parsed, Message, Encodable, from_bytes_at_instant, frame, invalidate_cache, into_encodable,
  ensure_parsed, parsed_frame, message_type, from_frame_at_instant,
}
use shotover_proxy.Message.Response.{
  from_request_to_error_response, to_error_response, metadata, replace_crlf, replace_lf,
}
use shotover_proxy.Message.Caching.{frame-frame}
use shotover_proxy.Message.Presence.{bytes, framed, invalidated, Reachable-into_encodable}

abbrev hello : Message only_valkey
hello = from_bytes_at_instant only_valkey 7 (codes "hello") valkey_state none

abbrev hello_frame : Frame only_valkey
hello_frame = valkey_frame (simple_string (codes "hello"))

abbrev parsed_hello : Message only_valkey
parsed_hello = record {
  inner = some (parsed (codes "hello") hello_frame);
  received_from_source_or_sink_at = none;
  codec_state = valkey_state;
  id = 7;
  request_id = none;
}

hello_parses : frame only_valkey hello ≡ ok (parsed_hello, some hello_frame)
unfolding frame ensure_parsed parsed_frame from_bytes from_bytes_at_instant type_of_state
hello_parses = refl

frame-frame_example :
    (into_encodable only_valkey parsed_hello ≡ into_encodable only_valkey hello)
    × (frame only_valkey parsed_hello ≡ ok (parsed_hello, some hello_frame))
frame-frame_example = frame-frame only_valkey hello parsed_hello (some hello_frame) hello_parses

abbrev refused : Message only_valkey
refused =
    record (from_frame_at_instant only_valkey 8 (valkey_frame (error (codes "ERR no"))) none) {
      request_id = some 7;
    }

hello-refused :
    from_request_to_error_response only_valkey 8 hello (codes "no") rejected ≡ ok refused
unfolding from_request_to_error_response to_error_response metadata replace_crlf replace_lf
    from_bytes_at_instant type_of_state from_frame_at_instant
hello-refused = refl

Reachable-into_encodable_example :
    ((t : MessageType) × (message_type only_valkey (invalidate_cache only_valkey parsed_hello)
        ≡ ok t))
    × ((e : Encodable only_valkey) × (into_encodable only_valkey
            (invalidate_cache only_valkey parsed_hello)
          ≡ ok e))
Reachable-into_encodable_example =
    Reachable-into_encodable only_valkey (invalidate_cache only_valkey parsed_hello) (
      invalidated parsed_hello (
        framed hello parsed_hello (some hello_frame) (bytes 7 (codes "hello") valkey_state none)
          hello_parses))
