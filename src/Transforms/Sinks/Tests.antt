-- ===== src/Transforms/Sinks/Tests.antt =====
-- The sinks at small batches.
use shotover_proxy.Prelude.{ℕ, ◌≡◌, ◌≢◌, refl, [], ◌∷◌, ◌++◌, codes, none, some, ok, map_results}
use shotover_proxy.Valkey.Frame.{error, simple_string}
use shotover_proxy.Message.Frame.{valkey_frame}
use shotover_proxy.Message.State.{Message, from_frame_at_instant, set_request_id}
use shotover_proxy.Message.Response.{
  from_request_to_error_response, to_error_response, metadata, replace_crlf, replace_lf,
  replace_with_dummy,
}
use shotover_proxy.Message.Samples.{only_valkey}
use shotover_proxy.Transforms.Sinks.{message, null_transform, debug_transform}
use shotover_proxy.Transforms.Sinks.Answers.{null_transform-replace_with_dummy}

abbrev draw : ℕ → ℕ
draw id = 100

abbrev ping : Message only_valkey
ping = from_frame_at_instant only_valkey 1 (valkey_frame (simple_string (codes "PING"))) none

abbrev pong : Message only_valkey
pong =
    record (from_frame_at_instant only_valkey 9 (valkey_frame (simple_string (codes "PONG")))
      none) { request_id = some 1 }

abbrev handled : Message only_valkey
handled =
    record (from_frame_at_instant only_valkey 100
      (valkey_frame (error (codes "ERR Handled by shotover null transform"))) none) {
        request_id = some 1;
      }

ping_is_handled : null_transform only_valkey draw (ping ∷ []) ≡ ok (handled ∷ [])
unfolding null_transform map_results from_request_to_error_response to_error_response metadata
    replace_crlf replace_lf from_frame_at_instant
ping_is_handled = refl

ping_is_returned : debug_transform only_valkey draw (message pong) (ping ∷ []) ≡ ok (pong ∷ [])
unfolding debug_transform map_results set_request_id from_frame_at_instant
ping_is_returned = refl

null_transform-replace_with_dummy_example :
    null_transform only_valkey draw ((ping ∷ []) ++ (replace_with_dummy only_valkey ping ∷ []))
    ≢ ok (handled ∷ [])
null_transform-replace_with_dummy_example =
    null_transform-replace_with_dummy only_valkey draw (ping ∷ []) [] ping (handled ∷ [])
