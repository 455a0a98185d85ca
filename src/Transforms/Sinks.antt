-- ===== src/Transforms/Sinks.antt =====
-- The terminating transforms of null.rs and debug/returner.rs.
pub mod Answers
mod Tests
use mathlib.Core.Option
use shotover_proxy.Prelude.{
  ℕ, List, [], ◌∷◌, Bytes, codes, Option, none, some, Result, ok, err, panic, ◌>>=◌, map_results,
}
use shotover_proxy.Valkey.Frame.{bulk_string}
use shotover_proxy.Message.Frame.{Protocols, internal, valkey_frame}
use shotover_proxy.Message.State.{Message, from_frame_at_instant, set_request_id}
use shotover_proxy.Message.Response.{from_request_to_error_response}

pub data Response (P : Protocols) : Type 0 where
  message : Message P → Response P
  valkey_text : Bytes → Response P
  fail : Response P

-- `draw` gives the ids of the responses.
module _ (P : Protocols) (draw : ℕ → ℕ) where
  abbrev pub null_response : Message P → Result (Message P)
  null_response request =
      from_request_to_error_response P (draw request.id) request
        (codes "Handled by shotover null transform") internal

  -- `NullSink::transform`
  pub null_transform : List (Message P) → Result (List (Message P))
  unfolding map_results
  null_transform requests = map_results null_response requests

  abbrev pub returned_response : Response P → Message P → Result (Message P)
  returned_response (message m) request = ok (set_request_id P request.id m)
  returned_response (valkey_text text) request = ok (
      set_request_id P request.id
        (from_frame_at_instant P (draw request.id) (valkey_frame (bulk_string text)) none))
  returned_response fail request = err "Intentional Fail!"

  -- `DebugReturner::transform`
  pub debug_transform : Response P → List (Message P) → Result (List (Message P))
  unfolding map_results
  debug_transform response requests = map_results (returned_response response) requests
