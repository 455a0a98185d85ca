-- ===== src/Transforms/Filter/Tests.antt =====
-- A filter that lets reads through.
use shotover_proxy.Prelude.{
  ℕ, ◌≡◌, ◌≢◌, refl, List, [], ◌∷◌, ◌++◌, Bytes, codes, none, some, Result, ok, map_get, map_insert,
  map_remove, arith, sym, ap, ok_injective,
}
use shotover_proxy.Valkey.Frame.{
  error, bulk_string, array, cons, nil, read, valkey_query_type, to_ascii_uppercase,
}
use shotover_proxy.Prelude.{bytes_eq}
use shotover_proxy.Message.Frame.{Frame, valkey_frame}
use shotover_proxy.Message.State.{
  Message, from_frame_at_instant, frame, ensure_parsed, parsed_frame, get_query_type,
}
use shotover_proxy.Message.Response.{
  from_request_to_error_response, to_error_response, metadata, replace_crlf, replace_lf,
  replace_with_dummy,
}
use shotover_proxy.Message.Samples.{only_valkey}
use shotover_proxy.Transforms.Pending.{AllAnswer, Distinct, replace_responses}
use shotover_proxy.Transforms.Filter.{
  allow_list, QueryTypeFilter, filter_requests, filter_request, refuse, filter_out, transform,
}
use shotover_proxy.Transforms.Filter.Fates.{IdsDiffer}
use shotover_proxy.Transforms.Filter.Refusal.{Run, transform-Run}
use shotover_proxy.Transforms.Filter.Dummies.{transform-replace_with_dummy}

abbrev draw : ℕ → ℕ
draw id = 100

abbrev command : Bytes → Frame only_valkey
command name = valkey_frame (array (cons (bulk_string name) nil))

abbrev get : Message only_valkey
get = from_frame_at_instant only_valkey 1 (command (codes "GET")) none

abbrev set : Message only_valkey
set = from_frame_at_instant only_valkey 2 (command (codes "SET")) none

abbrev readers : QueryTypeFilter only_valkey
readers = record { filter = allow_list (read ∷ []); filtered_requests = [] }

abbrev refused_set : Message only_valkey
refused_set =
    record (from_frame_at_instant only_valkey 100
      (valkey_frame (error (codes "ERR Message was filtered out by shotover"))) none) {
        request_id = some 2;
      }

set_is_filtered :
    filter_requests only_valkey draw (allow_list (read ∷ [])) (get ∷ set ∷ []) []
    ≡ ok (get ∷ replace_with_dummy only_valkey set ∷ [], map_insert 2 refused_set [])
unfolding filter_requests filter_request refuse filter_out get_query_type frame ensure_parsed
    parsed_frame valkey_query_type bytes_eq to_ascii_uppercase from_request_to_error_response
    to_error_response metadata replace_crlf replace_lf from_frame_at_instant replace_with_dummy
set_is_filtered = refl

-- The rest of the chain answers the filtered request with a dummy response, and nothing else.
abbrev dummy_response : Message only_valkey
dummy_response =
    record (replace_with_dummy only_valkey
      (from_frame_at_instant only_valkey 50 (command []) none)) { request_id = some 2 }

abbrev next : ℕ → List (Message only_valkey) → Result (ℕ × List (Message only_valkey))
next w sent = ok (w, dummy_response ∷ [])

next_once :
    (w w' : ℕ) (sent responses : List (Message only_valkey))
    → next w sent ≡ ok (w', responses)
    → Distinct only_valkey responses
next_once w w' sent responses h =
    rw (sym (ap (λ (x : ℕ × List (Message only_valkey)). x.1) (ok_injective _ _ h))) (tt, tt)

nothing_kept : AllAnswer only_valkey []
unfolding map_get
nothing_kept id kept found = cc

set_is_refused :
    transform only_valkey draw next readers 0 (get ∷ set ∷ []) ≡ ok (readers, 0, refused_set ∷ [])
unfolding transform filter_requests filter_request refuse filter_out get_query_type frame
    ensure_parsed parsed_frame valkey_query_type bytes_eq to_ascii_uppercase
    from_request_to_error_response to_error_response metadata replace_crlf replace_lf
    from_frame_at_instant replace_with_dummy replace_responses map_get map_remove map_insert
set_is_refused = refl

ids_differ : IdsDiffer only_valkey draw (get ∷ set ∷ [])
unfolding from_frame_at_instant
ids_differ = ground arith

transform-Run_example : Run only_valkey draw next readers 0 (get ∷ set ∷ []) 0 (refused_set ∷ [])
transform-Run_example =
    transform-Run only_valkey draw next readers readers 0 0 (get ∷ set ∷ []) (refused_set ∷ [])
      ids_differ next_once nothing_kept set_is_refused

transform-replace_with_dummy_example :
    transform only_valkey draw next readers 0
      ((get ∷ []) ++ (replace_with_dummy only_valkey set ∷ get ∷ []))
    ≢ ok (readers, 0, refused_set ∷ [])
transform-replace_with_dummy_example =
    transform-replace_with_dummy only_valkey draw next readers 0 (get ∷ []) (get ∷ []) set
      (readers, 0, refused_set ∷ [])
