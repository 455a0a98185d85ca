-- ===== src/Transforms/Filter.antt =====
-- shotover/src/transforms/filter.rs: `QueryTypeFilter`.
pub mod Fates
pub mod Refusal
pub mod Dummies
mod Tests
use mathlib.Core.Option
use shotover_proxy.Prelude.{
  ℕ, ◌≡◌, ◌≢◌, refl, ap, sym, ◌∙◌, Bool, true, false, not, List, [], ◌∷◌, ◌++◌, Bytes, codes,
  Option, none, some, map, ◌||◌, Result, ok, err, panic, ◌>>=◌, IdMap, map_insert, if◌then◌else◌,
  anyb, All, ◌⊎◌, inl, inr, Bool-cases, bind_ok, ok_injective,
}
use shotover_proxy.Valkey.Frame.{QueryType, read, write, read_write, schema_change, pub_sub}
use shotover_proxy.Message.Frame.{Protocols, rejected}
use shotover_proxy.Message.State.{Message, get_query_type, frame, query_type_of}
use shotover_proxy.Message.Response.{from_request_to_error_response, replace_with_dummy, is_dummy}
use shotover_proxy.Message.Caching.{frame-frame}
use shotover_proxy.Transforms.Pending.{
  replace_responses, replace_responses-request_id, replace_responses-map, AllAnswer,
  AllAnswer-insert, Distinct, answer_from,
}

pub data Filter : Type 0 where
  allow_list deny_list : List QueryType → Filter

pub record QueryTypeFilter (P : Protocols) : Type 0 where
  pub filter : Filter
  pub filtered_requests : IdMap (Message P)

abbrev pub same_query : QueryType → QueryType → Bool
same_query read read = true
same_query write write = true
same_query read_write read_write = true
same_query schema_change schema_change = true
same_query pub_sub pub_sub = true
same_query _ _ = false

-- `match &self.filter`
pub filter_out : Filter → QueryType → Bool
filter_out (allow_list allowed) q = not (anyb (same_query q) allowed)
filter_out (deny_list denied) q = anyb (same_query q) denied

-- `draw` gives the number that `rand::random` draws for the response to a request, and `next` is
-- `call_next_transform` on the state of the transforms behind this one.
module _ (P : Protocols) (draw : ℕ → ℕ) where
  -- `if filter_out { … }`
  pub refuse : Message P → IdMap (Message P) → Bool → Result (Message P × IdMap (Message P))
  unfolding from_request_to_error_response replace_with_dummy map_insert
  refuse request kept false = ok (request, kept)
  refuse request kept true = do
    response ←
        from_request_to_error_response P (draw request.id) request
          (codes "Message was filtered out by shotover") rejected
    ok (replace_with_dummy P request, map_insert request.id response kept)

  -- One request: what is sent on, and the responses that are kept.
  pub filter_request :
      Filter → Message P → IdMap (Message P) → Result (Message P × IdMap (Message P))
  unfolding get_query_type filter_out refuse
  filter_request filter request kept = do
    (seen, q) ← get_query_type P request
    refuse seen kept (filter_out filter q)

  pub filter_requests :
      Filter → List (Message P) → IdMap (Message P) → Result (List (Message P) × IdMap (Message P))
  unfolding filter_request
  filter_requests filter [] kept = ok ([], kept)
  filter_requests filter (request ∷ requests) kept = do
    (sent, kept1) ← filter_request filter request kept
    (rest, kept2) ← filter_requests filter requests kept1
    ok (sent ∷ rest, kept2)

  -- An error leaves through `?`; what the transform had kept by then is not modelled.
  pub transform :
      {W : Type 0}
      → (W → List (Message P) → Result (W × List (Message P)))
      → QueryTypeFilter P
      → W
      → List (Message P)
      → Result (QueryTypeFilter P × W × List (Message P))
  unfolding filter_requests replace_responses
  transform next s w requests = do
    (sent, kept) ← filter_requests s.filter requests s.filtered_requests
    (w', responses) ← next w sent
    let (out, left) = replace_responses P kept responses
    ok (record s { filtered_requests = left }, w', out)
