-- ===== src/Transforms/Sinks/Answers.antt =====
-- The terminating transforms: which request each response is for.
use shotover_proxy.Prelude.{
  ℕ, ◌≡◌, ◌≢◌, refl, ap, sym, ◌∙◌, List, [], ◌∷◌, ◌++◌, some, Result, ok, err, ◌>>=◌, map,
  map_results, bind_ok, ok_injective,
}
use shotover_proxy.Message.Frame.{Protocols}
use shotover_proxy.Message.State.{Message, set_request_id}
use shotover_proxy.Message.Response.{from_request_to_error_response, metadata, replace_with_dummy}
use shotover_proxy.Message.Errors.{from_request_to_error_response-message_type}
use shotover_proxy.Transforms.Sinks.{
  Response, message, valkey_text, fail, null_response, null_transform, returned_response,
  debug_transform,
}

module _ (P : Protocols) (draw : ℕ → ℕ) where
  -- If each answer names its request, so do the answers of a batch.
  map_results-request_id :
      (f : Message P → Result (Message P))
      → ((m r : Message P) → f m ≡ ok r → r.request_id ≡ some m.id)
      → (ms out : List (Message P)) → map_results f ms ≡ ok out
      → map (λ r. r.request_id) out ≡ map (λ m. some m.id) ms
  unfolding map_results
  map_results-request_id f each [] out h = rw (sym (ok_injective _ _ h)) refl
  map_results-request_id f each (m ∷ ms) out h =
      let (r, h1, k1) = bind_ok (f m) _ _ h in
      let (rest, h2, k2) = bind_ok (map_results f ms) _ _ k1 in
      rw (sym (ok_injective _ _ k2), each m r h1, map_results-request_id f each ms rest h2) refl

  returned-request_id :
      (response : Response P) (m r : Message P)
      → returned_response P draw response m ≡ ok r
      → r.request_id ≡ some m.id
  unfolding set_request_id
  returned-request_id (message e) m r h =
      sym (ap (λ (x : Message P). x.request_id) (ok_injective _ _ h))
  returned-request_id (valkey_text text) m r h =
      sym (ap (λ (x : Message P). x.request_id) (ok_injective _ _ h))
  returned-request_id fail m r h = cc

  -- Whenever the null sink answers a batch, it gives one response to each request, in order.
  pub null_transform-request_id :
      (ms out : List (Message P))
      → null_transform P draw ms ≡ ok out
      → map (λ r. r.request_id) out ≡ map (λ m. some m.id) ms
  unfolding null_transform
  null_transform-request_id ms out h =
      map_results-request_id (null_response P draw)
        (λ m r e. (from_request_to_error_response-message_type P (draw m.id) m _ _ r e).0) ms out h

  -- Whenever the debug returner answers a batch, it gives one response to each request, in order.
  pub debug_transform-request_id :
      (response : Response P) (ms out : List (Message P))
      → debug_transform P draw response ms ≡ ok out
      → map (λ r. r.request_id) out ≡ map (λ m. some m.id) ms
  unfolding debug_transform
  debug_transform-request_id response ms out h =
      map_results-request_id (returned_response P draw response) (returned-request_id response) ms
        out h

  null_response-dummy :
      (m : Message P) → null_response P draw (replace_with_dummy P m) ≡ err "dummy has no metadata"
  unfolding from_request_to_error_response metadata replace_with_dummy
  null_response-dummy m = refl

  -- A batch with a request that an earlier transform replaced with a dummy, at any place, gets no
  -- responses from the null sink.
  pub null_transform-replace_with_dummy :
      (before behind : List (Message P)) (m : Message P) (out : List (Message P))
      → null_transform P draw (before ++ (replace_with_dummy P m ∷ behind)) ≢ ok out
  unfolding null_transform map_results
  null_transform-replace_with_dummy [] behind m out h =
      let (r, h1, k1) =
        bind_ok (null_response P draw (replace_with_dummy P m))
          (λ x. map_results (null_response P draw) behind >>= λ ys. ok (x ∷ ys)) out h in
      let impossible : err "dummy has no metadata" ≡ ok r = sym (null_response-dummy m) ∙ h1 in cc
  null_transform-replace_with_dummy (b ∷ before) behind m out h =
      let (r, h1, k1) = bind_ok (null_response P draw b) _ out h in
      let (rest, h2, k2) =
        bind_ok (map_results (null_response P draw) (before ++ (replace_with_dummy P m ∷ behind))) _
          out k1 in
      null_transform-replace_with_dummy before behind m rest h2
