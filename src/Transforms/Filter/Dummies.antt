-- ===== src/Transforms/Filter/Dummies.antt =====
-- A filter behind another transform that refuses requests.
use shotover_proxy.Prelude.{
  ℕ, ◌≡◌, ◌≢◌, refl, sym, ◌∙◌, ◌>>=◌, List, [], ◌∷◌, ◌++◌, Result, ok, panic, IdMap, bind_ok,
}
use shotover_proxy.Message.Frame.{Protocols}
use shotover_proxy.Message.State.{Message, get_query_type, frame, ensure_parsed, parsed_frame}
use shotover_proxy.Message.Response.{replace_with_dummy}
use shotover_proxy.Transforms.Filter.{
  Filter, QueryTypeFilter, filter_request, filter_requests, transform,
}

module _ (P : Protocols) (draw : ℕ → ℕ) where
  filter_request-dummy :
      (f : Filter) (m : Message P) (kept : IdMap (Message P))
      → filter_request P draw f (replace_with_dummy P m) kept ≡ panic
  unfolding filter_request get_query_type frame ensure_parsed parsed_frame replace_with_dummy
  filter_request-dummy f m kept = refl

  filter_requests-dummy :
      (f : Filter) (before behind : List (Message P)) (m : Message P) (kept : IdMap (Message P))
      (r : List (Message P) × IdMap (Message P))
      → filter_requests P draw f (before ++ (replace_with_dummy P m ∷ behind)) kept ≢ ok r
  unfolding filter_requests
  filter_requests-dummy f [] behind m kept r h =
      let (one, h1, k1) =
        bind_ok (filter_request P draw f (replace_with_dummy P m) kept)
          (λ x. filter_requests P draw f behind x.1 >>= λ y. ok (x.0 ∷ y.0, y.1)) r h in
      let impossible : panic ≡ ok one = sym (filter_request-dummy f m kept) ∙ h1 in cc
  filter_requests-dummy f (b ∷ before) behind m kept r h =
      let (one, h1, k1) = bind_ok (filter_request P draw f b kept) _ r h in
      let (rest, h2, k2) =
        bind_ok (filter_requests P draw f (before ++ (replace_with_dummy P m ∷ behind)) one.1) _ r
          k1 in
      filter_requests-dummy f before behind m one.1 rest h2

  -- A batch with a request that an earlier transform replaced with a dummy, at any place, never
  -- passes a filter: no run of the transform returns responses, whatever the filter and the chain.
  pub transform-replace_with_dummy :
      {W : Type 0} (next : W → List (Message P) → Result (W × List (Message P)))
      (s : QueryTypeFilter P) (w : W) (before behind : List (Message P)) (m : Message P)
      (r : QueryTypeFilter P × W × List (Message P))
      → transform P draw next s w (before ++ (replace_with_dummy P m ∷ behind)) ≢ ok r
  unfolding transform
  transform-replace_with_dummy next s w before behind m r h =
      let (q, h1, k1) =
        bind_ok
          (filter_requests P draw s.filter (before ++ (replace_with_dummy P m ∷ behind))
            s.filtered_requests)
          _ r h in
      filter_requests-dummy s.filter before behind m s.filtered_requests q h1
