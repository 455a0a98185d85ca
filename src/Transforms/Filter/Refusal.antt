-- ===== src/Transforms/Filter/Refusal.antt =====
-- What a filter sends on, and what its client gets.
use shotover_proxy.Prelude.{
  ℕ, ◌≡◌, refl, ap, sym, ◌∙◌, true, List, [], ◌∷◌, some, map, Result, ok, IdMap, map_get,
  map_insert, map_get-insert, ◌==◌, arith, ◌⊎◌, inl, inr, Bool-cases, bind_ok, ok_injective,
}
use shotover_proxy.Message.Frame.{Protocols}
use shotover_proxy.Message.State.{Message, get_query_type}
use shotover_proxy.Message.Errors.{from_request_to_error_response-message_type}
use shotover_proxy.Transforms.Pending.{
  replace_responses, replace_responses-request_id, replace_responses-map, AllAnswer,
  AllAnswer-insert, Distinct, answer_from,
}
use shotover_proxy.Transforms.Filter.{
  Filter, QueryTypeFilter, filter_out, filter_request, filter_requests, transform,
}
use shotover_proxy.Transforms.Filter.Fates.{
  seen_id, Step, refuse-Step, RefusedId, RefusedId-absent, Fate, Fates, IdsDiffer, OnlyRefused,
}

module _ (P : Protocols) (draw : ℕ → ℕ) where
  Step-AllAnswer :
      (f : Filter) (m : Message P) (kept : IdMap (Message P)) (one : Message P × IdMap (Message P))
      → Step P draw f m kept one
      → AllAnswer P kept
      → AllAnswer P one.1
  Step-AllAnswer f m kept one (seen, q, hq, id, inl (allowed, same, unchanged)) all =
      rw unchanged all
  Step-AllAnswer f m kept one (seen, q, hq, id, inr (refused, dummy, (e, error, new))) all =
      let answers : e.request_id ≡ some seen.id =
        (from_request_to_error_response-message_type P (draw m.id) seen _ _ e error).0 in
      rw new (AllAnswer-insert P m.id e kept (answers ∙ ap some (seen_id P draw m seen q hq)) all)

  -- What was kept for the request itself survives the rest of the batch.
  Step-Fate :
      (f : Filter) (m : Message P) (ms : List (Message P)) (kept kept' : IdMap (Message P))
      (one : Message P × IdMap (Message P))
      → Step P draw f m kept one
      → (map_get m.id kept' ≡ map_get m.id one.1) ⊎ RefusedId P draw f m.id ms
      → IdsDiffer P draw (m ∷ ms)
      → Fate P draw f kept' m one.0
  Step-Fate f m ms kept kept' one (seen, q, hq, id, inl (allowed, same, unchanged)) later differ =
      (seen, q, hq, id, inl (allowed, same))
  Step-Fate f m ms kept kept' one (seen, q, hq, id, inr (refused, dummy, (e, error, new)))
        (inl still) differ =
      let itself : (m.id == m.id) ≡ true = ground arith in
      let there : map_get m.id (map_insert m.id e kept) ≡ some e =
        map_get-insert m.id m.id e kept ∙ rw itself refl in
      (seen, q, hq, id, inr (refused, dummy, (e, error, still ∙ ap (map_get m.id) new ∙ there)))
  Step-Fate f m ms kept kept' one step (inr again) differ =
      absurd (RefusedId-absent P draw f m.id ms differ.0 again)

  -- One request changes what is kept only if it is refused.
  Step-OnlyRefused :
      (f : Filter) (m : Message P) (ms : List (Message P)) (kept : IdMap (Message P))
      (one : Message P × IdMap (Message P)) (id : ℕ)
      → Step P draw f m kept one
      → (map_get id one.1 ≡ map_get id kept) ⊎ RefusedId P draw f id (m ∷ ms)
  Step-OnlyRefused f m ms kept one id (seen, q, hq, same_id, inl (allowed, same, unchanged)) =
      inl (ap (map_get id) unchanged)
  Step-OnlyRefused f m ms kept one id
        (seen, q, hq, same_id, inr (refused, dummy, (e, error, new))) =
      elim (Bool-cases (m.id == id)) [
        | inl itself ↦ inr (inl (ground arith, (seen, q, hq, refused)))
        | inr other ↦ inl (ap (map_get id) new ∙ map_get-insert m.id id e kept ∙ rw other refl)
      ]

  both_steps :
      (f : Filter) (m : Message P) (ms : List (Message P)) (kept one kept' : IdMap (Message P))
      (id : ℕ)
      → (map_get id kept' ≡ map_get id one) ⊎ RefusedId P draw f id ms
      → (map_get id one ≡ map_get id kept) ⊎ RefusedId P draw f id (m ∷ ms)
      → (map_get id kept' ≡ map_get id kept) ⊎ RefusedId P draw f id (m ∷ ms)
  both_steps f m ms kept one kept' id (inl a) (inl b) = inl (a ∙ b)
  both_steps f m ms kept one kept' id (inl a) (inr b) = inr b
  both_steps f m ms kept one kept' id (inr a) b = inr (inr a)

  -- What holds of a batch behind the filter.
  abbrev AllSent :
      Filter → List (Message P) → IdMap (Message P) → List (Message P) × IdMap (Message P) → Type 0
  AllSent f ms kept (sent, kept') =
      Fates P draw f kept' ms sent
      × OnlyRefused P draw f ms kept kept'
      × (AllAnswer P kept → AllAnswer P kept')

  filter_requests-AllSent :
      (f : Filter) (ms : List (Message P)) (kept : IdMap (Message P))
      (r : List (Message P) × IdMap (Message P))
      → IdsDiffer P draw ms
      → filter_requests P draw f ms kept ≡ ok r
      → AllSent f ms kept r
  unfolding filter_requests filter_request
  filter_requests-AllSent f [] kept r differ h =
      rw (sym (ok_injective _ _ h)) (tt, λ id. inl refl, λ all. all)
  filter_requests-AllSent f (m ∷ ms) kept r differ h =
      let (one, h1, k1) = bind_ok (filter_request P draw f m kept) _ r h in
      let (rest, h2, k2) = bind_ok (filter_requests P draw f ms one.1) _ r k1 in
      let (seen, hq, k3) = bind_ok (get_query_type P m) _ one h1 in
      let step = refuse-Step P draw f m seen.0 seen.1 kept (filter_out f seen.1) one hq refl k3 in
      let (fates, only, most) = filter_requests-AllSent f ms one.1 rest differ.1 h2 in
      rw (sym (ok_injective _ _ k2)) (
        (Step-Fate f m ms kept rest.1 one step (only m.id) differ, fates),
        λ id.
            both_steps f m ms kept one.1 rest.1 id (only id)
              (Step-OnlyRefused f m ms kept one id step),
        λ x. most (Step-AllAnswer f m kept one step x),
      )

  -- A run of the transform: what it sent, what it kept, and what came back.
  abbrev pub Run :
      {W : Type 0}
      → (W → List (Message P) → Result (W × List (Message P)))
      → QueryTypeFilter P
      → W
      → List (Message P)
      → W
      → List (Message P)
      → Type 0
  Run next s w ms w' out =
      (sent : List (Message P)) × (kept : IdMap (Message P)) × (responses : List (Message P))
      × Fates P draw s.filter kept ms sent
      × OnlyRefused P draw s.filter ms s.filtered_requests kept
      × (next w sent ≡ ok (w', responses))
      × (map (λ m. m.request_id) out ≡ map (λ m. m.request_id) responses)
      × (out ≡ map (answer_from P kept) responses)

  -- For every batch in which no id occurs twice, every rest of the chain that answers no request
  -- twice in a batch, and a filter in which each kept response answers the request it is kept for: a
  -- run that returns has sent on one message for each request, with its id and in the same order. A
  -- request of a type that the filter lets through is sent on itself, parsed. In place of any other
  -- there is a dummy, and the error response for that request is kept under its id. Nothing else is
  -- kept that was not kept before. The run returns the responses that came back, each for the same
  -- request and in the same order. Those for whose request a response is kept, now or from earlier,
  -- are replaced by it, and the others are untouched.
  pub transform-Run :
      {W : Type 0} (next : W → List (Message P) → Result (W × List (Message P)))
      (s s' : QueryTypeFilter P) (w w' : W) (ms out : List (Message P))
      → IdsDiffer P draw ms
      → ((w w' : W) (sent responses : List (Message P))
          → next w sent ≡ ok (w', responses)
          → Distinct P responses)
      → AllAnswer P s.filtered_requests
      → transform P draw next s w ms ≡ ok (s', w', out)
      → Run next s w ms w' out
  unfolding transform
  transform-Run next s s' w w' ms out differ once all h =
      let (r, h1, k1) = bind_ok (filter_requests P draw s.filter ms s.filtered_requests) _ _ h in
      let (a, h2, k2) = bind_ok (next w r.0) _ _ k1 in
      let (fates, only, more) =
        filter_requests-AllSent s.filter ms s.filtered_requests r differ h1 in
      let e = ok_injective _ _ k2 in
      let world : a.0 ≡ w' = ap (λ (x : QueryTypeFilter P × _ × List (Message P)). x.1) e in
      let result : (replace_responses P r.1 a.1).0 ≡ out =
        ap (λ (x : QueryTypeFilter P × _ × List (Message P)). x.2) e in
      rw (sym world, sym result)
        (
          r.0,
          r.1,
          a.1,
          fates,
          only,
          h2,
          replace_responses-request_id P r.1 a.1 (more all),
          replace_responses-map P r.1 a.1 (once w a.0 r.0 a.1 h2),
        )
