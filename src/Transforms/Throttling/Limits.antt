-- ===== src/Transforms/Throttling/Limits.antt =====
-- What throttling sends on, and the responses that it keeps.
use shotover_proxy.Prelude.{
  ℕ, ◌≡◌, refl, ap, sym, ◌∙◌, true, List, [], ◌∷◌, none, some, Result, ok, err, panic, map_get,
  map_get-insert, ◌==◌, arith, bind_ok, ok_injective,
}
use shotover_proxy.Message.Frame.{Protocols}
use shotover_proxy.Message.State.{Message, cell_count, from_frame_at_instant}
use shotover_proxy.Message.Response.{
  to_backpressure, replace_with_dummy, is_dummy, metadata, backpressure_frame,
}
use shotover_proxy.Transforms.Throttling.{
  Verdict, fits, not_now, never, Limiter, throttled, RequestThrottling, hold_back, throttle,
  throttle_requests,
}

module _ (P : Protocols) (draw : ℕ → ℕ) (limiter : Limiter) where
  -- What goes on in place of a request, as the limiter says.
  abbrev by_verdict : Verdict → Message P → Message P
  by_verdict fits m = m
  by_verdict not_now m = replace_with_dummy P m
  by_verdict never m = replace_with_dummy P m

  -- The limiter is asked for a number of cells. It is not asked about a request whose cells cannot be
  -- counted.
  abbrev asked : limiter.Quota → Result ℕ → Message P → Message P
  asked quota (ok cells) m = by_verdict (limiter.check_n quota cells).0 m
  asked quota _ m = m

  abbrev spent : limiter.Quota → Result ℕ → limiter.Quota
  spent quota (ok cells) = (limiter.check_n quota cells).1
  spent quota _ = quota

  -- What is sent on, by asking the limiter for each request in turn.
  pub admitted : limiter.Quota → List (Message P) → List (Message P)
  admitted quota [] = []
  admitted quota (m ∷ ms) =
      let rest = admitted (spent quota (cell_count P m)) ms in asked quota (cell_count P m) m ∷ rest

  -- The quota that is left.
  pub left_over : limiter.Quota → List (Message P) → limiter.Quota
  left_over quota [] = quota
  left_over quota (m ∷ ms) = left_over (spent quota (cell_count P m)) ms

  abbrev Kept : Message P × RequestThrottling P draw limiter → limiter.Quota → Message P → Type 0
  Kept (sent, s') quota m = (sent ≡ m) × (s'.quota ≡ quota)

  hold_back-Kept :
      (m : Message P) (s : RequestThrottling P draw limiter) (v : Verdict)
      (r : Message P × RequestThrottling P draw limiter)
      → hold_back P draw limiter m s (throttled v) ≡ ok r
      → Kept r s.quota (by_verdict v m)
  unfolding hold_back
  hold_back-Kept m s fits r h = rw (sym (ok_injective _ _ h)) (refl, refl)
  hold_back-Kept m s not_now r h =
      let (e, he, h1) = bind_ok (to_backpressure P (draw m.id) m) _ r h in
      rw (sym (ok_injective _ _ h1)) (refl, refl)
  hold_back-Kept m s never r h =
      let (e, he, h1) = bind_ok (to_backpressure P (draw m.id) m) _ r h in
      rw (sym (ok_injective _ _ h1)) (refl, refl)

  throttle-Kept :
      (m : Message P) (s : RequestThrottling P draw limiter) (cells : Result ℕ)
      (r : Message P × RequestThrottling P draw limiter)
      → throttle P draw limiter m s cells ≡ ok r
      → Kept r (spent s.quota cells) (asked s.quota cells m)
  unfolding throttle
  throttle-Kept m s (ok cells) r h =
      hold_back-Kept m (record s { quota = (limiter.check_n s.quota cells).1 })
        (limiter.check_n s.quota cells).0 r h
  throttle-Kept m s (err e) r h = rw (sym (ok_injective _ _ h)) (refl, refl)
  throttle-Kept m s panic r h = cc

  -- Of every batch that passes without an error: the limiter is asked in order, each time with the
  -- quota that is left, about every request whose cells can be counted. A request that it says fits,
  -- and a request that it is not asked about, is sent on unchanged, every other request is sent on as
  -- a dummy with its id, and the quota afterwards is what the limiter then has left.
  pub throttle_requests-admitted :
      (ms sent : List (Message P)) (s s' : RequestThrottling P draw limiter)
      → throttle_requests P draw limiter ms s ≡ ok (sent, s')
      → (sent ≡ admitted s.quota ms) × (s'.quota ≡ left_over s.quota ms)
  unfolding throttle_requests admitted left_over
  throttle_requests-admitted [] sent s s' h =
      let e = ok_injective _ _ h in
      (
        sym (ap (λ (x : List (Message P) × RequestThrottling P draw limiter). x.0) e),
        sym (ap (λ (x : List (Message P) × RequestThrottling P draw limiter). x.1.quota) e),
      )
  throttle_requests-admitted (m ∷ ms) sent s s' h =
      let (one, h1, k1) = bind_ok (throttle P draw limiter m s (cell_count P m)) _ _ h in
      let (rest, h2, k2) = bind_ok (throttle_requests P draw limiter ms one.1) _ _ k1 in
      let (this, quota) = throttle-Kept m s (cell_count P m) one h1 in
      let (others, last) = throttle_requests-admitted ms rest.0 one.1 rest.1 h2 in
      let e = ok_injective _ _ k2 in
      (
        sym (ap (λ (x : List (Message P) × RequestThrottling P draw limiter). x.0) e)
            ∙ rw (this, others, quota) refl,
        sym (ap (λ (x : List (Message P) × RequestThrottling P draw limiter). x.1.quota) e)
            ∙ rw (last, quota) refl,
      )

  -- Whenever a request is held back: a dummy goes on in its place, and the response that is kept for
  -- its id, which later replaces the response to the dummy, names no request.
  pub hold_back-request_id :
      (m sent : Message P) (s s' : RequestThrottling P draw limiter)
      → hold_back P draw limiter m s true ≡ ok (sent, s')
      → (is_dummy P sent ≡ true)
        × ((kept : Message P) × (map_get m.id s'.throttled_requests ≡ some kept)
            × (kept.request_id ≡ none))
  unfolding hold_back to_backpressure from_frame_at_instant is_dummy replace_with_dummy
  hold_back-request_id m sent s s' h =
      let (e, he, h1) = bind_ok (to_backpressure P (draw m.id) m) _ _ h in
      let (meta, hm, h2) = bind_ok (metadata P m) _ e he in
      let (f, hf, h3) = bind_ok (backpressure_frame P meta) _ e h2 in
      let same : (m.id == m.id) ≡ true = ground arith in
      let q = ok_injective _ _ h1 in
      (
        sym (ap (λ (x : Message P × RequestThrottling P draw limiter). is_dummy P x.0) q),
        (
          e,
          sym (
                ap
                  (λ (x : Message P × RequestThrottling P draw limiter).
                    map_get m.id x.1.throttled_requests)
                  q)
              ∙ (map_get-insert m.id m.id e s.throttled_requests ∙ rw same refl),
          sym (ap (λ (x : Message P). x.request_id) (ok_injective _ _ h3)),
        ),
      )
