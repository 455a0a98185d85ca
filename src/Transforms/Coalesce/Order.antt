-- ===== src/Transforms/Coalesce/Order.antt =====
-- Coalescing: the requests that are sent on and those that are buffered.
use shotover_proxy.Prelude.{
  ℕ, ◌≡◌, refl, ap, sym, ◌∙◌, Bool, true, false, ◌&&◌, not, List, [], ◌∷◌, ◌++◌, Result, ok, ◌>>=◌,
  if◌then◌else◌, is_empty, ◌⊎◌, inl, inr, bind_ok, ok_injective, append_assoc, append-nil,
}
use shotover_proxy.Transforms.Coalesce.{Coalesce, pass_on, transform, restart}

module _ (M : Type 0) where
  -- What a call does: it keeps all requests in the buffer, or sends them all on.
  abbrev Handled :
      {W : Type 0}
      → (W → List M → Result (W × List M))
      → Coalesce M
      → W
      → List M
      → Coalesce M × W × List M
      → Type 0
  Handled next s w ms (s', w', out) =
      ((s'.buffer ≡ s.buffer ++ ms) × (w' ≡ w) × (out ≡ []))
      ⊎ ((s'.buffer ≡ []) × (next w (s.buffer ++ ms) ≡ ok (w', out)))

  pass_on-Handled :
      {W : Type 0} (next : W → List M → Result (W × List M)) (s : Coalesce M) (w : W) (ms : List M)
      (now : ℕ) (b : Bool) (r : Coalesce M × W × List M)
      → pass_on M next (record s { buffer = s.buffer ++ ms }) w now b ≡ ok r
      → Handled next s w ms r
  unfolding pass_on
  pass_on-Handled next s w ms now true r h =
      let (a, h1, k1) = bind_ok (next w (s.buffer ++ ms)) _ r h in
      rw (sym (ok_injective _ _ k1)) (inr (refl, h1))
  pass_on-Handled next s w ms now false r h = rw (sym (ok_injective _ _ h)) (inl (refl, refl, refl))

  either-Handled :
      {W : Type 0} (next : W → List M → Result (W × List M)) (s : Coalesce M) (w : W) (ms : List M)
      (now : ℕ) (b c : Bool) (r : Coalesce M × W × List M)
      → (if b
          then ok (record s { buffer = s.buffer ++ ms; timer = restart M now s.timer }, w, [])
          else pass_on M next (record s { buffer = s.buffer ++ ms }) w now c)
        ≡ ok r
      → Handled next s w ms r
  either-Handled next s w ms now true c r h = rw (sym (ok_injective _ _ h)) (inl (refl, refl, refl))
  either-Handled next s w ms now false c r h = pass_on-Handled next s w ms now c r h

  -- Every call that returns either keeps all the buffered and the new requests and sends nothing, or
  -- sends them all on, in order, and leaves the buffer empty.
  transform-Handled :
      {W : Type 0} (next : W → List M → Result (W × List M)) (s : Coalesce M) (w : W) (now : ℕ)
      (flush : Bool) (ms : List M) (r : Coalesce M × W × List M)
      → transform M next s w now flush ms ≡ ok r
      → Handled next s w ms r
  unfolding transform
  transform-Handled next s w now flush ms r h =
      either-Handled next s w ms now (is_empty (s.buffer ++ ms) && not flush) _ r h

  -- A rest of the chain that also writes down the requests that it gets.
  abbrev pub logged :
      {W : Type 0}
      → (W → List M → Result (W × List M))
      → W × List M
      → List M
      → Result ((W × List M) × List M)
  logged next (w, log) ms = do (w', out) ← next w ms; ok ((w', log ++ ms), out)

  -- The calls of a connection: the time, whether to flush, and the requests.
  unfoldable pub run :
      {W : Type 0}
      → (W → List M → Result (W × List M))
      → Coalesce M
      → W
      → List (ℕ × Bool × List M)
      → Result (Coalesce M × W)
  run next s w [] = ok (s, w)
  run next s w ((now, flush, ms) ∷ calls) = do
    (s', w', out) ← transform M next s w now flush ms
    run next s' w' calls

  unfoldable pub all_requests : List (ℕ × Bool × List M) → List M
  all_requests [] = []
  all_requests ((now, flush, ms) ∷ calls) = ms ++ all_requests calls

  logged_lem :
      {W : Type 0} (next : W → List M → Result (W × List M)) (w : W × List M) (ms : List M)
      (r : (W × List M) × List M)
      → logged next w ms ≡ ok r
      → r.0.1 ≡ w.1 ++ ms
  logged_lem next w ms r h =
      let (a, h1, k1) = bind_ok (next w.0 ms) _ r h in
      sym (ap (λ (x : (_ × List M) × List M). x.0.1) (ok_injective _ _ k1))

  transform-logged :
      {W : Type 0} (next : W → List M → Result (W × List M)) (s : Coalesce M) (w : W × List M)
      (now : ℕ) (flush : Bool) (ms : List M) (r : Coalesce M × (W × List M) × List M)
      → transform M (logged next) s w now flush ms ≡ ok r
      → r.1.1 ++ r.0.buffer ≡ w.1 ++ (s.buffer ++ ms)
  transform-logged next s w now flush ms r h =
      elim (transform-Handled (logged next) s w now flush ms r h) [
        | inl (kept, same, out) ↦ rw (kept, same) refl
        | inr (empty, sent) ↦
            rw (empty, logged_lem next w (s.buffer ++ ms) (r.1, r.2) sent) (append-nil _)
      ]

  -- Over any sequence of calls that all return, at any times and with or without flushes: what the
  -- rest of the chain has been sent, followed by what is still buffered, is all the requests of the
  -- calls in their order, so that none is lost, repeated or reordered.
  pub run-all_requests :
      {W : Type 0} (next : W → List M → Result (W × List M)) (calls : List (ℕ × Bool × List M))
      (s s' : Coalesce M) (w w' : W × List M)
      → run (logged next) s w calls ≡ ok (s', w')
      → w'.1 ++ s'.buffer ≡ (w.1 ++ s.buffer) ++ all_requests calls
  unfolding run all_requests
  run-all_requests next [] s s' w w' h =
      let e = ok_injective _ _ h in
      sym (ap (λ (x : Coalesce M × (_ × List M)). x.1.1 ++ x.0.buffer) e) ∙ sym (append-nil _)
  run-all_requests next ((now, flush, ms) ∷ calls) s s' w w' h =
      let (r, h1, k1) = bind_ok (transform M (logged next) s w now flush ms) _ _ h in
      let later = run-all_requests next calls r.0 s' r.1 w' k1 in
      let here : r.1.1 ++ r.0.buffer ≡ (w.1 ++ s.buffer) ++ ms =
        transform-logged next s w now flush ms r h1 ∙ sym (append_assoc w.1 s.buffer ms) in
      later
      ∙ ap (λ (l : List M). l ++ all_requests calls) here
      ∙ append_assoc (w.1 ++ s.buffer) ms (all_requests calls)
