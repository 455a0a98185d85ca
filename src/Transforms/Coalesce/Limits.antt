-- ===== src/Transforms/Coalesce/Limits.antt =====
-- When coalescing flushes.
use mathlib.Core.Bool.{false≢true}
use shotover_proxy.Prelude.{
  ℕ, ◌<◌, ◌≡◌, refl, ap, sym, ◌∙◌, Bool, true, false, ◌&&◌, ◌||◌, not, List, [], ◌∷◌, ◌++◌, Option,
  none, some, Result, ok, ltb, if◌then◌else◌, is_empty, arith, ◌⊎◌, inl, inr, bind_ok, ok_injective,
  Bool-cases, length,
}
use shotover_proxy.Transforms.Coalesce.{
  Coalesce, CoalesceBuilder, Timer, flush_buffer, pass_on, transform, restart, count_reached, build,
  validate, start_timer,
}

first_false : (a b : Bool) → (a || b) ≡ false → a ≡ false
first_false true b h = absurd (false≢true (sym h))
first_false false b h = refl

module _ (M : Type 0) where
  is_empty-nil : (xs : List M) (b : Bool) → (is_empty xs && not b) ≡ true → xs ≡ []
  is_empty-nil [] b h = refl
  is_empty-nil (x ∷ xs) b h = absurd (false≢true h)

  flush_buffer-count :
      (flush : Bool) (now : ℕ) (s : Coalesce M)
      → flush_buffer M flush now s ≡ false
      → (flush ≡ false) × (count_reached M s.flush_when_buffered_message_count s.buffer ≡ false)
  unfolding flush_buffer
  flush_buffer-count true now s h = absurd (false≢true (sym h))
  flush_buffer-count false now s h = (refl, first_false _ _ h)

  -- Below the count, if there is one, or empty.
  abbrev pub IsBounded : Coalesce M → Type 0
  IsBounded s =
      (s.buffer ≡ [])
      ⊎ ((n : ℕ) → s.flush_when_buffered_message_count ≡ some n → length s.buffer < n)

  count_reached-length :
      (count : Option ℕ) (buffer : List M)
      → count_reached M count buffer ≡ false
      → (n : ℕ) → count ≡ some n
      → length buffer < n
  count_reached-length none buffer h n e = cc
  count_reached-length (some k) buffer h n e = let same : k ≡ n = cc in ground arith

  pass_on-IsBounded :
      {W : Type 0} (next : W → List M → Result (W × List M)) (s : Coalesce M) (w : W) (now : ℕ)
      (flush b : Bool) (r : Coalesce M × W × List M)
      → flush_buffer M flush now s ≡ b
      → pass_on M next s w now b ≡ ok r
      → IsBounded r.0 × ((flush ≡ false) ⊎ (r.0.buffer ≡ []))
  unfolding pass_on
  pass_on-IsBounded next s w now flush true r hb h =
      let (a, h1, k1) = bind_ok (next w s.buffer) _ r h in
      rw (sym (ok_injective _ _ k1)) (inl refl, inr refl)
  pass_on-IsBounded next s w now flush false r hb h =
      let (quiet, below) = flush_buffer-count flush now s hb in
      rw (sym (ok_injective _ _ h)) (inr (count_reached-length _ _ below), inl quiet)

  either-IsBounded :
      {W : Type 0} (next : W → List M → Result (W × List M)) (s : Coalesce M) (w : W) (ms : List M)
      (now : ℕ) (flush b : Bool) (r : Coalesce M × W × List M)
      → (is_empty (s.buffer ++ ms) && not flush) ≡ b
      → (if b
          then ok (record s { buffer = s.buffer ++ ms; timer = restart M now s.timer }, w, [])
          else pass_on M next
              (record s { buffer = s.buffer ++ ms })
              w
              now
              (flush_buffer M flush now (record s { buffer = s.buffer ++ ms })))
        ≡ ok r
      → IsBounded r.0 × ((flush ≡ false) ⊎ (r.0.buffer ≡ []))
  either-IsBounded next s w ms now flush true r hb h =
      let empty = is_empty-nil (s.buffer ++ ms) flush hb in
      rw (sym (ok_injective _ _ h)) (inl empty, inr empty)
  either-IsBounded next s w ms now flush false r hb h =
      pass_on-IsBounded next (record s { buffer = s.buffer ++ ms }) w now flush _ r refl h

  -- After every call that returns the buffer is empty or holds fewer messages than the count that was
  -- configured, and after a flush it is empty.
  pub transform-IsBounded :
      {W : Type 0} (next : W → List M → Result (W × List M)) (s s' : Coalesce M) (w w' : W)
      (now : ℕ) (flush : Bool) (ms out : List M)
      → transform M next s w now flush ms ≡ ok (s', w', out)
      → IsBounded s' × ((flush ≡ false) ⊎ (s'.buffer ≡ []))
  unfolding transform
  transform-IsBounded next s s' w w' now flush ms out h =
      either-IsBounded next s w ms now flush _ (s', w', out) refl h

abbrev of_settings : Option ℕ → Option ℕ → CoalesceBuilder
of_settings count millis = record {
  flush_when_buffered_message_count = count;
  flush_when_millis_since_last_flush = millis;
}

accepted :
    (M : Type 0) (now : ℕ) (count millis : Option ℕ)
    → validate (of_settings count millis) ≡ []
    → ((n : ℕ) × (count ≡ some n))
      ⊎ ((t : Timer) × (start_timer M now millis ≡ some t) × (0 < t.interval))
unfolding validate
accepted M now (some n) millis h = inl (n, refl)
accepted M now none none h = cc
accepted M now none (some k) h = elim (Bool-cases (ltb 0 k)) [
  | inl more ↦ rw more (inr (_, refl, ground arith))
  | inr stopped ↦
      let zero_k : 0 ≡ k = ground arith in
      let rejected : validate (of_settings none (some 0)) ≡ [] =
        ap (λ (n : ℕ). validate (of_settings none (some n))) zero_k ∙ h in
      cc
]

-- A builder that `validate` accepts flushes some day: it has a count or a timer with an interval that
-- is not 0.
pub validate-build :
    (M : Type 0) (b : CoalesceBuilder) (now : ℕ)
    → validate b ≡ []
    → ((n : ℕ) × ((build M b now).flush_when_buffered_message_count ≡ some n))
      ⊎ ((t : Timer) × ((build M b now).timer ≡ some t) × (0 < t.interval))
unfolding validate build
validate-build M b now h =
    accepted M now b.flush_when_buffered_message_count b.flush_when_millis_since_last_flush h
