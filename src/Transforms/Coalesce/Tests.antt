-- ===== src/Transforms/Coalesce/Tests.antt =====
-- Coalescing three numbers with a limit of two.
use shotover_proxy.Prelude.{
  ℕ, ◌≡◌, refl, Bool, false, List, [], ◌∷◌, ◌++◌, none, some, Result, ok, ◌⊎◌,
}
use shotover_proxy.Transforms.Coalesce.{
  Coalesce, CoalesceBuilder, transform, pass_on, flush_buffer, validate,
}
use shotover_proxy.Transforms.Coalesce.Order.{logged, run, all_requests, run-all_requests}
use shotover_proxy.Transforms.Coalesce.Limits.{IsBounded, transform-IsBounded}

abbrev builder : CoalesceBuilder
builder = record {
  flush_when_buffered_message_count = some 2;
  flush_when_millis_since_last_flush = none;
}

abbrev holding : List ℕ → Coalesce ℕ
holding buffer = record {
  flush_when_buffered_message_count = some 2;
  buffer = buffer;
  timer = none;
}

abbrev next : ℕ → List ℕ → Result (ℕ × List ℕ)
next w ms = ok (w, ms)

abbrev calls : List (ℕ × Bool × List ℕ)
calls = (0, false, 5 ∷ []) ∷ (1, false, 6 ∷ []) ∷ (2, false, 7 ∷ []) ∷ []

three_calls :
    run ℕ (logged ℕ next) (holding []) (0, []) calls ≡ ok (holding (7 ∷ []), (0, 5 ∷ 6 ∷ []))
unfolding run transform pass_on flush_buffer
three_calls = refl

run-all_requests_example :
    (5 ∷ 6 ∷ []) ++ (holding (7 ∷ [])).buffer ≡ ([] ++ (holding []).buffer) ++ all_requests ℕ calls
run-all_requests_example =
    run-all_requests ℕ next calls (holding []) (holding (7 ∷ [])) (0, []) (0, 5 ∷ 6 ∷ [])
      three_calls

one_call : transform ℕ next (holding []) 0 0 false (5 ∷ []) ≡ ok (holding (5 ∷ []), 0, [])
unfolding transform pass_on flush_buffer
one_call = refl

transform-IsBounded_example :
    IsBounded ℕ (holding (5 ∷ [])) × ((false ≡ false) ⊎ ((holding (5 ∷ [])).buffer ≡ []))
transform-IsBounded_example =
    transform-IsBounded ℕ next (holding []) (holding (5 ∷ [])) 0 0 0 false (5 ∷ []) [] one_call

builder_is_valid : validate builder ≡ []
unfolding validate
builder_is_valid = refl
