-- ===== src/Transforms/Tee/Lingering.antt =====
-- Responses that answer no request, in the queues of the tee.
use shotover_proxy.Prelude.{
  ℕ, zero, suc, ◌≡◌, refl, ap, ◌∙◌, Bool, false, List, [], ◌∷◌, ◌++◌, none, Result, ok, ◌>>=◌, All,
  length, append-nil, append_assoc,
}
use shotover_proxy.Message.Frame.{Protocols}
use shotover_proxy.Message.State.{Message}
use shotover_proxy.Transforms.Tee.{
  ResultSource, Progress, requested, is_some_id, one_round, pair_up, pop_requestless, pop_both,
  paired, new_in_order,
}
use shotover_proxy.Transforms.Tee.Queues.{run, Calls}

module _ (P : Protocols) (differs : Message P → Message P → Bool) {S : Type 0}
    (on_mismatch : S → Message P → Message P → Result (S × Message P)) where
  -- Calls in which no response arrives.
  abbrev pub idle_calls : ℕ → Calls P differs on_mismatch
  idle_calls zero = []
  idle_calls (suc n) = ([], []) ∷ idle_calls n

  abbrev pub only_tee : S → List (Message P) → List (Message P) → Progress P differs on_mismatch
  only_tee s tee result = record { captured = s; tee = tee; chain = []; result = result }

  idle_call :
      (keep : ResultSource) (s : S) (x : Message P) (xs : List (Message P))
      → x.request_id ≡ none
      → new_in_order P differs on_mismatch keep s (x ∷ xs) [] [] [] ≡ ok (only_tee s xs (x ∷ []))
  unfolding new_in_order pair_up one_round paired pop_both pop_requestless
  idle_call keep s x xs h =
      let unasked : requested P differs on_mismatch x ≡ false = ap is_some_id h in
      rw unasked (ap (λ (l : List (Message P)). ok (only_tee s l (x ∷ []))) (append-nil xs))

  -- For a protocol that keeps the order, while no response of the chain is queued and none arrives
  -- from either side: if the responses of the tee at the front of its queue answer no request, then
  -- each call returns exactly one of them, in order, so as many calls are needed as there are, and
  -- what is behind them still waits.
  pub run-lingering :
      (keep : ResultSource) (s : S) (returned unasked waiting : List (Message P))
      → All (λ m. m.request_id ≡ none) unasked
      → run P differs on_mismatch keep
          (only_tee s (unasked ++ waiting) returned)
          (idle_calls (length unasked))
        ≡ ok (only_tee s waiting (returned ++ unasked))
  unfolding run
  run-lingering keep s returned [] waiting all = rw append-nil refl
  run-lingering keep s returned (x ∷ xs) waiting all =
      rw (idle_call keep s x (xs ++ waiting) all.0, ◌>>=◌)
        (run-lingering keep s (returned ++ x ∷ []) xs waiting all.1
          ∙ ap (λ (l : List (Message P)). ok (only_tee s waiting l))
              (append_assoc returned (x ∷ []) xs))
