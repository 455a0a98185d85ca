-- ===== src/Transforms/Tee/Queues.antt =====
-- The tee for a protocol that keeps the order: which requests have been answered after many calls.
use shotover_proxy.Prelude.{
  ℕ, suc, ◌+◌, ◌≡◌, refl, ap, sym, ◌∙◌, Bool, List, [], ◌∷◌, ◌++◌, some, Result, ok, ◌>>=◌, length,
  arith, ◌⊎◌, inl, inr, append_assoc, append-nil, length-append, bind_ok, ok_injective, Bool-cases,
}
use shotover_proxy.Message.Frame.{Protocols}
use shotover_proxy.Message.State.{Message}
use shotover_proxy.Transforms.Tee.{
  ResultSource, regular_chain, tee_chain, requested, Progress, pair_up, pop_requestless, pop_both,
  paired, new_in_order,
}
use shotover_proxy.Transforms.Tee.Rounds.{
  ids, ids-append, unrequested_ids, KeepsRequest, kept_of, other_of, Balance, Ended, pair_up-Ended,
}

module _ (P : Protocols) (differs : Message P → Message P → Bool) {S : Type 0}
    (on_mismatch : S → Message P → Message P → Result (S × Message P)) where
  pop_requestless-ids :
      (ms : List (Message P))
      → (ids (pop_requestless P differs on_mismatch ms).0 ≡ [])
        × (ids (pop_requestless P differs on_mismatch ms).1 ≡ ids ms)
  unfolding pop_requestless ids
  pop_requestless-ids [] = (refl, refl)
  pop_requestless-ids (m ∷ ms) = elim (Bool-cases (requested P differs on_mismatch m)) [
    | inl yes_id ↦ rw yes_id (refl, refl)
    | inr no_id ↦ rw (no_id, unrequested_ids m.request_id no_id) (refl, refl)
  ]

  pop_requestless_nil :
      (ms : List (Message P)) → ms ≡ [] → (pop_requestless P differs on_mismatch ms).1 ≡ []
  unfolding pop_requestless
  pop_requestless_nil ms e = rw e refl

  still : (r a b : List (Message P)) → ids a ≡ [] → ids b ≡ [] → ids (r ++ (a ++ b)) ≡ ids r
  still r a b ha hb =
      ids-append r (a ++ b)
      ∙ ap (λ (l : List ℕ). ids r ++ l) (ids-append a b ∙ rw (ha, hb) refl)
      ∙ append-nil (ids r)

  pop_both-Ended :
      (keep : ResultSource) (p p' : Progress P differs on_mismatch)
      → Ended P differs on_mismatch keep p p'
      → Ended P differs on_mismatch keep p (pop_both P differs on_mismatch p')
  unfolding pop_both
  pop_both-Ended keep p p' (balance, over) =
      let (none_t, same_t) = pop_requestless-ids p'.tee in
      let (none_c, same_c) = pop_requestless-ids p'.chain in
      (
        popped keep p p' balance (still p'.result _ _ none_t none_c) same_t same_c,
        elim over [
          | inl e ↦ inl (pop_requestless_nil p'.tee e)
          | inr e ↦ inr (pop_requestless_nil p'.chain e)
        ],
      )
    where
      popped :
          (keep : ResultSource) (p p' : Progress P differs on_mismatch)
          → Balance P differs on_mismatch keep p p'
          → ids (
              p'.result
              ++ ((pop_requestless P differs on_mismatch p'.tee).0
                  ++ (pop_requestless P differs on_mismatch p'.chain).0))
            ≡ ids p'.result
          → ids (pop_requestless P differs on_mismatch p'.tee).1 ≡ ids p'.tee
          → ids (pop_requestless P differs on_mismatch p'.chain).1 ≡ ids p'.chain
          → Balance P differs on_mismatch keep p (pop_both P differs on_mismatch p')
      popped regular_chain p p' (a, b) e t c = rw (e, t, c) (a, b)
      popped tee_chain p p' (a, b) e t c = rw (e, t, c) (a, b)

  -- Where a call of `new_responses` begins.
  abbrev pub begin : S → List (Message P) → List (Message P) → Progress P differs on_mismatch
  begin s tee chain = record { captured = s; tee = tee; chain = chain; result = [] }

  new_in_order-Ended :
      (keep : ResultSource) (s : S) (tee chain tee_responses chain_responses : List (Message P))
      (p : Progress P differs on_mismatch)
      → KeepsRequest P differs on_mismatch
      → new_in_order P differs on_mismatch keep s tee chain tee_responses chain_responses ≡ ok p
      → Ended P differs on_mismatch keep
          (begin s (tee ++ tee_responses) (chain ++ chain_responses))
          p
  unfolding new_in_order paired
  new_in_order-Ended keep s tee chain tee_responses chain_responses p same h =
      let start = begin s (tee ++ tee_responses) (chain ++ chain_responses) in
      let (r, h1, k1) =
        bind_ok
          (pair_up P differs on_mismatch keep
            (suc (length (tee ++ tee_responses) + length (chain ++ chain_responses))) start)
          (paired P differs on_mismatch) p h in
      let (q, e, over) =
        pair_up-Ended P differs on_mismatch keep
          (suc (length (tee ++ tee_responses) + length (chain ++ chain_responses))) start r same
          (omega arith) h1 in
      let last : paired P differs on_mismatch (some q) ≡ ok p =
        ap (paired P differs on_mismatch) (sym e) ∙ k1 in
      rw (sym (ok_injective (pop_both P differs on_mismatch q) p last))
        (pop_both-Ended keep start q over)

  -- The responses of a connection: for each call, those of the tee and those of the chain.
  abbrev pub Calls : Type 0
  Calls = List (List (Message P) × List (Message P))

  abbrev pub arrived : ResultSource → Calls → List (Message P)
  arrived keep [] = []
  arrived keep ((tee, chain) ∷ calls) =
      kept_of P differs on_mismatch keep tee chain ++ arrived keep calls

  abbrev pub arrived_other : ResultSource → Calls → List (Message P)
  arrived_other keep [] = []
  arrived_other keep ((tee, chain) ∷ calls) =
      other_of P differs on_mismatch keep tee chain ++ arrived_other keep calls

  abbrev pub with_result :
      List (Message P) → Progress P differs on_mismatch → Progress P differs on_mismatch
  with_result before p = record p { result = before ++ p.result }

  -- The calls in turn; `result` is all that was returned.
  unfoldable pub run :
      ResultSource
      → Progress P differs on_mismatch
      → Calls
      → Result (Progress P differs on_mismatch)
  run keep p [] = ok p
  run keep p ((tee, chain) ∷ calls) = do
    q ← new_in_order P differs on_mismatch keep p.captured p.tee p.chain tee chain
    run keep (with_result p.result q) calls

  regroup : (a b c k t e : List ℕ) → b ++ c ≡ k ++ t → (a ++ b) ++ (c ++ e) ≡ a ++ (k ++ (t ++ e))
  regroup a b c k t e h =
      append_assoc a b (c ++ e)
      ∙ ap (λ (l : List ℕ). a ++ l)
          (sym (append_assoc b c e) ∙ ap (λ (l : List ℕ). l ++ e) h ∙ append_assoc k t e)

  regroup_length :
      (a b k t e : List ℕ) (c : ℕ)
      → length b + c ≡ length (k ++ t)
      → length (a ++ b) + (c + length e) ≡ length a + (length k + length (t ++ e))
  regroup_length a b k t e c h =
      omega (arith, h, length-append a b, length-append k t, length-append t e)

  -- What a connection's calls leave, from where they begin.
  abbrev Total :
      ResultSource
      → Progress P differs on_mismatch
      → Calls
      → Progress P differs on_mismatch
      → Type 0
  Total keep p calls p' =
      (ids p'.result ++ ids (kept_of P differs on_mismatch keep p'.tee p'.chain)
        ≡ ids p.result
          ++ (ids (kept_of P differs on_mismatch keep p.tee p.chain) ++ ids (arrived keep calls)))
      × (length (ids p'.result) + length (ids (other_of P differs on_mismatch keep p'.tee p'.chain))
          ≡ length (ids p.result)
            + (length (ids (other_of P differs on_mismatch keep p.tee p.chain))
                + length (ids (arrived_other keep calls))))
      × ((p'.tee ≡ []) ⊎ (p'.chain ≡ []))

  extend-Total :
      (keep : ResultSource) (p q p' : Progress P differs on_mismatch) (tee chain : List (Message P))
      (calls : Calls)
      → Ended P differs on_mismatch keep (begin p.captured (p.tee ++ tee) (p.chain ++ chain)) q
      → Total keep (with_result p.result q) calls p'
      → Total keep p ((tee, chain) ∷ calls) p'
  unfolding ids
  extend-Total regular_chain p q p' tee chain calls ((step, sum), over) (rest, more, last) = (
    rest
        ∙ rw (ids-append p.result q.result, ids-append chain (arrived regular_chain calls))
            (regroup (ids p.result) (ids q.result) (ids q.chain) (ids p.chain) (ids chain) _
              (step ∙ ids-append p.chain chain)),
    more
        ∙ rw (ids-append p.result q.result, ids-append tee (arrived_other regular_chain calls))
            (regroup_length (ids p.result) (ids q.result) (ids p.tee) (ids tee)
              (ids (arrived_other regular_chain calls)) (length (ids q.tee))
              (omega (arith, sum, ap length (ids-append p.tee tee)))),
    last,
  )
  extend-Total tee_chain p q p' tee chain calls ((step, sum), over) (rest, more, last) = (
    rest
        ∙ rw (ids-append p.result q.result, ids-append tee (arrived tee_chain calls))
            (regroup (ids p.result) (ids q.result) (ids q.tee) (ids p.tee) (ids tee) _
              (step ∙ ids-append p.tee tee)),
    more
        ∙ rw (ids-append p.result q.result, ids-append chain (arrived_other tee_chain calls))
            (regroup_length (ids p.result) (ids q.result) (ids p.chain) (ids chain)
              (ids (arrived_other tee_chain calls)) (length (ids q.chain))
              (omega (arith, sum, ap length (ids-append p.chain chain)))),
    last,
  )

  run-Total :
      (keep : ResultSource) (p p' : Progress P differs on_mismatch) (calls : Calls)
      → KeepsRequest P differs on_mismatch
      → (p.tee ≡ []) ⊎ (p.chain ≡ [])
      → run keep p calls ≡ ok p'
      → Total keep p calls p'
  unfolding run ids
  run-Total keep p p' [] same idle h =
      rw (sym (ok_injective p p' h), append-nil) (refl, omega arith, idle)
  run-Total keep p p' ((tee, chain) ∷ calls) same idle h =
      let (q, h1, k1) =
        bind_ok (new_in_order P differs on_mismatch keep p.captured p.tee p.chain tee chain) _ p'
          h in
      let over = new_in_order-Ended keep p.captured p.tee p.chain tee chain q same h1 in
      extend-Total keep p q p' tee chain calls over
        (run-Total keep (with_result p.result q) p' calls same over.1 k1)

  -- Nothing queued and nothing returned yet.
  abbrev pub fresh : S → Progress P differs on_mismatch
  fresh s = record { captured = s; tee = []; chain = []; result = [] }

  -- For a protocol that keeps the order, and a closure that leaves the request of a response as it is:
  -- after any number of calls, each with any responses of the two chains, the requests answered to the
  -- client followed by those queued of the side that is kept are the requests that this side answered,
  -- in its order; as many of the other side's are used up; and one of the two queues is empty. So the
  -- client has the first answers of the kept side, as many as both sides have given.
  pub run-ids :
      (keep : ResultSource) (s : S) (p : Progress P differs on_mismatch) (calls : Calls)
      → KeepsRequest P differs on_mismatch
      → run keep (fresh s) calls ≡ ok p
      → (ids p.result ++ ids (kept_of P differs on_mismatch keep p.tee p.chain)
          ≡ ids (arrived keep calls))
        × (length (ids p.result) + length (ids (other_of P differs on_mismatch keep p.tee p.chain))
            ≡ length (ids (arrived_other keep calls)))
        × ((p.tee ≡ []) ⊎ (p.chain ≡ []))
  unfolding ids
  run-ids regular_chain s p calls same h =
      let (a, b, c) = run-Total regular_chain (fresh s) p calls same (inl refl) h in
      (a, omega (arith, b), c)
  run-ids tee_chain s p calls same h =
      let (a, b, c) = run-Total tee_chain (fresh s) p calls same (inl refl) h in
      (a, omega (arith, b), c)

  -- Nothing can fail but the closure.
  abbrev pub NeverFails : Type 0
  NeverFails =
      (s : S) (kept other : Message P) → (r : S × Message P) × (on_mismatch s kept other ≡ ok r)
