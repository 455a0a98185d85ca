-- ===== src/Transforms/ParallelMap/Rounds.antt =====
-- What the rounds of the parallel map return.
use shotover_proxy.Prelude.{
  ℕ, zero, suc, ◌+◌, ◌≤◌, ◌≡◌, refl, sym, ap, ◌∙◌, List, [], ◌∷◌, ◌++◌, append_assoc, append-nil,
  some, String, Result, ok, err, map_results, length, length-append, map, arith,
}
use shotover_proxy.Transforms.ParallelMap.{
  start_round, flatten, same, collect_round, rounds, transform,
}

module _ {V : Type 0} {M : Type 0} (process_request : V → List M → V × Result (List M)) where
  abbrev pub in_order : List (Result (List M)) → List (Result (List M))
  in_order rs = rs

  -- What a round takes and gives, when chains answer.
  abbrev Taken : (M → List M) → List V → List M → Type 0
  Taken answer vs ms =
      (vs' : List V) × (taken : List M) × (left : List M) × (start_round process_request in_order vs
          ms
        ≡ (vs', map (λ m. ok (answer m)) taken, left))
      × (ms ≡ taken ++ left)
      × (length vs' ≡ length vs)

  start_round-Taken :
      (answer : M → List M) (vs : List V) (ms : List M)
      → ((v : V) (m : M) → (process_request v (m ∷ [])).1 ≡ ok (answer m))
      → Taken answer vs ms
  unfolding start_round
  start_round-Taken answer [] ms h = ([], [], ms, refl, refl, refl)
  start_round-Taken answer (v ∷ vs) [] h = (v ∷ vs, [], [], refl, refl, refl)
  start_round-Taken answer (v ∷ vs) (m ∷ ms) h =
      let (vs', taken, left, run, split, count) = start_round-Taken answer vs ms h in
      (
        (process_request v (m ∷ [])).0 ∷ vs',
        m ∷ taken,
        left,
        rw (run, h v m) refl,
        ap (λ l. m ∷ l) split,
        ap suc count,
      )

  all_ok :
      (answer : M → List M) (taken : List M)
      → map_results (same process_request in_order) (map (λ m. ok (answer m)) taken)
        ≡ ok (map answer taken)
  unfolding map_results
  all_ok answer [] = refl
  all_ok answer (m ∷ ms) = rw (all_ok answer ms) refl

  abbrev pub flat : List (List M) → List M
  flat = flatten process_request in_order

  collected :
      (answer : M → List M) (taken : List M)
      → collect_round process_request in_order (map (λ m. ok (answer m)) taken)
        ≡ ok (flat (map answer taken))
  unfolding collect_round
  collected answer taken = rw (all_ok answer taken) refl

  flat-append :
      (answer : M → List M) (xs ys : List M)
      → flat (map answer (xs ++ ys)) ≡ flat (map answer xs) ++ flat (map answer ys)
  unfolding flatten
  flat-append answer [] ys = refl
  flat-append answer (x ∷ xs) ys =
      ap (λ l. answer x ++ l) (flat-append answer xs ys)
      ∙ sym (append_assoc (answer x) (flat (map answer xs)) (flat (map answer ys)))

  nothing_left : (vs : List V) → start_round process_request in_order vs [] ≡ (vs, [], [])
  unfolding start_round
  nothing_left [] = refl
  nothing_left (v ∷ vs) = refl

  rounds_lem :
      (answer : M → List M) (fuel : ℕ) (v : V) (vs : List V) (ms results : List M)
      → ((v : V) (m : M) → (process_request v (m ∷ [])).1 ≡ ok (answer m))
      → length ms ≤ fuel
      → (vs' : List V) × (rounds process_request in_order fuel (v ∷ vs) ms results
          ≡ ok (some (vs', results ++ flat (map answer ms))))
  unfolding rounds start_round flatten
  rounds_lem answer fuel v vs [] results h enough = (v ∷ vs, rw (append-nil results) refl)
  rounds_lem answer zero v vs (m ∷ ms) results h enough = absurd (omega arith)
  rounds_lem answer (suc fuel) v vs (m ∷ ms) results h enough =
      let (vs', taken, left, run, split, count) = start_round-Taken answer vs ms h in
      let fewer : length ms ≡ length taken + length left =
        ap length split ∙ length-append taken left in
      let (vs'', rest) =
        rounds_lem answer fuel (process_request v (m ∷ [])).0 vs' left
          (results ++ flat (map answer (m ∷ taken))) h (omega arith) in
      let whole =
        append_assoc results (flat (map answer (m ∷ taken))) (flat (map answer left))
        ∙ ap (λ l. results ++ l)
            (sym (flat-append answer (m ∷ taken) left)
              ∙ ap (λ l. flat (map answer (m ∷ l))) (sym split)) in
      (
        vs'',
        rw (run, h v m, collected answer (m ∷ taken), rest) (ap (λ l. ok (some (vs'', l))) whole),
      )

  -- For a map with one chain or more, ordered results, and chains that answer each message alone, by
  -- some function of it, without failing: the transform returns, and gives the answers to all messages
  -- in the order of the messages; as many rounds as there are messages are enough.
  pub transform-answers_in_order :
      (answer : M → List M) (v : V) (vs : List V) (ms : List M)
      → ((v : V) (m : M) → (process_request v (m ∷ [])).1 ≡ ok (answer m))
      → (vs' : List V) × (transform process_request in_order (v ∷ vs) ms
          ≡ ok (some (vs', flat (map answer ms))))
  unfolding transform
  transform-answers_in_order answer v vs ms h =
      rounds_lem answer (length ms) v vs ms [] h (omega arith)

  -- For a single message and one chain or more: when the chain's run on it is an error, the transform
  -- returns no error but an empty list of responses.
  pub transform-swallowed :
      (v : V) (vs : List V) (m : M) (e : String)
      → (process_request v (m ∷ [])).1 ≡ err e
      → (vs' : List V) × (transform process_request in_order (v ∷ vs) (m ∷ [])
          ≡ ok (some (vs', [])))
  unfolding transform rounds collect_round map_results start_round
  transform-swallowed v vs m e h =
      ((process_request v (m ∷ [])).0 ∷ vs, rw (nothing_left vs, h) refl)
