-- ===== src/Transforms/ParallelMap/Tests.antt =====
-- A parallel map of two chains that count.
use shotover_proxy.Prelude.{ℕ, suc, ◌≡◌, refl, List, [], ◌∷◌, some, Result, ok, err, map}
use shotover_proxy.Transforms.ParallelMap.{transform}
use shotover_proxy.Transforms.ParallelMap.Rounds.{
  in_order, flat, transform-answers_in_order, transform-swallowed,
}

abbrev doubled : ℕ → List ℕ
doubled m = m ∷ m ∷ []

abbrev sole : List ℕ → Result (List ℕ)
sole [] = ok []
sole (m ∷ ms) = ok (doubled m)

abbrev counting : ℕ → List ℕ → ℕ × Result (List ℕ)
counting v ms = (suc v, sole ms)

abbrev failing : ℕ → List ℕ → ℕ × Result (List ℕ)
failing v ms = (v, err "no connection")

transform-answers_in_order_example :
    (vs' : List ℕ) × (transform counting (in_order counting) (0 ∷ 0 ∷ []) (1 ∷ 2 ∷ 3 ∷ [])
      ≡ ok (some (vs', flat counting (map doubled (1 ∷ 2 ∷ 3 ∷ [])))))
transform-answers_in_order_example =
    transform-answers_in_order counting doubled 0 (0 ∷ []) (1 ∷ 2 ∷ 3 ∷ []) (λ v m. refl)

transform-swallowed_example :
    (vs' : List ℕ) × (transform failing (in_order failing) (0 ∷ []) (7 ∷ []) ≡ ok (some (vs', [])))
transform-swallowed_example = transform-swallowed failing 0 [] 7 "no connection" refl
