-- ===== src/Valkey/Cluster/Routing/Join.antt =====
-- What several nodes' responses become.
use shotover_proxy.Prelude.{
  ℕ, ◌+◌, ◌%◌, ◌^◌, ◌≡◌, refl, ap, ◌∙◌, List, [], ◌∷◌, ◌++◌, Bytes, Option, none, some, arith, map,
  ◌<◌, append_assoc, append-nil, ◌⊎◌, inl, inr,
}
use shotover_proxy.Valkey.Frame.{
  ValkeyFrame, simple_string, error, bulk_string, integer, array, null, to_list, of_list,
  to_list-of_list,
}
use shotover_proxy.Valkey.Cluster.Routing.{
  ResponseJoin, first, array_join, integer_sum, NodeResponse, answered, failed, join, collate,
}

abbrev pub sum : List ℕ → ℕ
sum [] = 0
sum (x ∷ xs) = x + sum xs

collate-sum_from :
    (acc : ℕ) (xs : List ℕ)
    → acc < 2 ^ 64
    → collate integer_sum (some (integer acc)) (map (λ x. answered (integer x)) xs)
      ≡ some (integer ((acc + sum xs) % 2 ^ 64))
unfolding collate join
collate-sum_from acc [] h = ap (λ (n : ℕ). some (integer n)) (omega arith)
collate-sum_from acc (x ∷ xs) h =
    collate-sum_from ((acc + x) % 2 ^ 64) xs (omega arith)
    ∙ ap (λ (n : ℕ). some (integer n)) (omega arith)

-- Integers from one or more nodes, each a 64 bit pattern, are added modulo 2 ^ 64, so the order in
-- which the nodes answer does not matter.
pub collate-sum :
    (x : ℕ) (xs : List ℕ)
    → x < 2 ^ 64
    → collate integer_sum none (map (λ i. answered (integer i)) (x ∷ xs))
      ≡ some (integer ((x + sum xs) % 2 ^ 64))
unfolding collate
collate-sum x xs h = collate-sum_from x xs h

abbrev pub IsError : Option ValkeyFrame → Type 0
IsError r = (e : Bytes) × (r ≡ some (error e))

collate_error :
    (j : ResponseJoin) (e : Bytes) (rs : List NodeResponse)
    → collate j (some (error e)) rs ≡ some (error e)
unfolding collate
collate_error j e [] = refl
collate_error j e (r ∷ rs) = collate_error j e rs

-- An accumulated frame is an error, or the fold goes on with the next answer.
abbrev Advances : ValkeyFrame → Type 0
Advances prev =
    (j : ResponseJoin) (rs : List NodeResponse)
    → ((f : ValkeyFrame)
        → collate j (some prev) (answered f ∷ rs) ≡ collate j (some (join j prev f)) rs)
      × ((e : Bytes) → collate j (some prev) (failed e ∷ rs) ≡ collate j (some (error e)) rs)

frame_cases : (prev : ValkeyFrame) → ((e : Bytes) × (prev ≡ error e)) ⊎ Advances prev
unfolding collate
frame_cases (error e) = inl (e, refl)
frame_cases (simple_string s) = inr (λ j rs. ((λ f. refl), (λ e. refl)))
frame_cases (bulk_string s) = inr (λ j rs. ((λ f. refl), (λ e. refl)))
frame_cases (integer i) = inr (λ j rs. ((λ f. refl), (λ e. refl)))
frame_cases (array fs) = inr (λ j rs. ((λ f. refl), (λ e. refl)))
frame_cases null = inr (λ j rs. ((λ f. refl), (λ e. refl)))

collate_stuck :
    (j : ResponseJoin) (prev : ValkeyFrame) (e : Bytes) (rs : List NodeResponse)
    → prev ≡ error e
    → IsError (collate j (some prev) rs)
collate_stuck j prev e rs h = rw h (e, collate_error j e rs)

collate_failed_from :
    (j : ResponseJoin) (prev : ValkeyFrame) (before behind : List NodeResponse) (e : Bytes)
    → IsError (collate j (some prev) (before ++ (failed e ∷ behind)))
collate_failed_from j prev [] behind e = elim (frame_cases prev) [
  | inl (e', h) ↦ collate_stuck j prev e' _ h
  | inr step ↦ (e, (step j behind).1 e ∙ collate_error j e behind)
]
collate_failed_from j prev (answered f ∷ before) behind e = elim (frame_cases prev) [
  | inl (e', h) ↦ collate_stuck j prev e' _ h
  | inr step ↦
      let (e', h) = collate_failed_from j (join j prev f) before behind e in
      (e', (step j (before ++ (failed e ∷ behind))).0 f ∙ h)
]
collate_failed_from j prev (failed e'' ∷ before) behind e = elim (frame_cases prev) [
  | inl (e', h) ↦ collate_stuck j prev e' _ h
  | inr step ↦ (e'', (step j (before ++ (failed e ∷ behind))).1 e'' ∙ collate_error j e'' _)
]

-- If one of the nodes could not be asked, at any place among the answers and with any way to join
-- them, then the client gets an error.
pub collate_failed :
    (j : ResponseJoin) (before behind : List NodeResponse) (e : Bytes)
    → IsError (collate j none (before ++ (failed e ∷ behind)))
unfolding collate
collate_failed j [] behind e = (e, collate_error j e behind)
collate_failed j (answered f ∷ before) behind e = collate_failed_from j f before behind e
collate_failed j (failed e' ∷ before) behind e =
    (e', collate_error j e' (before ++ (failed e ∷ behind)))

collate_first_from :
    (prev : ValkeyFrame) (fs : List ValkeyFrame)
    → collate first (some prev) (map answered fs) ≡ some prev
unfolding join
collate_first_from prev [] = unfold collate in refl
collate_first_from prev (f ∷ fs) = elim (frame_cases prev) [
  | inl (e, h) ↦ rw h (collate_error first e _)
  | inr step ↦ (step first (map answered fs)).0 f ∙ collate_first_from prev fs
]

-- With the join `first` the client gets the frame that arrived first, whatever the other nodes
-- answer: an error frame that any of them answers later is dropped.
pub collate_first :
    (f : ValkeyFrame) (fs : List ValkeyFrame) → collate first none (map answered (f ∷ fs)) ≡ some f
unfolding collate
collate_first f fs = collate_first_from f fs

abbrev pub concat : List (List ValkeyFrame) → List ValkeyFrame
concat [] = []
concat (xs ∷ xss) = xs ++ concat xss

collate_arrays_from :
    (acc : List ValkeyFrame) (xss : List (List ValkeyFrame))
    → collate array_join
        (some (array (of_list acc)))
        (map (λ xs. answered (array (of_list xs))) xss)
      ≡ some (array (of_list (acc ++ concat xss)))
unfolding collate join
collate_arrays_from acc [] = rw append-nil refl
collate_arrays_from acc (xs ∷ xss) =
    let both : to_list (of_list acc) ++ to_list (of_list xs) ≡ acc ++ xs =
      rw (to_list-of_list acc, to_list-of_list xs) refl in
    let rest : List NodeResponse = map (λ ys. answered (array (of_list ys))) xss in
    ap (λ (l : List ValkeyFrame). collate array_join (some (array (of_list l))) rest) both
    ∙ collate_arrays_from (acc ++ xs) xss
    ∙ ap (λ (l : List ValkeyFrame). some (array (of_list l))) (append_assoc acc xs (concat xss))

-- Arrays from one or more nodes become one array, in the order of arrival and with nothing lost.
pub collate_arrays :
    (xs : List ValkeyFrame) (xss : List (List ValkeyFrame))
    → collate array_join none (map (λ ys. answered (array (of_list ys))) (xs ∷ xss))
      ≡ some (array (of_list (xs ++ concat xss)))
unfolding collate
collate_arrays xs xss = collate_arrays_from xs xss
