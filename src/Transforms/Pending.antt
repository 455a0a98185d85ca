-- ===== src/Transforms/Pending.antt =====
-- The loop at the end of `QueryTypeFilter::transform` and of `RequestThrottling::transform`: the
-- responses to dummies make room for the responses that the transform kept.
use shotover_proxy.Prelude.{
  ◌≢◌, ℕ, ◌≡◌, refl, ap, sym, ◌∙◌, Bool, true, false, List, [], ◌∷◌, Option, none, some, map, IdMap,
  map_get, map_remove, map_insert, map_get-remove, map_get-insert, ◌==◌, if◌then◌else◌, arith, All,
}
use shotover_proxy.Message.Frame.{Protocols}
use shotover_proxy.Message.State.{Message}

some_injective : {A : Type 0} (a b : A) → some a ≡ some b → a ≡ b
some_injective a b h = cc

module _ (P : Protocols) where
  -- One response, on what the map has for it.
  abbrev replaced : Message P → Option (Message P) → Message P
  replaced response none = response
  replaced response (some kept) = kept

  abbrev kept_for : IdMap (Message P) → Option ℕ → Option (Message P)
  kept_for pending none = none
  kept_for pending (some id) = map_get id pending

  abbrev without : IdMap (Message P) → Option ℕ → IdMap (Message P)
  without pending none = pending
  without pending (some id) = map_remove id pending

  unfoldable pub replace_responses :
      IdMap (Message P) → List (Message P) → List (Message P) × IdMap (Message P)
  unfolding map_get map_remove
  replace_responses pending [] = ([], pending)
  replace_responses pending (response ∷ responses) =
      let (rest, left) = replace_responses (without pending response.request_id) responses in
      (replaced response (kept_for pending response.request_id) ∷ rest, left)

  -- What is kept for a request answers it.
  abbrev pub AllAnswer : IdMap (Message P) → Type 0
  AllAnswer pending =
      (id : ℕ) (kept : Message P) → map_get id pending ≡ some kept → kept.request_id ≡ some id

  inserted :
      (id j : ℕ) (kept other : Message P) (pending : IdMap (Message P))
      → kept.request_id ≡ some id
      → AllAnswer pending
      → (b : Bool) → (id == j) ≡ b
      → (if b then some kept else map_get j pending) ≡ some other
      → other.request_id ≡ some j
  inserted id j kept other pending answers all true same e =
      let there : kept ≡ other = some_injective kept other e in
      let equal : id ≡ j = ground arith in rw (sym there, sym equal) answers
  inserted id j kept other pending answers all false same e = all j other e

  removed :
      (j : ℕ) (other : Message P) (pending : IdMap (Message P))
      → AllAnswer pending
      → (b : Bool) → (if b then none else map_get j pending) ≡ some other
      → other.request_id ≡ some j
  removed j other pending all true e = cc
  removed j other pending all false e = all j other e

  pub AllAnswer-insert :
      (id : ℕ) (kept : Message P) (pending : IdMap (Message P))
      → kept.request_id ≡ some id
      → AllAnswer pending
      → AllAnswer (map_insert id kept pending)
  AllAnswer-insert id kept pending answers all j other found =
      let e : (if id == j then some kept else map_get j pending) ≡ some other =
        sym (map_get-insert id j kept pending) ∙ found in
      inserted id j kept other pending answers all (id == j) refl e

  AllAnswer-remove :
      (id : ℕ) (pending : IdMap (Message P)) → AllAnswer pending → AllAnswer (map_remove id pending)
  AllAnswer-remove id pending all j other found =
      removed j other pending all (id == j) (sym (map_get-remove id j pending) ∙ found)

  AllAnswer-without :
      (id : Option ℕ) (pending : IdMap (Message P))
      → AllAnswer pending
      → AllAnswer (without pending id)
  AllAnswer-without none pending all = all
  AllAnswer-without (some id) pending all = AllAnswer-remove id pending all

  replaced_found :
      (response : Message P) (pending : IdMap (Message P)) (id : ℕ) (found : Option (Message P))
      → AllAnswer pending
      → map_get id pending ≡ found
      → response.request_id ≡ some id
      → (replaced response found).request_id ≡ some id
  replaced_found response pending id none all e at = at
  replaced_found response pending id (some kept) all e at = all id kept e

  replaced-request_id :
      (response : Message P) (pending : IdMap (Message P)) (id : Option ℕ)
      → AllAnswer pending
      → response.request_id ≡ id
      → (replaced response (kept_for pending id)).request_id ≡ id
  replaced-request_id response pending none all at = at
  replaced-request_id response pending (some id) all at =
      replaced_found response pending id _ all refl at

  pub replace_responses-request_id :
      (pending : IdMap (Message P)) (responses : List (Message P))
      → AllAnswer pending
      → map (λ r. r.request_id) (replace_responses pending responses).0
        ≡ map (λ r. r.request_id) responses
  unfolding replace_responses
  replace_responses-request_id pending [] all = refl
  replace_responses-request_id pending (response ∷ responses) all =
      rw
        (
          replaced-request_id response pending response.request_id all refl,
          replace_responses-request_id (without pending response.request_id) responses
              (AllAnswer-without response.request_id pending all),
        )
        refl

  -- No later response is for the same request.
  abbrev Unlike : Option ℕ → Message P → Type 0
  Unlike none r = Unit {0}
  Unlike (some id) r = r.request_id ≢ some id

  abbrev pub Distinct : List (Message P) → Type 0
  Distinct [] = Unit {0}
  Distinct (r ∷ rs) = All (Unlike r.request_id) rs × Distinct rs

  abbrev pub answer_from : IdMap (Message P) → Message P → Message P
  answer_from pending r = replaced r (kept_for pending r.request_id)

  other_key :
      (id j : ℕ) (pending : IdMap (Message P))
      → some j ≢ some id
      → (b : Bool) → (id == j) ≡ b
      → (if b then none else map_get j pending) ≡ map_get j pending
  other_key id j pending h true same =
      let equal : id ≡ j = ground arith in absurd (h (ap some (sym equal)))
  other_key id j pending h false same = refl

  kept_for-remove :
      (id : ℕ) (pending : IdMap (Message P)) (o : Option ℕ)
      → o ≢ some id
      → kept_for (map_remove id pending) o ≡ kept_for pending o
  kept_for-remove id pending none h = refl
  kept_for-remove id pending (some j) h =
      map_get-remove id j pending ∙ other_key id j pending h (id == j) refl

  answers_without :
      (o : Option ℕ) (pending : IdMap (Message P)) (rs : List (Message P))
      → All (Unlike o) rs
      → map (answer_from (without pending o)) rs ≡ map (answer_from pending) rs
  answers_without none pending rs h = refl
  answers_without (some id) pending [] h = refl
  answers_without (some id) pending (r ∷ rs) h =
      rw (kept_for-remove id pending r.request_id h.0, answers_without (some id) pending rs h.1)
        refl

  -- When every request is answered at most once, each response becomes what is kept for its request,
  -- or stays if nothing is kept.
  pub replace_responses-map :
      (pending : IdMap (Message P)) (rs : List (Message P))
      → Distinct rs
      → (replace_responses pending rs).0 ≡ map (answer_from pending) rs
  unfolding replace_responses
  replace_responses-map pending [] h = refl
  replace_responses-map pending (r ∷ rs) h =
      ap (λ (l : List (Message P)). answer_from pending r ∷ l)
        (replace_responses-map (without pending r.request_id) rs h.1
          ∙ answers_without r.request_id pending rs h.0)
