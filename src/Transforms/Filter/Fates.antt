-- ===== src/Transforms/Filter/Fates.antt =====
-- What a filter does with each request of a batch.
use mathlib.Core.Bool.{false≢true}
use shotover_proxy.Prelude.{
  ℕ, ◌≡◌, ◌≢◌, refl, ap, sym, ◌∙◌, Bool, true, false, List, [], ◌∷◌, codes, some, ok, IdMap,
  map_get, map_insert, arith, All, ◌⊎◌, inl, inr, bind_ok, ok_injective, Bool-cases,
}
use shotover_proxy.Valkey.Frame.{QueryType, read, write, read_write, schema_change, pub_sub}
use shotover_proxy.Message.Frame.{Protocols, rejected}
use shotover_proxy.Message.State.{Message, get_query_type, frame, query_type_of}
use shotover_proxy.Message.Response.{from_request_to_error_response, replace_with_dummy, is_dummy}
use shotover_proxy.Message.Caching.{frame-id}
use shotover_proxy.Transforms.Filter.{Filter, allow_list, deny_list, same_query, filter_out, refuse}

abbrev pub Listed : QueryType → List QueryType → Type 0
Listed q [] = ⊥
Listed q (x ∷ xs) = (q ≡ x) ⊎ Listed q xs

-- The types that a filter lets through, and those that it does not.
abbrev pub Permits : Filter → QueryType → Type 0
Permits (allow_list allowed) q = Listed q allowed
Permits (deny_list denied) q = All (λ x. q ≢ x) denied

abbrev pub Refuses : Filter → QueryType → Type 0
Refuses (allow_list allowed) q = All (λ x. q ≢ x) allowed
Refuses (deny_list denied) q = Listed q denied

same_query-same : (q : QueryType) → same_query q q ≡ true
same_query-same read = refl
same_query-same write = refl
same_query-same read_write = refl
same_query-same schema_change = refl
same_query-same pub_sub = refl

same_query-eq : (a b : QueryType) → same_query a b ≡ true → a ≡ b
same_query-eq a b h = ground arith

differ : (a b : QueryType) → same_query a b ≡ false → a ≢ b
differ a b h e = false≢true (sym h ∙ ap (same_query a) (sym e) ∙ same_query-same a)

filter_out-Permits : (f : Filter) (q : QueryType) → filter_out f q ≡ false → Permits f q
unfolding filter_out
filter_out-Permits (allow_list []) q h = cc
filter_out-Permits (allow_list (x ∷ xs)) q h = elim (Bool-cases (same_query q x)) [
  | inl same ↦ inl (same_query-eq q x same)
  | inr other ↦ inr (filter_out-Permits (allow_list xs) q (ground arith))
]
filter_out-Permits (deny_list []) q h = tt
filter_out-Permits (deny_list (x ∷ xs)) q h = elim (Bool-cases (same_query q x)) [
  | inl same ↦ absurd (ground arith)
  | inr other ↦
      let rest : filter_out (deny_list xs) q ≡ false = ground arith in
      (differ q x other, filter_out-Permits (deny_list xs) q rest)
]

filter_out-Refuses : (f : Filter) (q : QueryType) → filter_out f q ≡ true → Refuses f q
unfolding filter_out
filter_out-Refuses (allow_list []) q h = tt
filter_out-Refuses (allow_list (x ∷ xs)) q h = elim (Bool-cases (same_query q x)) [
  | inl same ↦ absurd (ground arith)
  | inr other ↦
      let rest : filter_out (allow_list xs) q ≡ true = ground arith in
      (differ q x other, filter_out-Refuses (allow_list xs) q rest)
]
filter_out-Refuses (deny_list []) q h = cc
filter_out-Refuses (deny_list (x ∷ xs)) q h = elim (Bool-cases (same_query q x)) [
  | inl same ↦ inl (same_query-eq q x same)
  | inr other ↦ inr (filter_out-Refuses (deny_list xs) q (ground arith))
]

module _ (P : Protocols) (draw : ℕ → ℕ) where
  -- A request of a type that the filter does not let through.
  abbrev pub IsRefused : Filter → Message P → Type 0
  IsRefused f m =
      (seen : Message P) × (q : QueryType) × (get_query_type P m ≡ ok (seen, q)) × Refuses f q

  -- Some refused request of the list has this id.
  abbrev pub RefusedId : Filter → ℕ → List (Message P) → Type 0
  RefusedId f id [] = ⊥
  RefusedId f id (m ∷ ms) = ((m.id ≡ id) × IsRefused f m) ⊎ RefusedId f id ms

  -- The error that answers a refused request.
  abbrev pub ErrorFor : Message P → Message P → Message P → Type 0
  ErrorFor m seen e =
      from_request_to_error_response P (draw m.id) seen
        (codes "Message was filtered out by shotover") rejected
      ≡ ok e

  -- What becomes of a request `m`: it is sent on as it is once it is parsed, or there is a dummy in
  -- its place, and the error for it is kept.
  abbrev pub Fate : Filter → IdMap (Message P) → Message P → Message P → Type 0
  Fate f kept m x =
      (seen : Message P) × (q : QueryType) × (get_query_type P m ≡ ok (seen, q))
      × (x.id ≡ m.id)
      × ((Permits f q × (x ≡ seen))
          ⊎ (Refuses f q
              × (is_dummy P x ≡ true)
              × ((e : Message P) × ErrorFor m seen e × (map_get m.id kept ≡ some e))))

  abbrev pub Fates : Filter → IdMap (Message P) → List (Message P) → List (Message P) → Type 0
  Fates f kept [] [] = Unit {0}
  Fates f kept (m ∷ ms) (x ∷ xs) = Fate f kept m x × Fates f kept ms xs
  Fates f kept _ _ = ⊥

  abbrev pub IdsDiffer : List (Message P) → Type 0
  IdsDiffer [] = Unit {0}
  IdsDiffer (m ∷ ms) = All (λ other. other.id ≢ m.id) ms × IdsDiffer ms

  -- Besides the errors for refused requests nothing is kept that was not kept before.
  abbrev pub OnlyRefused :
      Filter → List (Message P) → IdMap (Message P) → IdMap (Message P) → Type 0
  OnlyRefused f ms before kept =
      (id : ℕ) → (map_get id kept ≡ map_get id before) ⊎ RefusedId f id ms

  pub RefusedId-absent :
      (f : Filter) (id : ℕ) (ms : List (Message P))
      → All (λ other. other.id ≢ id) ms
      → RefusedId f id ms
      → ⊥
  RefusedId-absent f id [] away r = r
  RefusedId-absent f id (m ∷ ms) away (inl r) = away.0 r.0
  RefusedId-absent f id (m ∷ ms) away (inr r) = RefusedId-absent f id ms away.1 r

  -- One request: what is sent and kept for it.
  abbrev pub Step : Filter → Message P → IdMap (Message P) → Message P × IdMap (Message P) → Type 0
  Step f m kept (x, kept') =
      (seen : Message P) × (q : QueryType) × (get_query_type P m ≡ ok (seen, q))
      × (x.id ≡ m.id)
      × ((Permits f q × (x ≡ seen) × (kept' ≡ kept))
          ⊎ (Refuses f q
              × (is_dummy P x ≡ true)
              × ((e : Message P) × ErrorFor m seen e × (kept' ≡ map_insert m.id e kept))))

  pub seen_id :
      (m seen : Message P) (q : QueryType) → get_query_type P m ≡ ok (seen, q) → seen.id ≡ m.id
  unfolding get_query_type
  seen_id m seen q h =
      let (r, hr, h1) = bind_ok (frame P m) _ (seen, q) h in
      let (p, hp, h2) = bind_ok (query_type_of P r.1) _ (seen, q) h1 in
      let same : r.0 ≡ seen = ap (λ (x : Message P × QueryType). x.0) (ok_injective _ _ h2) in
      rw (sym same) (frame-id P m r.0 r.1 hr)

  pub refuse-Step :
      (f : Filter) (m seen : Message P) (q : QueryType) (kept : IdMap (Message P)) (b : Bool)
      (r : Message P × IdMap (Message P))
      → get_query_type P m ≡ ok (seen, q)
      → filter_out f q ≡ b
      → refuse P draw seen kept b ≡ ok r
      → Step f m kept r
  unfolding refuse replace_with_dummy is_dummy
  refuse-Step f m seen q kept false r hq hb h =
      rw (sym (ok_injective _ _ h))
        (seen, q, hq, seen_id m seen q hq, inl (filter_out-Permits f q hb, refl, refl))
  refuse-Step f m seen q kept true r hq hb h =
      let (e, he, h1) = bind_ok (from_request_to_error_response P (draw seen.id) seen _ _) _ r h in
      let same = seen_id m seen q hq in
      let error : ErrorFor m seen e = rw (sym same) he in
      rw (sym (ok_injective _ _ h1)) (
        seen,
        q,
        hq,
        same,
        inr (
          filter_out-Refuses f q hb,
          refl,
          (e, error, ap (λ (id : ℕ). map_insert id e kept) same),
        ),
      )
