-- ===== src/Transforms/Tee/Matching.antt =====
-- The tee for a protocol that does not keep the order: the responses that wait for their pair.
use shotover_proxy.Prelude.{
  ℕ, ◌≡◌, refl, sym, ◌∙◌, Bool, true, false, List, [], ◌∷◌, Option, none, some, Result, ok, arith,
  IdMap, map_get, map_remove, map_insert, map_get-insert, map_get-remove, ◌==◌, ◌⊎◌, inl, inr,
  bind_ok, ok_injective, Bool-cases,
}
use shotover_proxy.Message.Frame.{Protocols}
use shotover_proxy.Message.State.{Message}
use shotover_proxy.Transforms.Tee.{
  ResultSource, join_pair, Matches, unrequested, from_tee, from_chain, tee_response, chain_response,
  take_tee, take_chain, match_tee, match_chain, new_out_of_order,
}

module _ (P : Protocols) where
  -- No request has a response waiting on both sides.
  abbrev pub IsDisjoint : IdMap (Message P) → IdMap (Message P) → Type 0
  IsDisjoint tee chain = (id : ℕ) → (map_get id tee ≡ none) ⊎ (map_get id chain ≡ none)

  IsDisjoint-swap : (a b : IdMap (Message P)) → IsDisjoint a b → IsDisjoint b a
  IsDisjoint-swap a b h id = elim (h id) [ inl e ↦ inr e | inr e ↦ inl e ]

  IsDisjoint-insert :
      (id : ℕ) (m : Message P) (a b : IdMap (Message P))
      → map_get id b ≡ none
      → IsDisjoint a b
      → IsDisjoint (map_insert id m a) b
  IsDisjoint-insert id m a b free h j = elim (Bool-cases (id == j)) [
    | inl same ↦ let equal : id ≡ j = ground arith in inr (rw (sym equal) free)
    | inr other ↦ elim (h j) [ inl e ↦ inl (map_get-insert id j m a ∙ rw other e) | inr e ↦ inr e ]
  ]

  IsDisjoint-remove :
      (id : ℕ) (a b : IdMap (Message P)) → IsDisjoint a b → IsDisjoint a (map_remove id b)
  IsDisjoint-remove id a b h j = elim (h j) [
    | inl e ↦ inl e
    | inr e ↦ inr (map_get-remove id j b ∙ ground (arith, e))
  ]

module _ (P : Protocols) (differs : Message P → Message P → Bool) {S : Type 0}
    (on_mismatch : S → Message P → Message P → Result (S × Message P)) where
  abbrev Apart : Matches P differs on_mismatch → Type 0
  Apart m = IsDisjoint P m.waiting_tee m.waiting_chain

  unrequested-Apart :
      (b : Bool) (m : Matches P differs on_mismatch) (r : Message P)
      → Apart m
      → Apart (unrequested P differs on_mismatch b m r)
  unrequested-Apart true m r h = h
  unrequested-Apart false m r h = h

  tee_response-Apart :
      (keep : ResultSource) (m m' : Matches P differs on_mismatch) (r : Message P) (id : ℕ)
      (o : Option (Message P))
      → map_get id m.waiting_chain ≡ o
      → Apart m
      → tee_response P differs on_mismatch keep m r id o ≡ ok m'
      → Apart m'
  unfolding tee_response
  tee_response-Apart keep m m' r id none e a h =
      rw (sym (ok_injective (record m { waiting_tee = map_insert id r m.waiting_tee }) m' h))
        (IsDisjoint-insert P id r m.waiting_tee m.waiting_chain e a)
  tee_response-Apart keep m m' r id (some c) e a h =
      let (j, h1, k1) = bind_ok (join_pair P differs on_mismatch keep m.captured r c) _ m' h in
      rw (sym (ok_injective _ m' k1)) (IsDisjoint-remove P id m.waiting_tee m.waiting_chain a)

  chain_response-Apart :
      (keep : ResultSource) (m m' : Matches P differs on_mismatch) (r : Message P) (id : ℕ)
      (o : Option (Message P))
      → map_get id m.waiting_tee ≡ o
      → Apart m
      → chain_response P differs on_mismatch keep m r id o ≡ ok m'
      → Apart m'
  unfolding chain_response
  chain_response-Apart keep m m' r id none e a h =
      rw (sym (ok_injective (record m { waiting_chain = map_insert id r m.waiting_chain }) m' h)) (
        IsDisjoint-swap P (map_insert id r m.waiting_chain) m.waiting_tee (
          IsDisjoint-insert P id r m.waiting_chain m.waiting_tee e
            (IsDisjoint-swap P m.waiting_tee m.waiting_chain a)))
  chain_response-Apart keep m m' r id (some t) e a h =
      let (j, h1, k1) = bind_ok (join_pair P differs on_mismatch keep m.captured t r) _ m' h in
      rw (sym (ok_injective _ m' k1)) (
        IsDisjoint-swap P m.waiting_chain (map_remove id m.waiting_tee) (
          IsDisjoint-remove P id m.waiting_chain m.waiting_tee
            (IsDisjoint-swap P m.waiting_tee m.waiting_chain a)))

  take_tee-Apart :
      (keep : ResultSource) (m m' : Matches P differs on_mismatch) (r : Message P) (o : Option ℕ)
      → Apart m
      → take_tee P differs on_mismatch keep m r o ≡ ok m'
      → Apart m'
  unfolding take_tee
  take_tee-Apart keep m m' r none a h =
      rw (sym (ok_injective _ m' h)) (unrequested-Apart (from_tee P differs on_mismatch keep) m r a)
  take_tee-Apart keep m m' r (some id) a h = tee_response-Apart keep m m' r id _ refl a h

  take_chain-Apart :
      (keep : ResultSource) (m m' : Matches P differs on_mismatch) (r : Message P) (o : Option ℕ)
      → Apart m
      → take_chain P differs on_mismatch keep m r o ≡ ok m'
      → Apart m'
  unfolding take_chain
  take_chain-Apart keep m m' r none a h =
      rw (sym (ok_injective _ m' h))
        (unrequested-Apart (from_chain P differs on_mismatch keep) m r a)
  take_chain-Apart keep m m' r (some id) a h = chain_response-Apart keep m m' r id _ refl a h

  match_tee-Apart :
      (keep : ResultSource) (rs : List (Message P)) (m m' : Matches P differs on_mismatch)
      → Apart m
      → match_tee P differs on_mismatch keep rs m ≡ ok m'
      → Apart m'
  unfolding match_tee
  match_tee-Apart keep [] m m' a h = rw (sym (ok_injective m m' h)) a
  match_tee-Apart keep (r ∷ rs) m m' a h =
      let (q, h1, k1) = bind_ok (take_tee P differs on_mismatch keep m r r.request_id) _ m' h in
      match_tee-Apart keep rs q m' (take_tee-Apart keep m q r r.request_id a h1) k1

  match_chain-Apart :
      (keep : ResultSource) (rs : List (Message P)) (m m' : Matches P differs on_mismatch)
      → Apart m
      → match_chain P differs on_mismatch keep rs m ≡ ok m'
      → Apart m'
  unfolding match_chain
  match_chain-Apart keep [] m m' a h = rw (sym (ok_injective m m' h)) a
  match_chain-Apart keep (r ∷ rs) m m' a h =
      let (q, h1, k1) = bind_ok (take_chain P differs on_mismatch keep m r r.request_id) _ m' h in
      match_chain-Apart keep rs q m' (take_chain-Apart keep m q r r.request_id a h1) k1

  -- For a protocol that does not keep the order: no call leaves a response of each chain waiting for
  -- the same request, if none did before, so that a pair never waits.
  pub new_out_of_order-IsDisjoint :
      (keep : ResultSource) (s : S) (tee chain : IdMap (Message P))
      (tee_responses chain_responses : List (Message P)) (m : Matches P differs on_mismatch)
      → IsDisjoint P tee chain
      → new_out_of_order P differs on_mismatch keep s tee chain tee_responses chain_responses ≡ ok m
      → IsDisjoint P m.waiting_tee m.waiting_chain
  unfolding new_out_of_order
  new_out_of_order-IsDisjoint keep s tee chain tee_responses chain_responses m a h =
      let (q, h1, k1) = bind_ok (match_tee P differs on_mismatch keep tee_responses _) _ m h in
      match_chain-Apart keep chain_responses q m (match_tee-Apart keep tee_responses _ q a h1) k1
