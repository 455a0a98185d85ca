-- ===== src/Transforms/Tee/Rounds.antt =====
-- The rounds of the loop over both queues: what they keep, and that they end.
use shotover_proxy.Prelude.{
  ℕ, zero, suc, ◌+◌, ◌<◌, ◌≡◌, refl, ap, sym, ◌∙◌, Bool, true, false, List, [], ◌∷◌, ◌++◌, Option,
  none, some, Result, ok, length, arith, ◌⊎◌, inl, inr, append_assoc, append-nil, length-append,
  bind_ok, ok_injective,
}
use shotover_proxy.Message.Frame.{Protocols}
use shotover_proxy.Message.State.{Message}
use shotover_proxy.Transforms.Tee.{
  ResultSource, regular_chain, tee_chain, join_pair, mismatched, requested, is_some_id, Progress,
  round_on, one_round, pair_up,
}

-- The requests that responses answer, in order.
abbrev pub id_list : Option ℕ → List ℕ
id_list none = []
id_list (some id) = id ∷ []

unfoldable pub ids : {P : Protocols} → List (Message P) → List ℕ
ids [] = []
ids (m ∷ ms) = id_list m.request_id ++ ids ms

pub ids-append : {P : Protocols} (xs ys : List (Message P)) → ids (xs ++ ys) ≡ ids xs ++ ids ys
unfolding ids
ids-append [] ys = refl
ids-append (x ∷ xs) ys =
    rw (ids-append xs ys) (sym (append_assoc (id_list x.request_id) (ids xs) (ids ys)))

ids-snoc :
    {P : Protocols} (xs : List (Message P)) (m : Message P)
    → ids (xs ++ m ∷ []) ≡ ids xs ++ id_list m.request_id
unfolding ids
ids-snoc xs m = ids-append xs (m ∷ []) ∙ ap (◌++◌ (ids xs)) (append-nil (id_list m.request_id))

pub unrequested_ids : (o : Option ℕ) → is_some_id o ≡ false → id_list o ≡ []
unrequested_ids none h = refl
unrequested_ids (some id) h = cc

one_id : (o : Option ℕ) → is_some_id o ≡ true → length (id_list o) ≡ 1
one_id none h = cc
one_id (some id) h = omega arith

module _ (P : Protocols) (differs : Message P → Message P → Bool) {S : Type 0}
    (on_mismatch : S → Message P → Message P → Result (S × Message P)) where
  -- The closure answers the same request.
  abbrev pub KeepsRequest : Type 0
  KeepsRequest =
      (s s' : S) (kept other r : Message P)
      → on_mismatch s kept other ≡ ok (s', r)
      → r.request_id ≡ kept.request_id

  abbrev pub kept_of : ResultSource → {A : Type 0} → A → A → A
  kept_of regular_chain tee chain = chain
  kept_of tee_chain tee chain = tee

  abbrev pub other_of : ResultSource → {A : Type 0} → A → A → A
  other_of regular_chain tee chain = tee
  other_of tee_chain tee chain = chain

  mismatched-request_id :
      (s s' : S) (kept other r : Message P)
      → KeepsRequest
      → (b : Bool) → mismatched P differs on_mismatch s kept other b ≡ ok (s', r)
      → r.request_id ≡ kept.request_id
  mismatched-request_id s s' kept other r same false h =
      sym (ap (λ (x : S × Message P). x.1.request_id) (ok_injective _ _ h))
  mismatched-request_id s s' kept other r same true h = same s s' kept other r h

  join_pair-request_id :
      (keep : ResultSource) (s s' : S) (t c kept : Message P)
      → KeepsRequest
      → join_pair P differs on_mismatch keep s t c ≡ ok (s', kept)
      → kept.request_id ≡ (kept_of keep t c).request_id
  unfolding join_pair
  join_pair-request_id regular_chain s s' t c kept same h =
      mismatched-request_id s s' c t kept same (differs t c) h
  join_pair-request_id tee_chain s s' t c kept same h =
      mismatched-request_id s s' t c kept same (differs t c) h

  -- What is returned followed by what is queued, of the kept side; how much, of the other side.
  abbrev pub Balance :
      ResultSource → Progress P differs on_mismatch → Progress P differs on_mismatch → Type 0
  Balance keep p p' =
      (ids p'.result ++ ids (kept_of keep p'.tee p'.chain)
        ≡ ids p.result ++ ids (kept_of keep p.tee p.chain))
      × (length (ids p'.result) + length (ids (other_of keep p'.tee p'.chain))
          ≡ length (ids p.result) + length (ids (other_of keep p.tee p.chain)))

  -- A response that answers no request moves to the result.
  push_unrequested :
      (r : List (Message P)) (m : Message P)
      → requested P differs on_mismatch m ≡ false
      → ids (r ++ m ∷ []) ≡ ids r
  push_unrequested r m h =
      ids-snoc r m
      ∙ ap (λ (l : List ℕ). ids r ++ l) (unrequested_ids m.request_id h)
      ∙ append-nil (ids r)

  drop_unrequested :
      (m : Message P) (ms : List (Message P))
      → requested P differs on_mismatch m ≡ false
      → ids ms ≡ ids (m ∷ ms)
  unfolding ids
  drop_unrequested m ms h = ap (λ (l : List ℕ). l ++ ids ms) (sym (unrequested_ids m.request_id h))

  abbrev pub Smaller : Progress P differs on_mismatch → Progress P differs on_mismatch → Type 0
  Smaller p p' = length p'.tee + length p'.chain < length p.tee + length p.chain

  kept_ids :
      (r ms : List (Message P)) (m kept : Message P)
      → kept.request_id ≡ m.request_id
      → ids (r ++ kept ∷ []) ++ ids ms ≡ ids r ++ ids (m ∷ ms)
  unfolding ids
  kept_ids r ms m kept e =
      ap (λ (l : List ℕ). l ++ ids ms)
        (ids-snoc r kept ∙ ap (λ (o : Option ℕ). ids r ++ id_list o) e)
      ∙ append_assoc (ids r) (id_list m.request_id) (ids ms)

  other_ids :
      (r ms : List (Message P)) (m kept : Message P)
      → requested P differs on_mismatch m ≡ true
      → requested P differs on_mismatch kept ≡ true
      → length (ids (r ++ kept ∷ [])) + length (ids ms) ≡ length (ids r) + length (ids (m ∷ ms))
  unfolding ids
  other_ids r ms m kept hm hk = omega (
    arith,
    ap length (ids-snoc r kept),
    length-append (ids r) (id_list kept.request_id),
    length-append (id_list m.request_id) (ids ms),
    one_id m.request_id hm,
    one_id kept.request_id hk,
  )

  both_Balance :
      (keep : ResultSource) (p p' : Progress P differs on_mismatch) (t c : Message P)
      (ts cs : List (Message P))
      → KeepsRequest
      → requested P differs on_mismatch t ≡ true
      → requested P differs on_mismatch c ≡ true
      → round_on P differs on_mismatch keep
          (record p { tee = t ∷ ts; chain = c ∷ cs })
          true
          true
          t
          ts
          c
          cs
        ≡ ok p'
      → Balance keep (record p { tee = t ∷ ts; chain = c ∷ cs }) p'
  unfolding round_on
  both_Balance regular_chain p p' t c ts cs same ht hc h =
      let (j, h1, k1) =
        bind_ok (join_pair P differs on_mismatch regular_chain p.captured t c) _ p' h in
      let e = join_pair-request_id regular_chain p.captured j.0 t c j.1 same h1 in
      rw (sym (ok_injective _ _ k1))
        (kept_ids p.result cs c j.1 e, other_ids p.result ts t j.1 ht (ap is_some_id e ∙ hc))
  both_Balance tee_chain p p' t c ts cs same ht hc h =
      let (j, h1, k1) = bind_ok (join_pair P differs on_mismatch tee_chain p.captured t c) _ p' h in
      let e = join_pair-request_id tee_chain p.captured j.0 t c j.1 same h1 in
      rw (sym (ok_injective _ _ k1))
        (kept_ids p.result ts t j.1 e, other_ids p.result cs c j.1 hc (ap is_some_id e ∙ ht))

  abbrev pub at :
      Progress P differs on_mismatch
      → List (Message P)
      → List (Message P)
      → Progress P differs on_mismatch
  at p tee chain = record p { tee = tee; chain = chain }

  round_on-Balance :
      (keep : ResultSource) (p p' : Progress P differs on_mismatch) (t c : Message P)
      (ts cs : List (Message P)) (rt rc : Bool)
      → KeepsRequest
      → requested P differs on_mismatch t ≡ rt
      → requested P differs on_mismatch c ≡ rc
      → round_on P differs on_mismatch keep (at p (t ∷ ts) (c ∷ cs)) rt rc t ts c cs ≡ ok p'
      → Balance keep (at p (t ∷ ts) (c ∷ cs)) p' × Smaller (at p (t ∷ ts) (c ∷ cs)) p'
  unfolding round_on
  round_on-Balance regular_chain p p' t c ts cs false rc same ht hc h =
      rw (sym (ok_injective _ _ h), push_unrequested p.result t ht, drop_unrequested t ts ht)
        ((refl, refl), omega arith)
  round_on-Balance tee_chain p p' t c ts cs false rc same ht hc h =
      rw (sym (ok_injective _ _ h), push_unrequested p.result t ht, drop_unrequested t ts ht)
        ((refl, refl), omega arith)
  round_on-Balance regular_chain p p' t c ts cs true false same ht hc h =
      rw (sym (ok_injective _ _ h), push_unrequested p.result c hc, drop_unrequested c cs hc)
        ((refl, refl), omega arith)
  round_on-Balance tee_chain p p' t c ts cs true false same ht hc h =
      rw (sym (ok_injective _ _ h), push_unrequested p.result c hc, drop_unrequested c cs hc)
        ((refl, refl), omega arith)
  round_on-Balance keep p p' t c ts cs true true same ht hc h =
      let (j, h1, k1) = bind_ok (join_pair P differs on_mismatch keep p.captured t c) _ p' h in
      (both_Balance keep p p' t c ts cs same ht hc h, rw (sym (ok_injective _ _ k1)) (omega arith))

  -- A round, on the two queues: the loop ends on an empty one, or goes on with less.
  abbrev pub Round :
      ResultSource
      → Progress P differs on_mismatch
      → Option (Progress P differs on_mismatch)
      → Type 0
  Round keep p none = (p.tee ≡ []) ⊎ (p.chain ≡ [])
  Round keep p (some p') = Balance keep p p' × Smaller p p'

  pub one_round-Round :
      (keep : ResultSource) (p : Progress P differs on_mismatch) (tee chain : List (Message P))
      (r : Option (Progress P differs on_mismatch))
      → KeepsRequest
      → one_round P differs on_mismatch keep (at p tee chain) tee chain ≡ ok r
      → Round keep (at p tee chain) r
  unfolding one_round
  one_round-Round keep p [] chain r same h = rw (sym (ok_injective none r h)) (inl refl)
  one_round-Round keep p (t ∷ ts) [] r same h = rw (sym (ok_injective none r h)) (inr refl)
  one_round-Round keep p (t ∷ ts) (c ∷ cs) r same h =
      let (p', h1, k1) =
        bind_ok
          (round_on P differs on_mismatch keep (at p (t ∷ ts) (c ∷ cs))
            (requested P differs on_mismatch t) (requested P differs on_mismatch c) t ts c cs)
          (λ x. ok (some x)) r h in
      rw (sym (ok_injective (some p') r k1))
        (round_on-Balance keep p p' t c ts cs _ _ same refl refl h1)

  pub Balance-trans :
      (keep : ResultSource) (p q r : Progress P differs on_mismatch)
      → Balance keep p q
      → Balance keep q r
      → Balance keep p r
  Balance-trans keep p q r (a, b) (c, d) = (c ∙ a, d ∙ b)

  -- What the loop ends with: a balance, and an empty queue.
  abbrev pub Ended :
      ResultSource → Progress P differs on_mismatch → Progress P differs on_mismatch → Type 0
  Ended keep p p' = Balance keep p p' × ((p'.tee ≡ []) ⊎ (p'.chain ≡ []))

  pub pair_up-Ended :
      (keep : ResultSource) (fuel : ℕ) (p : Progress P differs on_mismatch)
      (r : Option (Progress P differs on_mismatch))
      → KeepsRequest
      → length p.tee + length p.chain < fuel
      → pair_up P differs on_mismatch keep fuel p ≡ ok r
      → (p' : Progress P differs on_mismatch) × (r ≡ some p') × Ended keep p p'
  unfolding pair_up
  pair_up-Ended keep zero p r same big h = absurd (omega arith)
  pair_up-Ended keep (suc fuel) p r same big h =
      let (o, h1, k1) = bind_ok (one_round P differs on_mismatch keep p p.tee p.chain) _ r h in
      after keep fuel p r o same big (one_round-Round keep p p.tee p.chain o same h1) k1
        (pair_up-Ended keep fuel)
    where
      after :
          (keep : ResultSource) (fuel : ℕ) (p : Progress P differs on_mismatch)
          (r o : Option (Progress P differs on_mismatch))
          → KeepsRequest
          → length p.tee + length p.chain < suc fuel
          → Round keep p o
          → elim o [ none ↦ ok (some p) | some p' ↦ pair_up P differs on_mismatch keep fuel p' ]
            ≡ ok r
          → ((p : Progress P differs on_mismatch) (r : Option (Progress P differs on_mismatch))
              → KeepsRequest
              → length p.tee + length p.chain < fuel
              → pair_up P differs on_mismatch keep fuel p ≡ ok r
              → (p' : Progress P differs on_mismatch) × (r ≡ some p') × Ended keep p p')
          → (p' : Progress P differs on_mismatch) × (r ≡ some p') × Ended keep p p'
      after keep fuel p r none same big done h ih =
          (p, sym (ok_injective _ _ h), ((refl, refl), done))
      after keep fuel p r (some q) same big (step, less) h ih =
          let (p', e, (rest, over)) = ih q r same (omega arith) h in
          (p', e, (Balance-trans keep p q p' step rest, over))
