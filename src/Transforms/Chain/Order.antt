-- ===== src/Transforms/Chain/Order.antt =====
-- Which chains are valid.
use shotover_proxy.Prelude.{
  ◌≡◌, refl, ap, sym, ◌∙◌, ◌↔◌, Bool, true, false, List, [], ◌∷◌, ◌++◌, Bytes, map,
}
use shotover_proxy.Transforms.Chain.{
  Builder, not_last, too_early, place_errors, transform_errors, chain_errors, with_heading,
  validate,
}

-- At least one transform; the last one and no other is terminating, and none reports an error.
pub IsChain : List Builder → Type 0
IsChain [] = ⊥
IsChain (t ∷ []) = (t.is_terminating ≡ true) × (t.errors ≡ [])
IsChain (t ∷ u ∷ ts) = (t.is_terminating ≡ false) × (t.errors ≡ []) × IsChain (u ∷ ts)

append-nil_parts : (xs ys : List Bytes) → xs ++ ys ≡ [] → (xs ≡ []) × (ys ≡ [])
append-nil_parts [] ys h = (refl, h)
append-nil_parts (x ∷ xs) ys h = cc

map-nil : (f : Bytes → Bytes) (xs : List Bytes) → map f xs ≡ [] → xs ≡ []
map-nil f [] h = refl
map-nil f (x ∷ xs) h = cc

module _ (debug : Bytes → Bytes) where
  place_errors-nil :
      (is_last : Bool) (t : Builder) (b : Bool)
      → t.is_terminating ≡ b
      → place_errors debug is_last t ≡ []
      → t.is_terminating ≡ is_last
  unfolding place_errors
  place_errors-nil true t true e h = e
  place_errors-nil true t false e h =
      let full : place_errors debug true t ≡ not_last debug t ∷ [] = rw e refl in
      let wrong : not_last debug t ∷ [] ≡ [] = sym full ∙ h in cc
  place_errors-nil false t true e h =
      let full : place_errors debug false t ≡ too_early debug t ∷ [] = rw e refl in
      let wrong : too_early debug t ∷ [] ≡ [] = sym full ∙ h in cc
  place_errors-nil false t false e h = e

  transform_errors-nil :
      (is_last : Bool) (t : Builder)
      → transform_errors debug is_last t ≡ []
      → (t.is_terminating ≡ is_last) × (t.errors ≡ [])
  unfolding transform_errors
  transform_errors-nil is_last t h =
      let (place, own) = append-nil_parts (place_errors debug is_last t) _ h in
      (place_errors-nil is_last t t.is_terminating refl place, map-nil _ t.errors own)

  transform_errors_none :
      (is_last : Bool) (t : Builder)
      → t.is_terminating ≡ is_last
      → t.errors ≡ []
      → transform_errors debug is_last t ≡ []
  unfolding transform_errors place_errors
  transform_errors_none true t e h = rw (e, h) refl
  transform_errors_none false t e h = rw (e, h) refl

  chain_errors-nil :
      (t : Builder) (ts : List Builder) → chain_errors debug (t ∷ ts) ≡ [] → IsChain (t ∷ ts)
  unfolding chain_errors IsChain
  chain_errors-nil t [] h = transform_errors-nil true t h
  chain_errors-nil t (u ∷ ts) h =
      let (here, later) = append-nil_parts (transform_errors debug false t) _ h in
      let (place, own) = transform_errors-nil false t here in
      (place, own, chain_errors-nil u ts later)

  IsChain-chain_errors :
      (t : Builder) (ts : List Builder) → IsChain (t ∷ ts) → chain_errors debug (t ∷ ts) ≡ []
  unfolding chain_errors IsChain
  IsChain-chain_errors t [] (e, h) = transform_errors_none true t e h
  IsChain-chain_errors t (u ∷ ts) (e, h, rest) =
      rw (transform_errors_none false t e h, IsChain-chain_errors u ts rest) refl

  with_heading-nil : (name : Bytes) (es : List Bytes) → with_heading debug name es ≡ [] → es ≡ []
  with_heading-nil name [] h = refl
  with_heading-nil name (e ∷ es) h = cc

  valid-IsChain : (name : Bytes) (ts : List Builder) → validate debug name ts ≡ [] → IsChain ts
  unfolding validate
  valid-IsChain name [] h = cc
  valid-IsChain name (t ∷ ts) h = chain_errors-nil t ts (with_heading-nil name _ h)

  IsChain-valid : (name : Bytes) (ts : List Builder) → IsChain ts → validate debug name ts ≡ []
  unfolding validate IsChain
  IsChain-valid name [] h = absurd h
  IsChain-valid name (t ∷ ts) h = ap (with_heading debug name) (IsChain-chain_errors t ts h)

  -- A chain of any name is accepted without an error exactly when it has a transform, its last
  -- transform and no other is terminating, and no transform reports an error of its own.
  pub validate-IsChain :
      (name : Bytes) (ts : List Builder) → (validate debug name ts ≡ []) ↔ IsChain ts
  validate-IsChain name ts = (valid-IsChain name ts, IsChain-valid name ts)
