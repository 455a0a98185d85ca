-- ===== src/Transforms/Chain.antt =====
-- `TransformChainBuilder::validate` of shotover/src/transforms/chain.rs.
pub mod Order
mod Tests
use shotover_proxy.Prelude.{
  Bool, true, false, ◌&&◌, not, List, [], ◌∷◌, ◌++◌, Bytes, codes, map, if◌then◌else◌,
}

-- A transform's builder: its names, and what its methods return.
pub record Builder : Type 0 where
  pub type_name : Bytes
  pub name : Bytes
  pub is_terminating : Bool
  pub errors : List Bytes

-- `debug` is the text that `{:?}` gives a string.
module _ (debug : Bytes → Bytes) where
  abbrev pub not_last : Builder → Bytes
  not_last t =
      codes "  Non-terminating Transform "
      ++ (t.type_name
          ++ (codes " named "
              ++ (debug t.name ++ codes " is last in chain. Last Transform must be terminating.")))

  abbrev pub too_early : Builder → Bytes
  too_early t =
      codes "  Terminating Transform "
      ++ (t.type_name
          ++ (codes " named "
              ++ (debug t.name
                  ++ codes " is not last in chain. Terminating Transform must be last in chain.")))

  pub place_errors : Bool → Builder → List Bytes
  place_errors is_last t =
      if is_last && not t.is_terminating
      then not_last t ∷ []
      else if not is_last && t.is_terminating
      then too_early t ∷ []
      else []

  pub transform_errors : Bool → Builder → List Bytes
  unfolding place_errors
  transform_errors is_last t = place_errors is_last t ++ map (λ x. codes "  " ++ x) t.errors

  -- `flat_map` over the chain; `i == last_index` holds at the last builder.
  pub chain_errors : List Builder → List Bytes
  unfolding transform_errors
  chain_errors [] = []
  chain_errors (t ∷ []) = transform_errors true t
  chain_errors (t ∷ u ∷ ts) = transform_errors false t ++ chain_errors (u ∷ ts)

  abbrev pub with_heading : Bytes → List Bytes → List Bytes
  with_heading name [] = []
  with_heading name (e ∷ es) = (name ++ codes " chain:") ∷ e ∷ es

  pub validate : Bytes → List Builder → List Bytes
  unfolding chain_errors
  validate name [] = (name ++ codes " chain:") ∷ codes "  Chain cannot be empty" ∷ []
  validate name (t ∷ ts) = with_heading name (chain_errors (t ∷ ts))
