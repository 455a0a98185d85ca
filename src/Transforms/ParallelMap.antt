-- ===== src/Transforms/ParallelMap.antt =====
-- shotover/src/transforms/parallel_map.rs: `ParallelMap`.
pub mod Rounds
mod Tests
use mathlib.Core.Option
use shotover_proxy.Prelude.{
  ℕ, zero, suc, List, [], ◌∷◌, ◌++◌, Option, none, some, Result, ok, err, panic, ◌>>=◌, map_results,
  length,
}

-- `V` is the state of a chain, `M` the type of messages. `process_request` runs a chain on a batch, and
-- `arrive` is the order in which the results of a round are collected: the same for ordered results.
module _ {V : Type 0} {M : Type 0} (process_request : V → List M → V × Result (List M))
    (arrive : List (Result (List M)) → List (Result (List M))) where
  -- One message for each chain, as long as there are messages: the chains, their results, and the
  -- messages that are left.
  unfoldable pub start_round : List V → List M → List V × List (Result (List M)) × List M
  start_round [] ms = ([], [], ms)
  start_round (v ∷ vs) [] = (v ∷ vs, [], [])
  start_round (v ∷ vs) (m ∷ ms) =
      let (v', r) = process_request v (m ∷ []) in
      let (vs', rs, left) = start_round vs ms in (v' ∷ vs', r ∷ rs, left)

  unfoldable pub flatten : List (List M) → List M
  flatten [] = []
  flatten (ms ∷ mss) = ms ++ flatten mss

  -- `into_iter()` of a result: the value of an `Ok`, and nothing of an `Err`.
  abbrev pub flattened : Result (List (List M)) → Result (List M)
  flattened (ok mss) = ok (flatten mss)
  flattened (err e) = ok []
  flattened panic = panic

  abbrev pub same : Result (List M) → Result (List M)
  same r = r

  unfoldable pub collect_round : List (Result (List M)) → Result (List M)
  unfolding map_results flatten
  collect_round rs = flattened (map_results same (arrive rs))

  -- `while message_iter.len() != 0`. Without fuel it gives `none`.
  unfoldable pub rounds : ℕ → List V → List M → List M → Result (Option (List V × List M))
  unfolding start_round collect_round
  rounds fuel vs [] results = ok (some (vs, results))
  rounds zero vs (m ∷ ms) results = ok none
  rounds (suc fuel) vs (m ∷ ms) results = do
    let (vs', rs, left) = start_round vs (m ∷ ms)
    more ← collect_round rs
    rounds fuel vs' left (results ++ more)

  unfoldable pub transform : List V → List M → Result (Option (List V × List M))
  unfolding rounds
  transform chains requests = rounds (length requests) chains requests []
