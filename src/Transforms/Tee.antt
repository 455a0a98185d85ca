-- ===== src/Transforms/Tee.antt =====
-- `IncomingResponses` of shotover/src/transforms/tee.rs: the responses of a subchain and of the chain
-- itself are paired, and one of each pair is returned.
pub mod Behaviour
pub mod Rounds
pub mod Queues
pub mod Total
pub mod Matching
pub mod Lingering
pub mod Isolation
mod Tests
use mathlib.Core.Option
use shotover_proxy.Prelude.{
  ℕ, zero, suc, ◌+◌, Bool, true, false, List, [], ◌∷◌, ◌++◌, Option, none, some, Result, ok, err,
  panic, ◌>>=◌, IdMap, map_get, map_remove, map_insert, if◌then◌else◌, length,
}
use shotover_proxy.Message.Frame.{Protocols}
use shotover_proxy.Message.State.{Message}

-- Whose responses the client gets.
pub data ResultSource : Type 0 where
  regular_chain tee_chain : ResultSource

pub data IncomingResponses (P : Protocols) : Type 0 where
  in_order : List (Message P) → List (Message P) → IncomingResponses P
  out_of_order : IdMap (Message P) → IdMap (Message P) → IncomingResponses P

abbrev pub is_some_id : Option ℕ → Bool
is_some_id none = false
is_some_id (some id) = true

-- `differs` is the derived `!=` of messages, which leaves out the ids, and `on_mismatch` is the
-- closure: what it does to the response that is kept, with the state that it captures.
module _ (P : Protocols) (differs : Message P → Message P → Bool) {S : Type 0}
    (on_mismatch : S → Message P → Message P → Result (S × Message P)) where
  abbrev pub requested : Message P → Bool
  requested m = is_some_id m.request_id

  -- `if … != … { on_mismatch(…) }`, with the answer to the test.
  abbrev pub mismatched : S → Message P → Message P → Bool → Result (S × Message P)
  mismatched s kept other false = ok (s, kept)
  mismatched s kept other true = on_mismatch s kept other

  -- `match keep { … }`: the response that is returned of a pair.
  unfoldable pub join_pair : ResultSource → S → Message P → Message P → Result (S × Message P)
  join_pair regular_chain s tee chain = mismatched s chain tee (differs tee chain)
  join_pair tee_chain s tee chain = mismatched s tee chain (differs tee chain)

  -- What `new_responses` has at a time: the captured state, the queues and the result so far.
  pub record Progress : Type 0 where
    pub captured : S
    pub tee : List (Message P)
    pub chain : List (Message P)
    pub result : List (Message P)

  -- One round of the loop on queues that are not empty: the fronts, whether they answer requests,
  -- and the rests.
  unfoldable pub round_on :
      ResultSource
      → Progress
      → Bool
      → Bool
      → Message P
      → List (Message P)
      → Message P
      → List (Message P)
      → Result Progress
  unfolding join_pair
  round_on keep p false _ t ts c cs = ok (record p { tee = ts; result = p.result ++ t ∷ [] })
  round_on keep p true false t ts c cs = ok (record p { chain = cs; result = p.result ++ c ∷ [] })
  round_on keep p true true t ts c cs = do
    (s, kept) ← join_pair keep p.captured t c
    ok (record { captured = s; tee = ts; chain = cs; result = p.result ++ kept ∷ [] })

  -- `while !tee.is_empty() && !chain.is_empty()`, as a step on the two queues: `none` ends the loop.
  unfoldable pub one_round :
      ResultSource → Progress → List (Message P) → List (Message P) → Result (Option Progress)
  unfolding round_on
  one_round keep p (t ∷ ts) (c ∷ cs) = do
    p' ← round_on keep p (requested t) (requested c) t ts c cs
    ok (some p')
  one_round keep p _ _ = ok none

  -- The loop. Without fuel it gives `none`.
  unfoldable pub pair_up : ResultSource → ℕ → Progress → Result (Option Progress)
  unfolding one_round
  pair_up keep zero p = ok none
  pair_up keep (suc fuel) p = one_round keep p p.tee p.chain >>= λ next. elim next [
    | none ↦ ok (some p)
    | some p' ↦ pair_up keep fuel p'
  ]

  -- `pop_front_if(|x| x.request_id().is_none())`: what is popped, and the queue.
  unfoldable pub pop_requestless : List (Message P) → List (Message P) × List (Message P)
  pop_requestless [] = ([], [])
  pop_requestless (m ∷ ms) = if requested m then ([], m ∷ ms) else (m ∷ [], ms)

  unfoldable pub pop_both : Progress → Progress
  unfolding pop_requestless
  pop_both p =
      let (first, tee) = pop_requestless p.tee in
      let (second, chain) = pop_requestless p.chain in
      record p { tee = tee; chain = chain; result = p.result ++ (first ++ second) }

  unfoldable pub paired : Option Progress → Result Progress
  unfolding pop_both
  paired none = panic
  paired (some p) = ok (pop_both p)

  -- `IncomingResponses::InOrder`, with fuel for a round for each queued response and the last test.
  unfoldable pub new_in_order :
      ResultSource
      → S
      → List (Message P)
      → List (Message P)
      → List (Message P)
      → List (Message P)
      → Result Progress
  unfolding pair_up paired
  new_in_order keep s tee chain tee_responses chain_responses = do
    r ←
        pair_up keep (suc (length (tee ++ tee_responses) + length (chain ++ chain_responses)))
          (record {
            captured = s;
            tee = tee ++ tee_responses;
            chain = chain ++ chain_responses;
            result = [];
          })
    paired r

  -- What `new_responses` has at a time for a protocol that does not keep the order.
  pub record Matches : Type 0 where
    pub captured : S
    pub waiting_tee : IdMap (Message P)
    pub waiting_chain : IdMap (Message P)
    pub result : List (Message P)

  abbrev pub unrequested : Bool → Matches → Message P → Matches
  unrequested false m response = m
  unrequested true m response = record m { result = m.result ++ response ∷ [] }

  abbrev pub from_tee : ResultSource → Bool
  from_tee tee_chain = true
  from_tee regular_chain = false

  abbrev pub from_chain : ResultSource → Bool
  from_chain regular_chain = true
  from_chain tee_chain = false

  -- A response of the tee for a request, on what the chain has waiting for it.
  unfoldable pub tee_response :
      ResultSource → Matches → Message P → ℕ → Option (Message P) → Result Matches
  unfolding join_pair map_remove map_insert
  tee_response keep m tee id none = ok (record m { waiting_tee = map_insert id tee m.waiting_tee })
  tee_response keep m tee id (some chain) = do
    (s, kept) ← join_pair keep m.captured tee chain
    ok (record m {
      captured = s;
      waiting_chain = map_remove id m.waiting_chain;
      result = m.result ++ kept ∷ [];
    })

  unfoldable pub chain_response :
      ResultSource → Matches → Message P → ℕ → Option (Message P) → Result Matches
  unfolding join_pair map_remove map_insert
  chain_response keep m chain id none =
      ok (record m { waiting_chain = map_insert id chain m.waiting_chain })
  chain_response keep m chain id (some tee) = do
    (s, kept) ← join_pair keep m.captured tee chain
    ok (record m {
      captured = s;
      waiting_tee = map_remove id m.waiting_tee;
      result = m.result ++ kept ∷ [];
    })

  -- `if let Some(request_id) = …`
  unfoldable pub take_tee : ResultSource → Matches → Message P → Option ℕ → Result Matches
  unfolding tee_response map_get
  take_tee keep m response none = ok (unrequested (from_tee keep) m response)
  take_tee keep m response (some id) = tee_response keep m response id (map_get id m.waiting_chain)

  unfoldable pub take_chain : ResultSource → Matches → Message P → Option ℕ → Result Matches
  unfolding chain_response map_get
  take_chain keep m response none = ok (unrequested (from_chain keep) m response)
  take_chain keep m response (some id) =
      chain_response keep m response id (map_get id m.waiting_tee)

  unfoldable pub match_tee : ResultSource → List (Message P) → Matches → Result Matches
  unfolding take_tee
  match_tee keep [] m = ok m
  match_tee keep (r ∷ rs) m = do m' ← take_tee keep m r r.request_id; match_tee keep rs m'

  unfoldable pub match_chain : ResultSource → List (Message P) → Matches → Result Matches
  unfolding take_chain
  match_chain keep [] m = ok m
  match_chain keep (r ∷ rs) m = do m' ← take_chain keep m r r.request_id; match_chain keep rs m'

  -- `IncomingResponses::OutOfOrder`
  unfoldable pub new_out_of_order :
      ResultSource
      → S
      → IdMap (Message P)
      → IdMap (Message P)
      → List (Message P)
      → List (Message P)
      → Result Matches
  unfolding match_tee match_chain
  new_out_of_order keep s tee chain tee_responses chain_responses = do
    m ←
        match_tee keep tee_responses
          (record { captured = s; waiting_tee = tee; waiting_chain = chain; result = [] })
    match_chain keep chain_responses m

  abbrev pub in_order_result : Progress → S × IncomingResponses P × List (Message P)
  in_order_result p = (p.captured, in_order p.tee p.chain, p.result)

  abbrev pub out_of_order_result : Matches → S × IncomingResponses P × List (Message P)
  out_of_order_result m = (m.captured, out_of_order m.waiting_tee m.waiting_chain, m.result)

  unfoldable pub new_responses :
      ResultSource
      → S
      → IncomingResponses P
      → List (Message P)
      → List (Message P)
      → Result (S × IncomingResponses P × List (Message P))
  unfolding new_in_order new_out_of_order
  new_responses keep s (in_order tee chain) tee_responses chain_responses = do
    p ← new_in_order keep s tee chain tee_responses chain_responses
    ok (in_order_result p)
  new_responses keep s (out_of_order tee chain) tee_responses chain_responses = do
    m ← new_out_of_order keep s tee chain tee_responses chain_responses
    ok (out_of_order_result m)
