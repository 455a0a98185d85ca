-- ===== src/Transforms/Tee/Behaviour.antt =====
-- `Tee::transform`: what is done with the responses of both chains, and with mismatches.
use shotover_proxy.Prelude.{
  ℕ, ◌+◌, Bool, List, [], ◌∷◌, ◌++◌, Bytes, codes, bytes_eq, Option, none, some, Result, ok, err,
  panic, ◌>>=◌, IdMap, map_get, map_remove, map_insert, if◌then◌else◌,
}
use shotover_proxy.Message.Frame.{Protocols, internal}
use shotover_proxy.Message.State.{Message, frame}
use shotover_proxy.Message.Response.{from_response_to_error_response}
use shotover_proxy.Transforms.Tee.{
  ResultSource, regular_chain, tee_chain, IncomingResponses, in_order, out_of_order, new_responses,
}

-- `put_result_source`
unfoldable pub put_result_source : Bytes → Result ResultSource
unfolding bytes_eq
put_result_source new_result_source =
    if bytes_eq new_result_source (codes "tee-chain")
    then ok tee_chain
    else if bytes_eq new_result_source (codes "regular-chain")
    then ok regular_chain
    else err "Invalid value for result source, should be 'tee-chain' or 'regular-chain'"

-- `Display` of a result source, which `get_result_source` answers.
abbrev pub show_result_source : ResultSource → Bytes
show_result_source regular_chain = codes "regular-chain"
show_result_source tee_chain = codes "tee-chain"

pub data ConsistencyBehavior (P : Protocols) : Type 0 where
  ignore log_warning_on_mismatch fail_on_mismatch : ConsistencyBehavior P
  subchain_on_mismatch : IdMap (Message P) → ConsistencyBehavior P

-- `draw` gives the ids of error responses, `differs` is `!=` of messages.
module _ (P : Protocols) (draw : ℕ → ℕ) (differs : Message P → Message P → Bool) where
  pub record Tee : Type 0 where
    pub behavior : ConsistencyBehavior P
    pub dropped_messages : ℕ
    pub incoming_responses : IncomingResponses P

  -- `protocol_is_inorder` decides how responses are paired.
  pub build : ConsistencyBehavior P → Bool → Tee
  build behavior protocol_is_inorder = record {
    behavior = behavior;
    dropped_messages = 0;
    incoming_responses = if protocol_is_inorder then in_order [] [] else out_of_order [] [];
  }

  -- The three closures. That of `log_warning_on_mismatch` logs: `to_high_level_string` parses both.
  abbrev pub log_mismatch : Unit {0} → Message P → Message P → Result (Unit {0} × Message P)
  log_mismatch s kept other = do
    (shown, f) ← frame P kept
    (other_shown, g) ← frame P other
    ok (s, shown)

  -- `unwrap`
  abbrev pub unwrap_response : Result (Message P) → Result (Unit {0} × Message P)
  unwrap_response (ok r) = ok (tt, r)
  unwrap_response _ = panic

  unfoldable pub fail_mismatch : Unit {0} → Message P → Message P → Result (Unit {0} × Message P)
  unfolding from_response_to_error_response
  fail_mismatch s kept other = unwrap_response (
      from_response_to_error_response P (draw kept.id) kept
        (codes
          "The responses from the Tee subchain and down-chain did not match and behavior is set to fail on mismatch")
        internal)

  -- The requests that mismatched, and the requests that are kept for that.
  abbrev pub Captured : Type 0
  Captured = List (Message P) × IdMap (Message P)

  abbrev pub move_request :
      Captured → ℕ → Option (Message P) → Message P → Result (Captured × Message P)
  move_request s id none kept = panic
  move_request (mismatched, requests) id (some request) kept =
      ok ((mismatched ++ request ∷ [], map_remove id requests), kept)

  abbrev pub collect_for : Captured → Option ℕ → Message P → Result (Captured × Message P)
  collect_for s none kept = ok (s, kept)
  collect_for s (some id) kept = move_request s id (map_get id s.1) kept

  unfoldable pub collect_mismatch : Captured → Message P → Message P → Result (Captured × Message P)
  unfolding map_get map_remove
  collect_mismatch s kept other = collect_for s kept.request_id kept

  unfoldable pub remember : List (Message P) → IdMap (Message P) → IdMap (Message P)
  unfolding map_insert
  remember [] requests = requests
  remember (r ∷ rs) requests = remember rs (map_insert r.id r requests)

  -- A chain that is run to its end on its own: its state afterwards, and what it returned.
  abbrev pub Chain : Type 0 → Type 0
  Chain V = V → List (Message P) → V × Result (List (Message P))

  -- An error is dropped and counted; a panic is not caught.
  abbrev pub dropped : Tee → Result (List (Message P)) → Result Tee
  dropped s (ok responses) = ok s
  dropped s (err e) = ok (record s { dropped_messages = s.dropped_messages + 1 })
  dropped s panic = panic

  module _ {V : Type 0} {W : Type 0} where
    -- `ignore_behaviour`; `sub_silent` is `process_request_no_return`.
    unfoldable pub ignore_behaviour :
        Chain V
        → Chain V
        → Chain W
        → ResultSource
        → Tee
        → V
        → W
        → List (Message P)
        → Result (Tee × V × W × List (Message P))
    ignore_behaviour sub_silent sub next regular_chain s v w requests = do
      let (v', tee_result) = sub_silent v requests
      let (w', chain_result) = next w requests
      s' ← dropped s tee_result
      responses ← chain_result
      ok (s', v', w', responses)
    ignore_behaviour sub_silent sub next tee_chain s v w requests = do
      let (v', tee_result) = sub v requests
      let (w', chain_result) = next w requests
      s' ← dropped s chain_result
      responses ← tee_result
      ok (s', v', w', responses)

    -- Both chains are run, and their responses are paired under a closure.
    unfoldable pub pair_behaviour :
        {S : Type 0}
        → (S → Message P → Message P → Result (S × Message P))
        → Chain V
        → Chain W
        → ResultSource
        → S
        → Tee
        → V
        → W
        → List (Message P)
        → Result (S × Tee × V × W × List (Message P))
    unfolding new_responses
    pair_behaviour on_mismatch sub next keep c s v w requests = do
      let (v', tee_result) = sub v requests
      let (w', chain_result) = next w requests
      tee_responses ← tee_result
      chain_responses ← chain_result
      (c', incoming, responses) ←
          new_responses P differs on_mismatch keep c s.incoming_responses tee_responses
            chain_responses
      ok (c', record s { incoming_responses = incoming }, v', w', responses)

    -- `transform`; `mismatch_chain` is the chain of `subchain_on_mismatch`, with a state of its own.
    unfoldable pub transform_on :
        {U : Type 0}
        → Chain V
        → Chain V
        → Chain W
        → Chain U
        → ResultSource
        → ConsistencyBehavior P
        → Tee
        → V
        → W
        → U
        → List (Message P)
        → Result (U × Tee × V × W × List (Message P))
    unfolding ignore_behaviour pair_behaviour remember fail_mismatch collect_mismatch
    transform_on sub_silent sub next mismatch_chain keep ignore s v w u requests = do
      (s', v', w', responses) ← ignore_behaviour sub_silent sub next keep s v w requests
      ok (u, s', v', w', responses)
    transform_on sub_silent sub next mismatch_chain keep log_warning_on_mismatch s v w u requests =
        do
          (c, s', v', w', responses) ← pair_behaviour log_mismatch sub next keep tt s v w requests
          ok (u, s', v', w', responses)
    transform_on sub_silent sub next mismatch_chain keep fail_on_mismatch s v w u requests = do
      (c, s', v', w', responses) ← pair_behaviour fail_mismatch sub next keep tt s v w requests
      ok (u, s', v', w', responses)
    transform_on sub_silent sub next mismatch_chain keep (subchain_on_mismatch kept) s v w u
          requests =
        do
          ((mismatched, left), s', v', w', responses) ←
              pair_behaviour collect_mismatch sub next keep ([], remember requests kept) s v w
                requests
          let (u', outcome) = mismatch_chain u mismatched
          ignored ← outcome
          ok (u', record s' { behavior = subchain_on_mismatch left }, v', w', responses)
