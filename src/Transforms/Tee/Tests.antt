-- ===== src/Transforms/Tee/Tests.antt =====
-- A tee at small conversations.
use shotover_proxy.Prelude.{
  ℕ, ◌+◌, ◌≡◌, refl, Bool, true, [], ◌∷◌, ◌++◌, codes, Option, none, some, Result, ok, err, length,
  ◌⊎◌, inl, map_get, map_insert, map_remove, ap, sym, ok_injective,
}
use shotover_proxy.Valkey.Frame.{simple_string}
use shotover_proxy.Message.Frame.{valkey_frame}
use shotover_proxy.Message.State.{Message, from_frame_at_instant}
use shotover_proxy.Message.Samples.{only_valkey}
use shotover_proxy.Transforms.Tee.{
  regular_chain, Progress, Matches, join_pair, round_on, one_round, pair_up, pop_requestless,
  pop_both, paired, new_in_order, tee_response, chain_response, take_tee, take_chain, match_tee,
  match_chain, new_out_of_order, in_order,
}
use shotover_proxy.Transforms.Tee.Rounds.{ids, KeepsRequest}
use shotover_proxy.Transforms.Tee.Queues.{run, run-ids, fresh, arrived, arrived_other, Calls}
use shotover_proxy.Transforms.Tee.Matching.{IsDisjoint, new_out_of_order-IsDisjoint}
use shotover_proxy.Transforms.Tee.Lingering.{only_tee, idle_calls, run-lingering}
use shotover_proxy.Transforms.Tee.Behaviour.{Tee, Chain, ignore}

abbrev draw : ℕ → ℕ
draw id = 100

abbrev differs : Message only_valkey → Message only_valkey → Bool
differs a b = true

abbrev log :
    Unit {0} → Message only_valkey → Message only_valkey → Result (Unit {0} × Message only_valkey)
log s kept other = ok (s, kept)

log-KeepsRequest : KeepsRequest only_valkey differs log
log-KeepsRequest s s' kept other r h =
    sym (
      ap (λ (x : Unit {0} × Message only_valkey). x.1.request_id)
        (ok_injective (s, kept) (s', r) h))

abbrev answer : ℕ → Option ℕ → Message only_valkey
answer id request_id =
    record (from_frame_at_instant only_valkey id (valkey_frame (simple_string (codes "OK"))) none) {
      request_id = request_id;
    }

-- The tee answers requests 1 and 2, then the chain answers request 1 behind a push.
abbrev calls : Calls only_valkey differs log
calls =
    (answer 10 (some 1) ∷ answer 11 (some 2) ∷ [], [])
    ∷ ([], answer 20 none ∷ answer 21 (some 1) ∷ [])
    ∷ []

abbrev ended : Progress only_valkey differs log
ended = record {
  captured = tt;
  tee = answer 11 (some 2) ∷ [];
  chain = [];
  result = answer 20 none ∷ answer 21 (some 1) ∷ [];
}

calls-run :
    run only_valkey differs log regular_chain (fresh only_valkey differs log tt) calls ≡ ok ended
unfolding run new_in_order pair_up one_round round_on join_pair paired pop_both pop_requestless
calls-run = refl

run-ids_example :
    (ids ended.result ++ ids ended.chain
      ≡ ids (arrived only_valkey differs log regular_chain calls))
    × (length (ids ended.result) + length (ids ended.tee)
        ≡ length (ids (arrived_other only_valkey differs log regular_chain calls)))
    × ((ended.tee ≡ []) ⊎ (ended.chain ≡ []))
run-ids_example =
    run-ids only_valkey differs log regular_chain tt ended calls log-KeepsRequest calls-run

nothing-IsDisjoint : IsDisjoint only_valkey [] []
unfolding map_get
nothing-IsDisjoint id = inl refl

abbrev matched : Matches only_valkey differs log
matched = record {
  captured = tt;
  waiting_tee = [];
  waiting_chain = (2, answer 22 (some 2)) ∷ [];
  result = answer 21 (some 1) ∷ [];
}

first_is_matched :
    new_out_of_order only_valkey differs log regular_chain tt [] []
      (answer 10 (some 1) ∷ [])
      (answer 22 (some 2) ∷ answer 21 (some 1) ∷ [])
    ≡ ok matched
unfolding new_out_of_order match_tee match_chain take_tee take_chain tee_response chain_response
    join_pair map_get map_remove map_insert
first_is_matched = refl

new_out_of_order-IsDisjoint_example :
    IsDisjoint only_valkey matched.waiting_tee matched.waiting_chain
new_out_of_order-IsDisjoint_example =
    new_out_of_order-IsDisjoint only_valkey differs log regular_chain tt [] []
      (answer 10 (some 1) ∷ []) (answer 22 (some 2) ∷ answer 21 (some 1) ∷ []) matched
      nothing-IsDisjoint first_is_matched

run-lingering_example :
    run only_valkey differs log regular_chain
      (only_tee only_valkey differs log tt
        (answer 10 none ∷ answer 11 none ∷ answer 12 (some 1) ∷ [])
        [])
      (idle_calls only_valkey differs log 2)
    ≡ ok (
        only_tee only_valkey differs log tt
          (answer 12 (some 1) ∷ [])
          (answer 10 none ∷ answer 11 none ∷ []))
run-lingering_example =
    run-lingering only_valkey differs log regular_chain tt [] (answer 10 none ∷ answer 11 none ∷ [])
      (answer 12 (some 1) ∷ []) (refl, (refl, tt))

abbrev idle_tee : Tee only_valkey draw differs
idle_tee = record { behavior = ignore; dropped_messages = 0; incoming_responses = in_order [] [] }

abbrev one_drop : Tee only_valkey draw differs
one_drop = record { behavior = ignore; dropped_messages = 1; incoming_responses = in_order [] [] }

abbrev works : Chain only_valkey draw differs ℕ
works v requests = (v + 1, ok (answer 30 (some 1) ∷ []))

abbrev fails : Chain only_valkey draw differs ℕ
fails v requests = (v, err "no route")
