-- ===== src/Transforms/Throttling/Tests.antt =====
-- A limiter with a budget of cells.
use shotover_proxy.Prelude.{
  ℕ, ◌-◌, ◌≡◌, refl, true, [], ◌∷◌, none, ok, map_insert, map_remove, leb, if◌then◌else◌,
}
use shotover_proxy.Message.Frame.{cassandra_frame}
use shotover_proxy.Message.State.{Message, from_frame_at_instant, cell_count}
use shotover_proxy.Message.Response.{to_backpressure, metadata, replace_with_dummy}
use shotover_proxy.Message.Samples.{only_valkey}
use shotover_proxy.Transforms.Throttling.{
  Limiter, fits, not_now, RequestThrottling, throttle, throttle_requests, hold_back,
}
use shotover_proxy.Transforms.Throttling.Limits.{admitted, left_over, throttle_requests-admitted}

abbrev draw : ℕ → ℕ
draw id = 100

abbrev budget : Limiter
budget = record {
  Quota = ℕ;
  check_n = λ quota n. if leb n quota then (fits, quota - n) else (not_now, quota);
}

-- The frame of Cassandra is a number here.
abbrev query : ℕ → Message only_valkey
query id = from_frame_at_instant only_valkey id (cassandra_frame 0) none

abbrev one_cell : RequestThrottling only_valkey draw budget
one_cell = record { quota = 1; throttled_requests = [] }

abbrev overloaded : Message only_valkey
overloaded = from_frame_at_instant only_valkey 100 (cassandra_frame 0) none

abbrev spent : RequestThrottling only_valkey draw budget
spent = record { quota = 0; throttled_requests = (2, overloaded) ∷ [] }

second_is_held :
    throttle_requests only_valkey draw budget (query 1 ∷ query 2 ∷ []) one_cell
    ≡ ok (query 1 ∷ replace_with_dummy only_valkey (query 2) ∷ [], spent)
unfolding throttle_requests throttle hold_back cell_count to_backpressure metadata
    from_frame_at_instant replace_with_dummy map_insert map_remove
second_is_held = refl

throttle_requests-admitted_example :
    (query 1 ∷ replace_with_dummy only_valkey (query 2) ∷ []
      ≡ admitted only_valkey draw budget one_cell.quota (query 1 ∷ query 2 ∷ []))
    × (spent.quota ≡ left_over only_valkey draw budget one_cell.quota (query 1 ∷ query 2 ∷ []))
throttle_requests-admitted_example =
    throttle_requests-admitted only_valkey draw budget (query 1 ∷ query 2 ∷ [])
      (query 1 ∷ replace_with_dummy only_valkey (query 2) ∷ []) one_cell spent second_is_held

abbrev none_left : RequestThrottling only_valkey draw budget
none_left = record { quota = 0; throttled_requests = [] }

query_is_held :
    hold_back only_valkey draw budget (query 2) none_left true
    ≡ ok (replace_with_dummy only_valkey (query 2), spent)
unfolding hold_back to_backpressure metadata from_frame_at_instant replace_with_dummy map_insert
    map_remove
query_is_held = refl
