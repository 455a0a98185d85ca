-- ===== src/Transforms/Throttling.antt =====
-- shotover/src/transforms/throttling.rs: `RequestThrottling`.
pub mod Limits
mod Tests
use mathlib.Core.Option
use shotover_proxy.Prelude.{
  ℕ, ◌≡◌, refl, Bool, true, false, List, [], ◌∷◌, Bytes, codes, String, Option, none, some, Result,
  ok, err, panic, ◌>>=◌, IdMap, map_insert, ltb, if◌then◌else◌,
}
use shotover_proxy.Message.Frame.{Protocols}
use shotover_proxy.Message.State.{Message, cell_count}
use shotover_proxy.Message.Response.{to_backpressure, replace_with_dummy}
use shotover_proxy.Transforms.Pending.{replace_responses}

-- What `RateLimiter::check_n` says: the cells fit, they do not fit now, or they never can.
pub data Verdict : Type 0 where
  fits not_now never : Verdict

-- The limiter of the governor crate: its states, and what it does with a number of cells.
pub record Limiter : Type 1 where
  pub Quota : Type 0
  pub check_n : Quota → ℕ → Verdict × Quota

abbrev pub throttled : Verdict → Bool
throttled fits = false
throttled not_now = true
throttled never = true

pub validate : ℕ → List String
validate max_requests_per_second =
    if ltb max_requests_per_second 50
    then "RequestThrottling:" ∷ "  max_requests_per_second has a minimum allowed value of 50" ∷ []
    else []

-- `draw` gives the ids of the responses, `next` is `call_next_transform`.
module _ (P : Protocols) (draw : ℕ → ℕ) (limiter : Limiter) where
  pub record RequestThrottling : Type 0 where
    pub quota : limiter.Quota
    pub throttled_requests : IdMap (Message P)

  -- `if throttle { … }`
  pub hold_back : Message P → RequestThrottling → Bool → Result (Message P × RequestThrottling)
  unfolding to_backpressure replace_with_dummy map_insert
  hold_back request s false = ok (request, s)
  hold_back request s true = do
    response ← to_backpressure P (draw request.id) request
    ok (
      replace_with_dummy P request,
      record s { throttled_requests = map_insert request.id response s.throttled_requests },
    )

  -- One request, on its number of cells: without one it is not counted.
  pub throttle : Message P → RequestThrottling → Result ℕ → Result (Message P × RequestThrottling)
  unfolding hold_back
  throttle request s (err e) = ok (request, s)
  throttle request s panic = panic
  throttle request s (ok cells) =
      let (verdict, quota) = limiter.check_n s.quota cells in
      hold_back request (record s { quota = quota }) (throttled verdict)

  pub throttle_requests :
      List (Message P) → RequestThrottling → Result (List (Message P) × RequestThrottling)
  unfolding throttle cell_count
  throttle_requests [] s = ok ([], s)
  throttle_requests (request ∷ requests) s = do
    (sent, s1) ← throttle request s (cell_count P request)
    (rest, s2) ← throttle_requests requests s1
    ok (sent ∷ rest, s2)

  pub transform :
      {W : Type 0}
      → (W → List (Message P) → Result (W × List (Message P)))
      → RequestThrottling
      → W
      → List (Message P)
      → Result (RequestThrottling × W × List (Message P))
  unfolding throttle_requests replace_responses
  transform next s w requests = do
    (sent, s1) ← throttle_requests requests s
    (w', responses) ← next w sent
    let (out, left) = replace_responses P s1.throttled_requests responses
    ok (record s1 { throttled_requests = left }, w', out)
