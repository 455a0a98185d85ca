-- ===== src/Transforms/Coalesce.antt =====
-- shotover/src/transforms/coalesce.rs: `Coalesce`. The task that wakes the source when the interval
-- is over is not modelled, only the notifications that it gets; an instant is a number of
-- milliseconds.
pub mod Order
pub mod Limits
mod Tests
use mathlib.Core.Option
use shotover_proxy.Prelude.{
  ℕ, ◌+◌, ◌-◌, Bool, true, false, ◌&&◌, ◌||◌, not, List, [], ◌∷◌, ◌++◌, String, Option, none, some,
  Result, ok, ◌>>=◌, leb, ltb, ◌==◌, if◌then◌else◌, is_empty, length,
}

pub record CoalesceBuilder : Type 0 where
  pub flush_when_buffered_message_count : Option ℕ
  pub flush_when_millis_since_last_flush : Option ℕ

abbrev pub is_some_zero : Option ℕ → Bool
is_some_zero none = false
is_some_zero (some m) = m == 0

abbrev pub is_some_positive : Option ℕ → Bool
is_some_positive none = false
is_some_positive (some m) = ltb 0 m

abbrev pub is_some : Option ℕ → Bool
is_some none = false
is_some (some n) = true

pub validate : CoalesceBuilder → List String
validate b =
    if is_some_zero b.flush_when_millis_since_last_flush
    then "Coalesce:" ∷ "  flush_when_millis_since_last_flush must be greater than 0 when set."
      ∷ "  Check https://shotover.io/docs/latest/transforms.html#coalesce for more information."
      ∷ []
    else if not (is_some b.flush_when_buffered_message_count)
        && not (is_some_positive b.flush_when_millis_since_last_flush)
    then "Coalesce:" ∷ "  Provide at least one of:" ∷ "  * flush_when_buffered_message_count"
      ∷ "  * flush_when_millis_since_last_flush (must be greater than 0)" ∷ ""
      ∷ "  But none of them were provided."
      ∷ "  Check https://shotover.io/docs/latest/transforms.html#coalesce for more information."
      ∷ []
    else []

-- `last_flush` and `restart_sleep_after_flush` are set together with the interval; `notified` counts
-- the calls of `notify_one`.
pub record Timer : Type 0 where
  pub interval : ℕ
  pub last_flush : ℕ
  pub notified : ℕ

module _ (M : Type 0) where
  pub record Coalesce : Type 0 where
    pub flush_when_buffered_message_count : Option ℕ
    pub buffer : List M
    pub timer : Option Timer

  abbrev pub start_timer : ℕ → Option ℕ → Option Timer
  start_timer now none = none
  start_timer now (some ms) =
      if ltb 0 ms then some (record { interval = ms; last_flush = now; notified = 1 }) else none

  pub build : CoalesceBuilder → ℕ → Coalesce
  build b now = record {
    flush_when_buffered_message_count = b.flush_when_buffered_message_count;
    buffer = [];
    timer = start_timer now b.flush_when_millis_since_last_flush;
  }

  -- `last.elapsed() >= interval`
  abbrev pub millis_due : ℕ → Option Timer → Bool
  millis_due now none = false
  millis_due now (some t) = leb t.interval (now - t.last_flush)

  -- The clock begins again, and the task is told.
  abbrev pub restart : ℕ → Option Timer → Option Timer
  restart now none = none
  restart now (some t) = some (record t { last_flush = now; notified = t.notified + 1 })

  abbrev pub count_reached : Option ℕ → List M → Bool
  count_reached none buffer = false
  count_reached (some n) buffer = leb n (length buffer)

  pub flush_buffer : Bool → ℕ → Coalesce → Bool
  flush_buffer flush now s =
      flush
      || (count_reached s.flush_when_buffered_message_count s.buffer
          || (millis_due now s.timer && not (is_empty s.buffer)))

  -- `if flush_buffer { … }`, with the requests in the buffer.
  pub pass_on :
      {W : Type 0}
      → (W → List M → Result (W × List M))
      → Coalesce
      → W
      → ℕ
      → Bool
      → Result (Coalesce × W × List M)
  pass_on next s w now true = do
    (w', out) ← next w s.buffer
    ok (record s { buffer = []; timer = restart now s.timer }, w', out)
  pass_on next s w now false = ok (s, w, [])

  pub transform :
      {W : Type 0}
      → (W → List M → Result (W × List M))
      → Coalesce
      → W
      → ℕ
      → Bool
      → List M
      → Result (Coalesce × W × List M)
  unfolding pass_on flush_buffer
  transform next s w now flush requests =
      let s' = record s { buffer = s.buffer ++ requests } in
      if is_empty s'.buffer && not flush
      then ok (record s' { timer = restart now s.timer }, w, [])
      else pass_on next s' w now (flush_buffer flush now s')
