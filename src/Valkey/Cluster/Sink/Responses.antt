-- ===== src/Valkey/Cluster/Sink/Responses.antt =====
-- `ValkeySinkCluster::transform`: all requests are dispatched, then the responses are awaited in order
-- and redirections followed.
use shotover_proxy.Prelude.{
  ℕ, Bool, true, false, List, [], ◌∷◌, ◌++◌, Bytes, codes, String, Option, none, some, Result, ok,
  err, panic, is_empty,
}
use shotover_proxy.Prelude.Stateful.{◌>>=◌, done, result_of, modify}
use shotover_proxy.Message.Frame.{Protocols, Frame, valkey_frame}
use shotover_proxy.Message.State.{Message, from_frame_at_instant, frame}
use shotover_proxy.Valkey.Frame.{error}
use shotover_proxy.Valkey.Cluster.Slots as Slots
use shotover_proxy.Valkey.Cluster.Redirection.{Redirection, moved, ask, parse}
use shotover_proxy.Valkey.Cluster.Sink.{Response, Nodes, ValkeySinkCluster, Do, choose_and_send}
use shotover_proxy.Valkey.Cluster.Sink.Build.{build_connections}
use shotover_proxy.Valkey.Cluster.Sink.Dispatch.{dispatch_message}

-- `map_err(|e| e.context(…))` on a future.
abbrev pub with_context : {P : Protocols} → String → Response P → Response P
with_context text (ok r) = ok r
with_context text (err e) = err text
with_context text panic = panic

module _ (P : Protocols) (nodes : Nodes P) (fresh : ℕ) (crc16 : Bytes → ℕ) where
  -- The message of an awaited response: a lost channel becomes an error frame, a failed response ends
  -- the call.
  unfoldable pub settle : Response P → Result (Message P)
  unfolding from_frame_at_instant
  settle (ok r) = r
  settle (err e) = ok (
      from_frame_at_instant P fresh
        (valkey_frame (error (codes "ERR Could not route request - " ++ codes e))) none)
  settle panic = panic

  unfoldable pub redirection_of : Option (Frame P) → Option Redirection
  unfolding parse
  redirection_of (some (valkey_frame f)) = parse f
  redirection_of _ = none

  -- `masters.insert(slot, server)`, and the connections are built anew before the next batch.
  abbrev pub note_moved :
      ℕ → Bytes → ValkeySinkCluster P nodes fresh → ValkeySinkCluster P nodes fresh
  note_moved slot server s = record s {
    topology = record s.topology { slots = Slots.moved slot server s.topology.slots };
    rebuild_connections = true;
  }

  -- `match Redirection::parse(frame)`; `rest` is the loop behind it.
  unfoldable pub follow :
      Message P
      → List (Response P)
      → (List (Response P) → Do P nodes fresh (List (Message P)))
      → Message P
      → Option Redirection
      → Do P nodes fresh (List (Message P))
  unfolding choose_and_send Slots.moved
  follow original pending rest response none = do out ← rest pending; done (response ∷ out)
  follow original pending rest response (some (moved slot server)) = do
    noted ← modify (note_moved slot server)
    retried ← choose_and_send P nodes fresh server original
    rest (with_context "Error while retrying MOVE" retried ∷ pending)
  follow original pending rest response (some (ask slot server)) = do
    retried ← choose_and_send P nodes fresh server original
    rest (with_context "Error while retrying ASK" retried ∷ pending)

  -- `while let Some(s) = responses.next().await`. Each round pops a request, and panics without one.
  unfoldable pub await_responses :
      List (Message P) → List (Response P) → Do P nodes fresh (List (Message P))
  unfolding settle frame redirection_of follow
  await_responses requests [] = done []
  await_responses [] (r ∷ rs) = result_of panic
  await_responses (original ∷ requests) (r ∷ rs) = do
    message ← result_of (settle r)
    parsed ← result_of (frame P message)
    follow original rs (await_responses requests) parsed.0 (redirection_of parsed.1)

  -- The error of a request that cannot be dispatched is its response; `e` is shown as its text.
  abbrev pub or_error :
      ValkeySinkCluster P nodes fresh × Result (Response P)
      → ValkeySinkCluster P nodes fresh × Result (Response P)
  or_error (s, ok r) = (s, ok r)
  or_error (s, err e) = (
    s,
    ok (
        ok (
          ok
            (from_frame_at_instant P fresh (valkey_frame (error (codes "ERR " ++ codes e))) none))),
  )
  or_error (s, panic) = (s, panic)

  unfoldable pub dispatch_all : List (Message P) → Do P nodes fresh (List (Response P))
  unfolding dispatch_message
  dispatch_all [] = done []
  dispatch_all (request ∷ requests) = do
    response ← (λ s. or_error (dispatch_message P nodes fresh crc16 request s))
    responses ← dispatch_all requests
    done (response ∷ responses)

  -- An error of `build_connections` is logged.
  abbrev pub logged :
      {A : Type 0}
      → ValkeySinkCluster P nodes fresh × Result A
      → ValkeySinkCluster P nodes fresh × Result (Unit {0})
  logged (s, panic) = (s, panic)
  logged (s, _) = (s, ok tt)

  unfoldable pub build_logged : Do P nodes fresh (Unit {0})
  unfolding build_connections
  build_logged s = logged (build_connections P nodes fresh s.token s)

  abbrev pub when : Bool → Do P nodes fresh (Unit {0}) → Do P nodes fresh (Unit {0})
  when true m s = m s
  when false m s = (s, ok tt)

  -- `if !self.has_run_init { … }`: the first call takes the shared topology, or builds connections if
  -- that has none.
  unfoldable pub initialise : Bool → Do P nodes fresh (Unit {0})
  unfolding build_logged
  initialise true s = (s, ok tt)
  initialise false s =
      (when (is_empty s.shared_topology.channels) build_logged >>= λ b.
      modify (λ t. record t { has_run_init = true }))
        (record s { topology = s.shared_topology })

  unfoldable pub transform : List (Message P) → Do P nodes fresh (List (Message P))
  unfolding initialise build_logged dispatch_all await_responses
  transform requests = do
    first ← (λ s. initialise s.has_run_init s)
    rebuilt ← (λ s. when s.rebuild_connections build_logged s)
    responses ← dispatch_all requests
    await_responses requests responses
