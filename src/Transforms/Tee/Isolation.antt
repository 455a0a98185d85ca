-- ===== src/Transforms/Tee/Isolation.antt =====
-- A tee that ignores the chain whose responses it does not return.
use shotover_proxy.Prelude.{ℕ, ◌+◌, ◌≡◌, Bool, List, Result, err}
use shotover_proxy.Message.Frame.{Protocols}
use shotover_proxy.Message.State.{Message}
use shotover_proxy.Transforms.Tee.{ResultSource, regular_chain, tee_chain}
use shotover_proxy.Transforms.Tee.Behaviour.{Tee, Chain}

module _ (P : Protocols) (draw : ℕ → ℕ) (differs : Message P → Message P → Bool) where
  abbrev pub failures : Result (List (Message P)) → ℕ
  failures (err e) = 1
  failures _ = 0

  -- Of two states of a tee: the second has counted so many more messages that were dropped, and is
  -- otherwise the first.
  abbrev pub Counted : Tee P draw differs → ℕ → Tee P draw differs → Type 0
  Counted s n s' =
      (s'.dropped_messages ≡ s.dropped_messages + n)
      × (s'.behavior ≡ s.behavior)
      × (s'.incoming_responses ≡ s.incoming_responses)

  -- The subchain as it is run: without its responses if they are not returned.
  abbrev pub subchain :
      {V : Type 0}
      → ResultSource
      → Chain P draw differs V
      → Chain P draw differs V
      → Chain P draw differs V
  subchain regular_chain sub_silent sub = sub_silent
  subchain tee_chain sub_silent sub = sub

  -- What the chain gave whose responses are returned, and what the other gave.
  abbrev pub returned :
      ResultSource
      → Result (List (Message P))
      → Result (List (Message P))
      → Result (List (Message P))
  returned regular_chain tee chain = chain
  returned tee_chain tee chain = tee

  abbrev pub ignored :
      ResultSource
      → Result (List (Message P))
      → Result (List (Message P))
      → Result (List (Message P))
  ignored regular_chain tee chain = tee
  ignored tee_chain tee chain = chain
