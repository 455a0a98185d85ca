-- ===== src/Valkey/Cluster/Sink/Redirects.antt =====
-- Which calls of the sink return, when nodes redirect requests.
use shotover_proxy.Prelude.{
  ℕ, ◌<◌, ◌≡◌, ◌≢◌, ◌⊎◌, ◌↔◌, inl, inr, refl, ap, sym, ◌∙◌, List, [], ◌∷◌, Bytes, Option, none,
  some, Result, ok, panic, length, arith, All,
}
use shotover_proxy.Prelude.Stateful.{and_then_ok, step_ok, same_value}
use shotover_proxy.Message.Frame.{Protocols, Frame}
use shotover_proxy.Message.State.{Message, frame}
use shotover_proxy.Valkey.Cluster.Redirection.{Redirection, moved, ask}
use shotover_proxy.Valkey.Cluster.Sink.{Response, Nodes, ValkeySinkCluster, Do, choose_and_send}
use shotover_proxy.Valkey.Cluster.Sink.Dispatch.{dispatch_message}
use shotover_proxy.Valkey.Cluster.Sink.Responses.{
  with_context, settle, redirection_of, note_moved, follow, await_responses, dispatch_all,
  transform, or_error, initialise, when, build_logged,
}

module _ (P : Protocols) (nodes : Nodes P) (fresh : ℕ) (crc16 : Bytes → ℕ) where
  abbrev Sink : Type 0
  Sink = ValkeySinkCluster P nodes fresh

  abbrev Loop : Type 0
  Loop = List (Response P) → Do P nodes fresh (List (Message P))

  -- A response with a message that is no redirection.
  abbrev pub Plain : Response P → Type 0
  Plain r =
      (m m' : Message P) × (f : Option (Frame P)) × (settle P nodes fresh crc16 r ≡ ok m)
      × (frame P m ≡ ok (m', f))
      × (redirection_of P nodes fresh crc16 f ≡ none)

  -- What a response that was followed has left to do.
  follow-ok :
      (q : Message P) (pending : List (Response P)) (rest : Loop) (p : Message P)
      (o : Option Redirection) (s s' : Sink) (out : List (Message P))
      → follow P nodes fresh crc16 q pending rest p o s ≡ (s', ok out)
      → ((o ≡ none)
          × (s₁ : Sink) × (out₁ : List (Message P)) × (rest pending s ≡ (s₁, ok out₁))
          × (out ≡ p ∷ out₁))
        ⊎ ((r : Response P) × (s₁ : Sink) × (rest (r ∷ pending) s₁ ≡ (s', ok out)))
  unfolding follow
  follow-ok q pending rest p none s s' out h =
      let (s₁, out₁, h1, k1) = step_ok (rest pending) _ s s' out h in
      inl (refl, s₁, out₁, h1, sym (same_value s₁ s' (p ∷ out₁) out k1))
  follow-ok q pending rest p (some (moved n server)) s s' out h =
      let (s₂, r, h2, k2) =
        step_ok (choose_and_send P nodes fresh server q) _
          (note_moved P nodes fresh crc16 n server s) s' out h in
      inr (with_context "Error while retrying MOVE" r, s₂, k2)
  follow-ok q pending rest p (some (ask n server)) s s' out h =
      let (s₂, r, h2, k2) = step_ok (choose_and_send P nodes fresh server q) _ s s' out h in
      inr (with_context "Error while retrying ASK" r, s₂, k2)

  -- A round of the loop that returns.
  round-ok :
      (q : Message P) (requests : List (Message P)) (r : Response P) (pending : List (Response P))
      (s s' : Sink) (out : List (Message P))
      → await_responses P nodes fresh crc16 (q ∷ requests) (r ∷ pending) s ≡ (s', ok out)
      → (m m' : Message P) × (f : Option (Frame P)) × (settle P nodes fresh crc16 r ≡ ok m)
        × (frame P m ≡ ok (m', f))
        × (follow P nodes fresh crc16 q pending
              (await_responses P nodes fresh crc16 requests)
              m'
              (redirection_of P nodes fresh crc16 f)
              s
            ≡ (s', ok out))
  unfolding await_responses
  round-ok q requests r pending s s' out h =
      let (m, e, k) = and_then_ok s (settle P nodes fresh crc16 r) _ s' out h in
      let ((m', f), e', k') = and_then_ok s (frame P m) _ s' out k in (m, m', f, e, e', k')

  -- More awaited responses than requests, and the loop does not return.
  await-too_many :
      (requests : List (Message P)) (pending : List (Response P)) (s s' : Sink)
      (out : List (Message P))
      → length requests < length pending
      → await_responses P nodes fresh crc16 requests pending s ≢ (s', ok out)
  unfolding await_responses
  await-too_many [] [] s s' out less h = absurd (omega arith)
  await-too_many (q ∷ requests) [] s s' out less h = absurd (omega arith)
  await-too_many [] (r ∷ pending) s s' out less h =
      let bad : panic ≡ ok out = ap (λ (x : Sink × Result (List (Message P))). x.1) h in cc
  await-too_many (q ∷ requests) (r ∷ pending) s s' out less h =
      let (m, m', f, e, e', k) = round-ok q requests r pending s s' out h in
      elim (follow-ok q pending (await_responses P nodes fresh crc16 requests) m'
        (redirection_of P nodes fresh crc16 f) s s' out k) [
          | inl (o, s₁, out₁, k₁, eq) ↦ await-too_many requests pending s s₁ out₁ (omega arith) k₁
          | inr (r', s₁, k₁) ↦ await-too_many requests (r' ∷ pending) s₁ s' out (omega arith) k₁
        ]

  -- The loop, as long as there are as many requests as awaited responses.
  await-Plain :
      (requests : List (Message P)) (pending : List (Response P)) (s s' : Sink)
      (out : List (Message P))
      → length requests ≡ length pending
      → await_responses P nodes fresh crc16 requests pending s ≡ (s', ok out)
      → All Plain pending × (length out ≡ length pending)
  unfolding await_responses
  await-Plain [] [] s s' out same h = (tt, rw (sym (same_value s s' [] out h)))
  await-Plain (q ∷ requests) [] s s' out same h = absurd (omega arith)
  await-Plain [] (r ∷ pending) s s' out same h = absurd (omega arith)
  await-Plain (q ∷ requests) (r ∷ pending) s s' out same h =
      let (m, m', f, e, e', k) = round-ok q requests r pending s s' out h in
      elim (follow-ok q pending (await_responses P nodes fresh crc16 requests) m'
        (redirection_of P nodes fresh crc16 f) s s' out k) [
          | inl (o, s₁, out₁, k₁, eq) ↦
              let (plain, count) = await-Plain requests pending s s₁ out₁ (omega arith) k₁ in
              (((m, m', f, e, e', o), plain), rw (eq, count))
          | inr (r', s₁, k₁) ↦
              absurd (await-too_many requests (r' ∷ pending) s₁ s' out (omega arith) k₁)
        ]

  -- With no redirection and no failed response, the loop returns.
  await-total :
      (requests : List (Message P)) (pending : List (Response P)) (s : Sink)
      → length requests ≡ length pending
      → All Plain pending
      → (out : List (Message P)) × (await_responses P nodes fresh crc16 requests pending s
          ≡ (s, ok out))
  unfolding await_responses follow
  await-total [] [] s same plain = ([], refl)
  await-total (q ∷ requests) [] s same plain = absurd (omega arith)
  await-total [] (r ∷ pending) s same plain = absurd (omega arith)
  await-total (q ∷ requests) (r ∷ pending) s same ((m, m', f, e, e', o), plain) =
      let (out, k) = await-total requests pending s (omega arith) plain in
      (m' ∷ out, rw (e, e', o, k))

  -- An attempt at each request leaves as many responses.
  dispatch_all-length :
      (requests : List (Message P)) (s s' : Sink) (responses : List (Response P))
      → dispatch_all P nodes fresh crc16 requests s ≡ (s', ok responses)
      → length responses ≡ length requests
  unfolding dispatch_all
  dispatch_all-length [] s s' responses h = rw (sym (same_value s s' [] responses h))
  dispatch_all-length (q ∷ requests) s s' responses h =
      let (s₁, r, h1, k1) =
        step_ok (λ t. or_error P nodes fresh crc16 (dispatch_message P nodes fresh crc16 q t)) _ s
          s' responses h in
      let (s₂, rs, h2, k2) =
        step_ok (dispatch_all P nodes fresh crc16 requests) _ s₁ s' responses k1 in
      rw (sym (same_value s₂ s' (r ∷ rs) responses k2), dispatch_all-length requests s₁ s₂ rs h2)

  -- A call of the sink that returns gives as many responses as it was given requests, for every state
  -- of the sink and behaviour of the nodes.
  pub transform-answers :
      (requests : List (Message P)) (s s' : Sink) (out : List (Message P))
      → transform P nodes fresh crc16 requests s ≡ (s', ok out)
      → length out ≡ length requests
  unfolding transform
  transform-answers requests s s' out h =
      let (s₁, u, h1, k1) =
        step_ok (λ t. initialise P nodes fresh crc16 t.has_run_init t) _ s s' out h in
      let (s₂, v, h2, k2) =
        step_ok
          (λ t. when P nodes fresh crc16 t.rebuild_connections (build_logged P nodes fresh crc16) t)
          _ s₁ s' out k1 in
      let (s₃, responses, h3, k3) =
        step_ok (dispatch_all P nodes fresh crc16 requests) _ s₂ s' out k2 in
      let count = dispatch_all-length requests s₂ s₃ responses h3 in
      (await-Plain requests responses s₃ s' out (sym count) k3).1 ∙ count

  -- For as many requests as awaited responses, the loop over the responses returns exactly if each of
  -- them has a message whose frame can be read and is no MOVED or ASK redirection: when a node
  -- redirects a request, the call gives no responses, whatever the retry is answered.
  pub await-exactly_Plain :
      (requests : List (Message P)) (pending : List (Response P)) (s : Sink)
      → length requests ≡ length pending
      → ((s' : Sink) × (out : List (Message P)) × (await_responses P nodes fresh crc16 requests
              pending s
            ≡ (s', ok out)))
        ↔ All Plain pending
  await-exactly_Plain requests pending s same = (
    (λ (s', out, h). (await-Plain requests pending s s' out same h).0),
    (λ plain. let (out, k) = await-total requests pending s same plain in (s, out, k)),
  )
