-- ===== src/Valkey/Cluster/Sink/Sharing.antt =====
-- A whole call of the sink, and the topology that connections share.
use shotover_proxy.Prelude.{
  ℕ, ◌≡◌, ◌≢◌, refl, ◌∙◌, Bool, true, false, List, [], ◌∷◌, Bytes, Option, none, some, Result, ok,
  err, panic, is_empty,
}
use shotover_proxy.Prelude.Stateful.{◌>>=◌, done, result_of, modify, and_then}
use shotover_proxy.Message.Frame.{Protocols, Frame}
use shotover_proxy.Message.State.{Message, frame}
use shotover_proxy.Valkey.Cluster.Redirection.{Redirection, moved, ask}
use shotover_proxy.Valkey.Cluster.Sink.{Token, Response, Attempt, Nodes, ValkeySinkCluster, Do}
use shotover_proxy.Valkey.Cluster.Sink.Build.{build_connections}
use shotover_proxy.Valkey.Cluster.Sink.Dispatch.{dispatch_message}
use shotover_proxy.Valkey.Cluster.Sink.Responses.{
  with_context, settle, redirection_of, follow, await_responses, dispatch_all, transform,
  note_moved, or_error, initialise, when, build_logged, logged,
}
use shotover_proxy.Valkey.Cluster.Sink.Topologies.{
  Private, Keeps, each, at, bind-Keeps, same-Keeps, choose_and_send-Keeps,
}
use shotover_proxy.Valkey.Cluster.Sink.KeptBuilding.{build_connections-Keeps}
use shotover_proxy.Valkey.Cluster.Sink.KeptCalls.{dispatch_message-Keeps}

module _ (P : Protocols) (nodes : Nodes P) (fresh : ℕ) (crc16 : Bytes → ℕ) where
  abbrev Sink : Type 0
  Sink = ValkeySinkCluster P nodes fresh

  abbrev Kept : {A : Type 0} → Do P nodes fresh A → Type 0
  Kept = Keeps P nodes fresh

  -- What a step does that starts with a token.
  unfoldable Guarded : {A : Type 0} → Do P nodes fresh A → Type 0
  Guarded m = (s : Sink) → s.token ≢ none → Private P nodes fresh s (m s).0

  kept : {A : Type 0} (m : Do P nodes fresh A) → Kept m → Guarded m
  unfolding Guarded
  kept m k s h = at P nodes fresh m k s

  bind-Guarded :
      {A B : Type 0} (m : Do P nodes fresh A) (f : A → Do P nodes fresh B)
      → Guarded m
      → ((a : A) → Guarded (f a))
      → Guarded (m >>= f)
  unfolding Guarded
  bind-Guarded {A = A} m f g k s h = behind (m s).0 (m s).1 (g s h)
    where
      behind :
          (t : Sink) (r : Result A)
          → Private P nodes fresh s t
          → Private P nodes fresh s (and_then t r f).0
      behind t (ok a) (e, i) = let (e', i') = k a t (i h) in (e' ∙ e, λ n. i' (i n))
      behind t (err e) p = p
      behind t panic p = p

  logged-state : (x : Sink × Result (Attempt (Unit {0}))) → (logged P nodes fresh crc16 x).0 ≡ x.0
  logged-state (s, ok a) = refl
  logged-state (s, err e) = refl
  logged-state (s, panic) = refl

  built : (o : Option Token) → o ≢ none → Kept (build_connections P nodes fresh o)
  built none h = absurd (h refl)
  built (some t) h = build_connections-Keeps P nodes fresh t

  build_logged-Guarded : Guarded (build_logged P nodes fresh crc16)
  unfolding Guarded build_logged
  build_logged-Guarded s h =
      rw (logged-state (build_connections P nodes fresh s.token s))
        (at P nodes fresh _ (built s.token h) s)

  when-Guarded :
      (b : Bool) (m : Do P nodes fresh (Unit {0}))
      → Guarded m
      → Guarded (when P nodes fresh crc16 b m)
  unfolding Guarded
  when-Guarded true m g s h = g s h
  when-Guarded false m g s h = (refl, λ i. i)

  initialise-Guarded : (b : Bool) → Guarded (initialise P nodes fresh crc16 b)
  unfolding initialise Guarded
  initialise-Guarded true s h = (refl, λ i. i)
  initialise-Guarded false s h =
      bind-Guarded
        (when P nodes fresh crc16 (is_empty s.shared_topology.channels)
          (build_logged P nodes fresh crc16))
        _ (when-Guarded _ _ build_logged-Guarded) (λ u t i. (refl, λ j. j))
        (record s { topology = s.shared_topology }) h

  or_error-state : (x : Sink × Result (Response P)) → (or_error P nodes fresh crc16 x).0 ≡ x.0
  or_error-state (s, ok a) = refl
  or_error-state (s, err e) = refl
  or_error-state (s, panic) = refl

  answered-Keeps :
      (q : Message P)
      → Kept (λ s. or_error P nodes fresh crc16 (dispatch_message P nodes fresh crc16 q s))
  answered-Keeps q = each P nodes fresh _ (λ s.
      rw (or_error-state (dispatch_message P nodes fresh crc16 q s))
        (at P nodes fresh _ (dispatch_message-Keeps P nodes fresh crc16 q) s))

  dispatch_all-Keeps :
      (requests : List (Message P)) → Kept (dispatch_all P nodes fresh crc16 requests)
  unfolding dispatch_all
  dispatch_all-Keeps [] = same-Keeps P nodes fresh _
  dispatch_all-Keeps (q ∷ requests) = bind-Keeps P nodes fresh _ _ (answered-Keeps q) (λ r.
      bind-Keeps P nodes fresh _ (λ rs. done (r ∷ rs)) (dispatch_all-Keeps requests)
        (λ rs. same-Keeps P nodes fresh _))

  -- The dispatch of requests, AUTH among them, leaves the topology that the sinks of other connections
  -- take as it was, whatever the nodes answer.
  pub dispatch_all-shared :
      (requests : List (Message P)) (s : Sink)
      → (dispatch_all P nodes fresh crc16 requests s).0.shared_topology ≡ s.shared_topology
  dispatch_all-shared requests s = (at P nodes fresh _ (dispatch_all-Keeps requests) s).0

  follow-Keeps :
      (q : Message P) (pending : List (Response P))
      (rest : List (Response P) → Do P nodes fresh (List (Message P))) (p : Message P)
      (o : Option Redirection)
      → ((rs : List (Response P)) → Kept (rest rs))
      → Kept (follow P nodes fresh crc16 q pending rest p o)
  unfolding follow
  follow-Keeps q pending rest p none k =
      bind-Keeps P nodes fresh _ (λ out. done (p ∷ out)) (k pending)
        (λ out. same-Keeps P nodes fresh _)
  follow-Keeps q pending rest p (some (moved n server)) k =
      bind-Keeps P nodes fresh (modify (note_moved P nodes fresh crc16 n server)) _
        (each P nodes fresh _ (λ s. (refl, λ h. h)))
        (λ u.
          bind-Keeps P nodes fresh _
            (λ r. rest (with_context "Error while retrying MOVE" r ∷ pending))
            (choose_and_send-Keeps P nodes fresh server q) (λ r. k _))
  follow-Keeps q pending rest p (some (ask n server)) k =
      bind-Keeps P nodes fresh _ (λ r. rest (with_context "Error while retrying ASK" r ∷ pending))
        (choose_and_send-Keeps P nodes fresh server q) (λ r. k _)

  await-Keeps :
      (requests : List (Message P)) (pending : List (Response P))
      → Kept (await_responses P nodes fresh crc16 requests pending)
  unfolding await_responses
  await-Keeps requests [] = same-Keeps P nodes fresh _
  await-Keeps [] (r ∷ pending) = same-Keeps P nodes fresh _
  await-Keeps (q ∷ requests) (r ∷ pending) =
      bind-Keeps P nodes fresh (result_of (settle P nodes fresh crc16 r)) _
        (same-Keeps P nodes fresh _)
        (λ m.
          bind-Keeps P nodes fresh (result_of (frame P m)) _ (same-Keeps P nodes fresh _)
            (λ (x : Message P × Option (Frame P)).
              follow-Keeps q pending (await_responses P nodes fresh crc16 requests) x.0
                (redirection_of P nodes fresh crc16 x.1) (await-Keeps requests)))

  initialise_first : Guarded (λ s. initialise P nodes fresh crc16 s.has_run_init s)
  unfolding Guarded
  initialise_first s h = initialise-Guarded s.has_run_init s h

  rebuild_then :
      Guarded
        (λ s. when P nodes fresh crc16 s.rebuild_connections (build_logged P nodes fresh crc16) s)
  unfolding Guarded
  rebuild_then s h =
      when-Guarded s.rebuild_connections (build_logged P nodes fresh crc16) build_logged-Guarded s h

  transform-Guarded :
      (requests : List (Message P)) → Guarded (transform P nodes fresh crc16 requests)
  unfolding transform
  transform-Guarded requests = bind-Guarded _ _ initialise_first (λ u.
      bind-Guarded _ _ rebuild_then (λ v.
        bind-Guarded _ _ (kept _ (dispatch_all-Keeps requests))
          (λ responses. kept _ (await-Keeps requests responses))))

  -- A call of a sink that has a token leaves the topology that the sinks of other connections take as
  -- it was, and the sink still has a token behind it: also where the call builds connections anew.
  pub transform-private :
      (requests : List (Message P)) (s : Sink)
      → s.token ≢ none
      → ((transform P nodes fresh crc16 requests s).0.shared_topology ≡ s.shared_topology)
        × ((transform P nodes fresh crc16 requests s).0.token ≢ none)
  unfolding Guarded
  transform-private requests s h =
      let (same, token) = transform-Guarded requests s h in (same, token h)
