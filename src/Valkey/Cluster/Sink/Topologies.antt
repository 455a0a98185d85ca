-- ===== src/Valkey/Cluster/Sink/Topologies.antt =====
-- The topology that connections share, and the token of a sink: what sending and building do to them.
use shotover_proxy.Prelude.{
  ℕ, ◌≡◌, ◌≢◌, refl, ◌∙◌, Bool, true, false, List, [], ◌∷◌, Bytes, Option, none, some, Result, ok,
  err, panic, if◌then◌else◌, get_elem?, leb,
}
use shotover_proxy.Prelude.Stateful.{◌>>=◌, result_of, and_then}
use shotover_proxy.Message.Frame.{Protocols}
use shotover_proxy.Message.State.{Message}
use shotover_proxy.Valkey.Cluster.Sink.{
  Response, Attempt, reached, refused, Nodes, ValkeySinkCluster, Do, outside, load_entry, or_insert,
  draw_two, pick_of, open_one, pick, channels_of, connected, connect, or_connect, sent_to, deliver,
  choose_and_send, send_error_response, short_circuit_with_error, load_of, short_circuit,
}

module _ (P : Protocols) (nodes : Nodes P) (fresh : ℕ) where
  abbrev pub Sink : Type 0
  Sink = ValkeySinkCluster P nodes fresh

  -- The shared topology is the same, and a sink with a token still has one.
  abbrev pub Private : Sink → Sink → Type 0
  Private s s' = (s'.shared_topology ≡ s.shared_topology) × (s.token ≢ none → s'.token ≢ none)

  unfoldable pub Keeps : {A : Type 0} → Do P nodes fresh A → Type 0
  Keeps m = (s : Sink) → Private s (m s).0

  pub each : {A : Type 0} (m : Do P nodes fresh A) → ((s : Sink) → Private s (m s).0) → Keeps m
  unfolding Keeps
  each m h = h

  pub at : {A : Type 0} (m : Do P nodes fresh A) → Keeps m → (s : Sink) → Private s (m s).0
  unfolding Keeps
  at m h = h

  pub bind-Keeps :
      {A B : Type 0} (m : Do P nodes fresh A) (f : A → Do P nodes fresh B)
      → Keeps m
      → ((a : A) → Keeps (f a))
      → Keeps (m >>= f)
  bind-Keeps {A = A} m f h k = each (m >>= f) (λ s. behind s (m s).0 (m s).1 (at m h s))
    where
      behind : (s t : Sink) (r : Result A) → Private s t → Private s (and_then t r f).0
      behind s t (ok a) (e, g) = let (e', g') = at (f a) (k a) t in (e' ∙ e, λ i. g' (g i))
      behind s t (err e) i = i
      behind s t panic i = i

  pub same-Keeps : {A : Type 0} (r : Result A) → Keeps (result_of r)
  same-Keeps r = each _ (λ s. (refl, λ h. h))

  pub outside-Keeps :
      {A : Type 0} (f : nodes.World → nodes.World × A) → Keeps (outside P nodes fresh f)
  outside-Keeps f = each _ (λ s. (refl, λ h. h))

  -- A step that reads the state first.
  pub reads-Keeps :
      {A : Type 0} (f : Sink → Do P nodes fresh A) → ((s : Sink) → Keeps (f s)) → Keeps (λ s. f s s)
  reads-Keeps f h = each _ (λ s. at (f s) (h s) s)

  pub if-Keeps :
      {A : Type 0} (b : Bool) (m n : Do P nodes fresh A)
      → Keeps m
      → Keeps n
      → Keeps (λ s. if b then m s else n s)
  if-Keeps true m n h k = h
  if-Keeps false m n h k = k

  load_entry-Keeps : (host : Bytes) (i : ℕ) → Keeps (load_entry P nodes fresh host i)
  unfolding load_entry
  load_entry-Keeps host i =
      reads-Keeps (λ s. or_insert P nodes fresh host i (load_of P nodes fresh host i s.load_scores))
        (λ s. entry _)
    where
      entry : (o : Option ℕ) → Keeps (or_insert P nodes fresh host i o)
      entry none = each _ (λ s. (refl, λ h. h))
      entry (some load) = same-Keeps _

  draw_two-Keeps :
      (host : Bytes) (cs : List nodes.Connection) → Keeps (draw_two P nodes fresh host cs)
  unfolding draw_two
  draw_two-Keeps host cs = bind-Keeps _ _ (outside-Keeps _) (λ (c : ℕ × ℕ).
      bind-Keeps _ _ (load_entry-Keeps host c.0) (λ a.
        bind-Keeps _ _ (load_entry-Keeps host c.1)
          (λ b. same-Keeps (ok (get_elem? cs (if leb a b then c.0 else c.1))))))

  pick_of-Keeps :
      (host : Bytes) (o : Option (List nodes.Connection)) → Keeps (pick_of P nodes fresh host o)
  unfolding pick_of
  pick_of-Keeps host none = same-Keeps _
  pick_of-Keeps host (some []) = same-Keeps _
  pick_of-Keeps host (some (c ∷ [])) = same-Keeps _
  pick_of-Keeps host (some (c ∷ d ∷ cs)) = draw_two-Keeps host (c ∷ d ∷ cs)

  open_one-Keeps : (o : Option nodes.Connection) → Keeps (open_one P nodes fresh o)
  open_one-Keeps none = same-Keeps _
  open_one-Keeps (some c) = each _ (λ s. (refl, λ h. h))

  connected-Keeps :
      (host : Bytes) (a : Attempt (List nodes.Connection)) → Keeps (connected P nodes fresh host a)
  connected-Keeps host (reached []) = same-Keeps _
  connected-Keeps host (reached (c ∷ cs)) = each _ (λ s. (refl, λ h. h))
  connected-Keeps host (refused e) = each _ (λ s. (refl, λ h. h))

  connect-Keeps : (host : Bytes) → Keeps (connect P nodes fresh host)
  unfolding connect
  connect-Keeps host =
      reads-Keeps
        (λ s t.
          if nodes.in_time s.world host
          then (outside P nodes fresh (λ w. nodes.get_connections w host s.token s.connection_count)
                >>= connected P nodes fresh host)
              t
          else (record t { rebuild_connections = true }, ok none))
        (λ s.
          if-Keeps (nodes.in_time s.world host) _ _
            (bind-Keeps _ _ (outside-Keeps _) (connected-Keeps host))
            (each _ (λ t. (refl, λ h. h))))

  or_connect-Keeps :
      (host : Bytes) (o : Option nodes.Connection) → Keeps (or_connect P nodes fresh host o)
  unfolding or_connect
  or_connect-Keeps host (some c) = same-Keeps _
  or_connect-Keeps host none = connect-Keeps host

  sent_to-Keeps : (host : Bytes) (o : Option (Response P)) → Keeps (sent_to P nodes fresh host o)
  unfolding sent_to short_circuit_with_error short_circuit
  sent_to-Keeps host (some r) = same-Keeps _
  sent_to-Keeps host none = each _ (λ s. (refl, λ h. h))

  deliver-Keeps :
      (host : Bytes) (message : Message P) (o : Option nodes.Connection)
      → Keeps (deliver P nodes fresh host message o)
  unfolding deliver short_circuit_with_error short_circuit
  deliver-Keeps host message none = same-Keeps _
  deliver-Keeps host message (some c) = bind-Keeps _ _ (outside-Keeps _) (sent_to-Keeps host)

  pub choose_and_send-Keeps :
      (host : Bytes) (message : Message P) → Keeps (choose_and_send P nodes fresh host message)
  unfolding choose_and_send pick
  choose_and_send-Keeps host message =
      bind-Keeps _ _
        (reads-Keeps
          (λ s.
            pick_of P nodes fresh host (channels_of P nodes fresh host s.topology.channels)
            >>= open_one P nodes fresh)
          (λ s. bind-Keeps _ _ (pick_of-Keeps host _) open_one-Keeps))
        (λ picked. bind-Keeps _ _ (or_connect-Keeps host picked) (deliver-Keeps host message))

  pub send_error_response-Keeps : (text : Bytes) → Keeps (send_error_response P nodes fresh text)
  unfolding send_error_response short_circuit
  send_error_response-Keeps text = each _ (λ s. (refl, λ h. h))
