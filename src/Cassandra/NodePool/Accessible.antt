-- ===== src/Cassandra/NodePool/Accessible.antt =====
-- The node that a connection is opened to.
use mathlib.Core.Bool.{Bool-set}
use mathlib.Core.Path.{subst}
use mathlib.Core.Logic.Or
use mathlib.Core.List.{Mem, mem-cons, mem-cons_self, mem-cons_of_mem, not-mem-nil, Perm}
use mathlib.Core.List.Perm
use shotover_proxy.Prelude.{
  ℕ, zero, suc, ◌+◌, ◌≡◌, ◌⊎◌, inl, inr, refl, ap, ◌∙◌, Bool, true, false, List, [], ◌∷◌, Bytes,
  Option, none, some, Result, ok, err, if◌then◌else◌, Bool-cases, arith, get_elem?,
}
use shotover_proxy.Cassandra.TokenRing.{CassandraNode}
use shotover_proxy.Cassandra.NodePool.{report_issue, set_at, places}
use shotover_proxy.Cassandra.NodePool.Connect.{
  Opening, opened, or_open, get_connection, tried, try_node, get_accessible_node, outbound_at,
  up_in_rack, get_random_node_in_dc_rack, get_random_connection_in_dc_rack,
}

nothing_more : (n : ℕ) → n ≡ n + 0
nothing_more n = omega arith

nothing_before : (n : ℕ) → 0 + n ≡ n
nothing_before n = omega arith

suc_inside : (m n : ℕ) → suc m + n ≡ m + suc n
suc_inside m n = omega arith

module _ {C : Type 0} where
  abbrev is_some_node : Option (CassandraNode C) → Bool
  is_some_node none = false
  is_some_node (some n) = true

  is_node-set_at :
      (i j : ℕ) (n : CassandraNode C) (ns : List (CassandraNode C))
      → is_some_node (get_elem? (set_at j n ns) i) ≡ is_some_node (get_elem? ns i)
  unfolding set_at
  is_node-set_at i j n [] = refl
  is_node-set_at zero zero n (m ∷ ns) = refl
  is_node-set_at (suc i) zero n (m ∷ ns) = refl
  is_node-set_at zero (suc j) n (m ∷ ns) = refl
  is_node-set_at (suc i) (suc j) n (m ∷ ns) = is_node-set_at i j n ns

  get_elem?-set_at :
      (j : ℕ) (n : CassandraNode C) (ns : List (CassandraNode C))
      → is_some_node (get_elem? ns j) ≡ true
      → get_elem? (set_at j n ns) j ≡ some n
  unfolding set_at
  get_elem?-set_at j n [] h = absurd (cc)
  get_elem?-set_at zero n (m ∷ ns) h = refl
  get_elem?-set_at (suc j) n (m ∷ ns) h = get_elem?-set_at j n ns h

  -- A node that passes a filter.
  abbrev pub passes : (CassandraNode C → Bool) → Option (CassandraNode C) → Bool
  passes keep none = false
  passes keep (some n) = keep n

  passes-is_some_node :
      (keep : CassandraNode C → Bool) (o : Option (CassandraNode C))
      → passes keep o ≡ true
      → is_some_node o ≡ true
  passes-is_some_node keep none h = h
  passes-is_some_node keep (some n) h = refl

  -- `f` reads the nodes from the place `k` on.
  places-passes :
      (keep : CassandraNode C → Bool) (k : ℕ) (ns : List (CassandraNode C))
      (f : ℕ → Option (CassandraNode C)) (i : ℕ)
      → ((j : ℕ) → f (k + j) ≡ get_elem? ns j)
      → Mem i (places keep k ns)
      → passes keep (f i) ≡ true
  unfolding places
  places-passes keep k [] f i reads m = absurd (not-mem-nil m)
  places-passes keep k (n ∷ ns) f i reads m =
      let first : f k ≡ some n = ap f (nothing_more k) ∙ reads 0 in
      let later : (j : ℕ) → f (suc k + j) ≡ get_elem? ns j =
        λ j. ap f (suc_inside k j) ∙ reads (suc j) in
      elim (Bool-cases (keep n)) [
        | inl kept ↦
            let here : Mem i (k ∷ places keep (suc k) ns) =
              subst (λ b. Mem i (if b then k ∷ places keep (suc k) ns else places keep (suc k) ns))
                kept m in
            Or.elim (Bool-set (passes keep (f i)) true) (mem-cons.0 here)
              (λ (e : i ≡ k). rw (e, first) kept) (λ m'. places-passes keep (suc k) ns f i later m')
        | inr other ↦ places-passes keep (suc k) ns f i later (
            subst (λ b. Mem i (if b then k ∷ places keep (suc k) ns else places keep (suc k) ns))
              other m)
      ]

module _ {C : Type 0} {W : Type 0} (new_connection : W → ℕ → W × Option C) where
  -- A connection that `get_connection` reports is in the node.
  get_connection-outbound :
      (w : W) (node : CassandraNode C)
      → (get_connection new_connection w node).2 ≡ true
      → (c : C) × ((get_connection new_connection w node).1.outbound ≡ some c)
  unfolding get_connection
  get_connection-outbound w node h = by_outbound node.outbound refl h
    where
      by_outbound :
          (o : Option C)
          → node.outbound ≡ o
          → (or_open new_connection o w node).2 ≡ true
          → (c : C) × ((or_open new_connection o w node).1.outbound ≡ some c)
      by_outbound (some c) e h = (c, e)
      by_outbound none e h = by_new (new_connection w node.address) h
        where
          by_new :
              (x : W × Option C)
              → (opened new_connection node x).2 ≡ true
              → (c : C) × ((opened new_connection node x).1.outbound ≡ some c)
          by_new (w', some c) h = (c, refl)
          by_new (w', none) h = absurd (cc)

  abbrev pub Tries : Type 0
  Tries = Opening new_connection × Result ℕ

  -- No node could be connected to, or the node at a place of the list has a connection.
  abbrev pub Connects : List ℕ → Tries → Type 0
  Connects refs x =
      (x.1 ≡ err "Attempted to open a connection to one of multiple nodes but all attempts failed")
      ⊎ ((place : ℕ) × (node : CassandraNode C) × (c : C) × Mem place refs
          × (x.1 ≡ ok place)
          × (get_elem? x.0.nodes place ≡ some node)
          × (node.outbound ≡ some c))

  -- What the loop behind a place has shown.
  abbrev Behind : List ℕ → Opening new_connection → Type 0
  Behind refs s =
      (t : Opening new_connection)
      → ((i : ℕ) → is_some_node (get_elem? t.nodes i) ≡ is_some_node (get_elem? s.nodes i))
      → Connects refs (get_accessible_node new_connection refs t)

  later-Connects :
      (place : ℕ) (refs : List ℕ) (x : Tries) → Connects refs x → Connects (place ∷ refs) x
  later-Connects place refs x (inl e) = inl e
  later-Connects place refs x (inr (i, node, c, m, r, at, out)) =
      inr (i, node, c, mem-cons_of_mem place m, r, at, out)

  tried-Connects :
      (place : ℕ) (refs : List ℕ) (s : Opening new_connection) (x : W × CassandraNode C × Bool)
      → is_some_node (get_elem? s.nodes place) ≡ true
      → (x.2 ≡ true → (c : C) × (x.1.outbound ≡ some c))
      → Behind refs s
      → Connects
          (place ∷ refs)
          (tried new_connection place (get_accessible_node new_connection refs) x s)
  tried-Connects place refs s (w, node, true) valid connected rest =
      let (c, out) = connected refl in
      inr (place, node, c, mem-cons_self, refl, get_elem?-set_at place node s.nodes valid, out)
  tried-Connects place refs s (w, node, false) valid connected rest =
      let t : Opening new_connection = record {
        world = w;
        nodes = set_at place (report_issue node) s.nodes;
      } in
      later-Connects place refs (get_accessible_node new_connection refs t)
        (rest t (λ i. is_node-set_at i place (report_issue node) s.nodes))

  try_node-Connects :
      (place : ℕ) (refs : List ℕ) (s : Opening new_connection) (o : Option (CassandraNode C))
      → get_elem? s.nodes place ≡ o
      → is_some_node o ≡ true
      → Behind refs s
      → Connects
          (place ∷ refs)
          (try_node new_connection place (get_accessible_node new_connection refs) o s)
  try_node-Connects place refs s none e valid rest = absurd (cc)
  try_node-Connects place refs s (some node) e valid rest =
      tried-Connects place refs s (get_connection new_connection s.world node) (ap is_some_node e)
        (get_connection-outbound s.world node) rest

  get_accessible_node-Connects :
      (refs : List ℕ) (s : Opening new_connection)
      → ((i : ℕ) → Mem i refs → is_some_node (get_elem? s.nodes i) ≡ true)
      → Connects refs (get_accessible_node new_connection refs s)
  unfolding get_accessible_node
  get_accessible_node-Connects [] s valid = inl refl
  get_accessible_node-Connects (place ∷ refs) s valid =
      try_node-Connects place refs s (get_elem? s.nodes place) refl (valid place mem-cons_self)
        (λ t same.
          get_accessible_node-Connects refs t (λ i m. same i ∙ valid i (mem-cons_of_mem place m)))

  -- For a shuffle that permutes: asking for a connection in a rack either fails with an error, or gives
  -- the connection that a node now holds which was up and in the rack; it never panics.
  pub get_random_connection_in_dc_rack-up_in_rack :
      (shuffle : List ℕ → List ℕ) (shuffle-Perm : (xs : List ℕ) → Perm (shuffle xs) xs)
      (rack : Bytes) (s : Opening new_connection)
      → ((get_random_connection_in_dc_rack new_connection shuffle rack s).1
          ≡ err "Attempted to open a connection to one of multiple nodes but all attempts failed")
        ⊎ ((place : ℕ) × (node : CassandraNode C) × (c : C) × ((get_random_connection_in_dc_rack
                new_connection shuffle rack s).1
              ≡ ok c)
            × (passes (up_in_rack new_connection rack) (get_elem? s.nodes place) ≡ true)
            × (get_elem?
                  (get_random_connection_in_dc_rack new_connection shuffle rack s).0.nodes
                  place
                ≡ some node)
            × (node.outbound ≡ some c))
  unfolding get_random_connection_in_dc_rack get_random_node_in_dc_rack outbound_at
  get_random_connection_in_dc_rack-up_in_rack shuffle shuffle-Perm rack s =
      let refs = shuffle (places (up_in_rack new_connection rack) 0 s.nodes) in
      let chosen : (i : ℕ)
          → Mem i refs
          → passes (up_in_rack new_connection rack) (get_elem? s.nodes i) ≡ true =
        λ i m.
          places-passes (up_in_rack new_connection rack) 0 s.nodes (λ j. get_elem? s.nodes j) i
            (λ j. ap (get_elem? s.nodes) (nothing_before j))
            ((Perm.mem_iff (shuffle-Perm (places (up_in_rack new_connection rack) 0 s.nodes))).0
              m) in
      elim (get_accessible_node-Connects refs s (λ i m. passes-is_some_node _ _ (chosen i m))) [
        | inl failed ↦ inl (rw failed refl)
        | inr (place, node, c, m, r, at, out) ↦
            inr (place, node, c, rw (r, at, out) refl, chosen place m, rw r at, out)
      ]
