-- ===== src/Cassandra/NodePool/Updates.antt =====
-- What an update of the nodes does with the connections.
use shotover_proxy.Prelude.{
  ℕ, ◌≡◌, ◌≢◌, ◌⊎◌, inl, inr, refl, ap, ◌∙◌, true, ◌&&◌, List, [], ◌∷◌, Option, none, some, ◌==◌,
  All, Bool-cases, arith,
}
use shotover_proxy.Cassandra.TokenRing.{CassandraNode}
use shotover_proxy.Cassandra.NodePool.{
  NodePool, clone_node, clone_nodes, give, carry, carry_all, update_nodes,
}

module _ {C : Type 0} where
  -- A connection to a host, which a node of the old pool holds.
  abbrev pub HeldBy : List (CassandraNode C) → ℕ → C → Type 0
  HeldBy [] host_id c = ⊥
  HeldBy (n ∷ ns) host_id c = ((n.host_id ≡ host_id) × (n.outbound ≡ some c)) ⊎ HeldBy ns host_id c

  -- Some node of the host is up.
  abbrev pub HasUp : ℕ → List (CassandraNode C) → Type 0
  HasUp host_id [] = ⊥
  HasUp host_id (n ∷ ns) = ((n.host_id ≡ host_id) × (n.is_up ≡ true)) ⊎ HasUp host_id ns

  -- Some node of the host is up and connected.
  abbrev pub Connected : ℕ → List (CassandraNode C) → Type 0
  Connected host_id [] = ⊥
  Connected host_id (n ∷ ns) =
      ((n.host_id ≡ host_id) × (n.is_up ≡ true) × (n.outbound ≢ none)) ⊎ Connected host_id ns

  -- A node without a connection, or one that is up with a connection of the old pool to its host.
  unfoldable pub Carried : List (CassandraNode C) → CassandraNode C → Type 0
  Carried old n =
      (n.outbound ≡ none)
      ⊎ ((n.is_up ≡ true) × (c : C) × (n.outbound ≡ some c) × HeldBy old n.host_id c)

  give-Carried :
      (old : List (CassandraNode C)) (c : C) (host_id : ℕ) (ns : List (CassandraNode C))
      → HeldBy old host_id c
      → All (Carried old) ns
      → All (Carried old) (give c host_id ns)
  unfolding give Carried
  give-Carried old c host_id [] held h = tt
  give-Carried old c host_id (n ∷ ns) held h =
      elim (Bool-cases ((n.host_id == host_id) && n.is_up)) [
        | inl fits ↦
            let same : n.host_id ≡ host_id = ground arith in
            let up : n.is_up ≡ true = ground arith in rw fits (inr (up, c, refl, rw same held), h.1)
        | inr other ↦ rw other (h.0, give-Carried old c host_id ns held h.1)
      ]

  carry-Carried :
      (old : List (CassandraNode C)) (o : Option C) (host_id : ℕ) (ns : List (CassandraNode C))
      → ((c : C) → o ≡ some c → HeldBy old host_id c)
      → All (Carried old) ns
      → All (Carried old) (carry o host_id ns)
  unfolding carry
  carry-Carried old none host_id ns held h = h
  carry-Carried old (some c) host_id ns held h = give-Carried old c host_id ns (held c refl) h

  carry_all-Carried :
      (old part ns : List (CassandraNode C))
      → ((host_id : ℕ) (c : C) → HeldBy part host_id c → HeldBy old host_id c)
      → All (Carried old) ns
      → All (Carried old) (carry_all part ns)
  unfolding carry_all
  carry_all-Carried old [] ns held h = h
  carry_all-Carried old (m ∷ part) ns held h =
      carry_all-Carried old part (carry m.outbound m.host_id ns)
        (λ host_id c k. held host_id c (inr k))
        (carry-Carried old m.outbound m.host_id ns (λ c e. held m.host_id c (inl (refl, e))) h)

  clone_nodes-Carried : (old ns : List (CassandraNode C)) → All (Carried old) (clone_nodes ns)
  unfolding clone_nodes Carried
  clone_nodes-Carried old [] = tt
  clone_nodes-Carried old (n ∷ ns) = (inl refl, clone_nodes-Carried old ns)

  -- Apart from its connection, a node is as before.
  give-clone_nodes :
      (c : C) (host_id : ℕ) (ns : List (CassandraNode C))
      → clone_nodes (give c host_id ns) ≡ clone_nodes ns
  unfolding give clone_nodes
  give-clone_nodes c host_id [] = refl
  give-clone_nodes c host_id (n ∷ ns) = elim (Bool-cases ((n.host_id == host_id) && n.is_up)) [
    | inl fits ↦ rw fits refl
    | inr other ↦ rw (other, give-clone_nodes c host_id ns) refl
  ]

  carry-clone_nodes :
      (o : Option C) (host_id : ℕ) (ns : List (CassandraNode C))
      → clone_nodes (carry o host_id ns) ≡ clone_nodes ns
  unfolding carry
  carry-clone_nodes none host_id ns = refl
  carry-clone_nodes (some c) host_id ns = give-clone_nodes c host_id ns

  carry_all-clone_nodes :
      (old ns : List (CassandraNode C)) → clone_nodes (carry_all old ns) ≡ clone_nodes ns
  unfolding carry_all
  carry_all-clone_nodes [] ns = refl
  carry_all-clone_nodes (m ∷ old) ns =
      carry_all-clone_nodes old (carry m.outbound m.host_id ns)
      ∙ carry-clone_nodes m.outbound m.host_id ns

  clone_nodes-twice : (ns : List (CassandraNode C)) → clone_nodes (clone_nodes ns) ≡ clone_nodes ns
  unfolding clone_nodes
  clone_nodes-twice [] = refl
  clone_nodes-twice (n ∷ ns) = ap (λ l. clone_node n ∷ l) (clone_nodes-twice ns)

  -- After an update, the nodes are those that were received, apart from connections, and a node has
  -- either no connection, or it is up and has one that the old pool held to the same host.
  pub update_nodes-Carried :
      (received : List (CassandraNode C)) (pool : NodePool C)
      → All (Carried pool.nodes) (update_nodes received pool).nodes
        × (clone_nodes (update_nodes received pool).nodes ≡ clone_nodes received)
  unfolding update_nodes
  update_nodes-Carried received pool = (
    carry_all-Carried pool.nodes pool.nodes (clone_nodes received) (λ host_id c k. k)
        (clone_nodes-Carried pool.nodes received),
    carry_all-clone_nodes pool.nodes (clone_nodes received) ∙ clone_nodes-twice received,
  )

  give-HasUp :
      (c : C) (h host_id : ℕ) (ns : List (CassandraNode C))
      → HasUp h ns
      → HasUp h (give c host_id ns)
  unfolding give
  give-HasUp c h host_id [] up = up
  give-HasUp c h host_id (n ∷ ns) up = elim (Bool-cases ((n.host_id == host_id) && n.is_up)) [
    | inl fits ↦ rw fits up
    | inr other ↦
        rw other
          (elim up [ inl here ↦ inl here | inr later ↦ inr (give-HasUp c h host_id ns later) ])
  ]

  give-Connected :
      (c : C) (h host_id : ℕ) (ns : List (CassandraNode C))
      → Connected h ns
      → Connected h (give c host_id ns)
  unfolding give
  give-Connected c h host_id [] up = up
  give-Connected c h host_id (n ∷ ns) up = elim (Bool-cases ((n.host_id == host_id) && n.is_up)) [
    | inl fits ↦
        rw fits (elim up [
          | inl (e, u, o) ↦ inl (e, u, λ (i : some c ≡ none). cc)
          | inr later ↦ inr later
        ])
    | inr other ↦
        rw other
          (elim up [ inl here ↦ inl here | inr later ↦ inr (give-Connected c h host_id ns later) ])
  ]

  give_connects :
      (c : C) (h : ℕ) (ns : List (CassandraNode C)) → HasUp h ns → Connected h (give c h ns)
  unfolding give
  give_connects c h [] up = up
  give_connects c h (n ∷ ns) up = elim (Bool-cases ((n.host_id == h) && n.is_up)) [
    | inl fits ↦
        let same : n.host_id ≡ h = ground arith in
        let is_up : n.is_up ≡ true = ground arith in
        rw fits (inl (same, is_up, λ (i : some c ≡ none). cc))
    | inr other ↦ rw other (elim up [
      | inl (e, u) ↦ absurd (ground arith)
      | inr later ↦ inr (give_connects c h ns later)
    ])
  ]

  carry-HasUp :
      (o : Option C) (h host_id : ℕ) (ns : List (CassandraNode C))
      → HasUp h ns
      → HasUp h (carry o host_id ns)
  unfolding carry
  carry-HasUp none h host_id ns up = up
  carry-HasUp (some c) h host_id ns up = give-HasUp c h host_id ns up

  carry-Connected :
      (o : Option C) (h host_id : ℕ) (ns : List (CassandraNode C))
      → Connected h ns
      → Connected h (carry o host_id ns)
  unfolding carry
  carry-Connected none h host_id ns up = up
  carry-Connected (some c) h host_id ns up = give-Connected c h host_id ns up

  carry_connects :
      (o : Option C) (c : C) (h host_id : ℕ) (ns : List (CassandraNode C))
      → host_id ≡ h
      → o ≡ some c
      → HasUp h ns
      → Connected h (carry o host_id ns)
  unfolding carry
  carry_connects none c h host_id ns e held up = absurd (cc)
  carry_connects (some d) c h host_id ns e held up = rw e (give_connects d h ns up)

  carry_all-Connected :
      (old : List (CassandraNode C)) (h : ℕ) (ns : List (CassandraNode C))
      → Connected h ns
      → Connected h (carry_all old ns)
  unfolding carry_all
  carry_all-Connected [] h ns up = up
  carry_all-Connected (m ∷ old) h ns up =
      carry_all-Connected old h (carry m.outbound m.host_id ns)
        (carry-Connected m.outbound h m.host_id ns up)

  carry_all_connects :
      (old : List (CassandraNode C)) (h : ℕ) (c : C) (ns : List (CassandraNode C))
      → HeldBy old h c
      → HasUp h ns
      → Connected h (carry_all old ns)
  unfolding carry_all
  carry_all_connects [] h c ns held up = absurd held
  carry_all_connects (m ∷ old) h c ns held up = elim held [
    | inl (e, o) ↦
        carry_all-Connected old h (carry m.outbound m.host_id ns)
          (carry_connects m.outbound c h m.host_id ns e o up)
    | inr later ↦
        carry_all_connects old h c (carry m.outbound m.host_id ns) later
          (carry-HasUp m.outbound h m.host_id ns up)
  ]

  clone_nodes-HasUp : (h : ℕ) (ns : List (CassandraNode C)) → HasUp h ns → HasUp h (clone_nodes ns)
  unfolding clone_nodes
  clone_nodes-HasUp h [] up = up
  clone_nodes-HasUp h (n ∷ ns) up = elim up [
    | inl here ↦ inl here
    | inr later ↦ inr (clone_nodes-HasUp h ns later)
  ]

  -- If the pool holds a connection to a host, and some received node of that host is up, then after an
  -- update some node of the host is up and connected.
  pub update_nodes-Connected :
      (received : List (CassandraNode C)) (pool : NodePool C) (h : ℕ) (c : C)
      → HeldBy pool.nodes h c
      → HasUp h received
      → Connected h (update_nodes received pool).nodes
  unfolding update_nodes
  update_nodes-Connected received pool h c held up =
      carry_all_connects pool.nodes h c (clone_nodes received) held
        (clone_nodes-HasUp h received up)
