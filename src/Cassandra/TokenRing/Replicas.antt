-- ===== src/Cassandra/TokenRing/Replicas.antt =====
-- The hosts that the walk along the ring returns.
use shotover_proxy.Prelude.{
  ℕ, zero, suc, ◌≤◌, ◌≡◌, ◌≢◌, refl, ap, ◌⊎◌, inl, inr, true, false, List, [], ◌∷◌, ◌++◌, map,
  Bytes, Option, none, some, ok, ◌>>=◌, arith, bytes_eq, bytes_eq_refl, if◌then◌else◌, length, take,
  anyb, All, append_assoc, Bool-cases,
}
use shotover_proxy.Cassandra.TokenRing.{
  CassandraNode, ReplicationStrategy, simple_strategy, local_strategy, unknown,
  network_topology_strategy, find_node, accept, walk, cons_result,
}

-- `xs` is `ys` with some entries left out.
pub data Sub : List ℕ → List ℕ → Type 0 where
  done : (ys : List ℕ) → Sub [] ys
  skip : {xs ys : List ℕ} (y : ℕ) → Sub xs ys → Sub xs (y ∷ ys)
  same : {xs ys : List ℕ} (x : ℕ) → Sub xs ys → Sub (x ∷ xs) (x ∷ ys)

anyb-append :
    (a : Bytes) (xs ys : List Bytes)
    → anyb (bytes_eq a) xs ≡ true
    → anyb (bytes_eq a) (xs ++ ys) ≡ true
anyb-append a [] ys h = ground arith
anyb-append a (x ∷ xs) ys h = ground (arith, anyb-append a xs ys)

anyb_middle : (a : Bytes) (xs ys : List Bytes) → anyb (bytes_eq a) (xs ++ a ∷ ys) ≡ true
anyb_middle a [] ys = ground (arith, bytes_eq_refl a)
anyb_middle a (x ∷ xs) ys = ground (arith, anyb_middle a xs ys)

module _ {C : Type 0} (nodes : List (CassandraNode C)) where
  -- A host is a node.
  abbrev pub Known : ℕ → Type 0
  Known id = (node : CassandraNode C) × (find_node nodes id ≡ some node)

  abbrev pub rack_or : Option (CassandraNode C) → Bytes
  rack_or none = []
  rack_or (some node) = node.rack

  -- The rack of a host.
  abbrev pub rack_of : ℕ → Bytes
  rack_of id = rack_or (find_node nodes id)

  -- The racks of the hosts are not among `used`, and differ from one another.
  abbrev pub FreshRacks : List Bytes → List ℕ → Type 0
  FreshRacks used [] = Unit {0}
  FreshRacks used (id ∷ ids) =
      (anyb (bytes_eq (rack_of id)) used ≡ false) × FreshRacks (used ++ rack_of id ∷ []) ids

  -- The rack of a host is among these.
  abbrev pub Covered : List Bytes → ℕ → Type 0
  Covered racks id = anyb (bytes_eq (rack_of id)) racks ≡ true

  -- What the walk returns from `ids` when `n` hosts are still wanted and `used` are the racks so far.
  pub record Picked (ids : List ℕ) (n : ℕ) (used : List Bytes) : Type 0 where
    pub hosts : List ℕ
    pub returned : walk network_topology_strategy nodes ids n used ≡ ok hosts
    pub in_order : Sub hosts ids
    pub bounded : length hosts ≤ n
    pub fresh : FreshRacks used hosts
    pub complete : (length hosts ≡ n) ⊎ All (Covered (used ++ map rack_of hosts)) ids

  accept_found :
      (id : ℕ) (used : List Bytes) (node : CassandraNode C)
      → find_node nodes id ≡ some node
      → accept network_topology_strategy nodes used id ≡ (
          if anyb (bytes_eq (rack_of id)) used
          then ok (false, used)
          else ok (true, used ++ rack_of id ∷ []))
  unfolding accept
  accept_found id used node e = rw (e, accept) refl

  pub walk-Picked : (ids : List ℕ) (n : ℕ) (used : List Bytes) → All Known ids → Picked ids n used
  unfolding walk
  walk-Picked [] n used k = record {
    hosts = [];
    returned = refl;
    in_order = done [];
    bounded = omega arith;
    fresh = tt;
    complete = inr tt;
  }
  walk-Picked (id ∷ ids) zero used k = record {
    hosts = [];
    returned = refl;
    in_order = done (id ∷ ids);
    bounded = omega arith;
    fresh = tt;
    complete = inl refl;
  }
  walk-Picked (id ∷ ids) (suc n) used k = elim (Bool-cases (anyb (bytes_eq (rack_of id)) used)) [
    | inl seen ↦
        let p = walk-Picked ids (suc n) used k.1 in
        record {
          hosts = p.hosts;
          returned = rw (accept_found id used (k.0).0 (k.0).1, seen, ◌>>=◌) p.returned;
          in_order = skip id p.in_order;
          bounded = p.bounded;
          fresh = p.fresh;
          complete = elim p.complete [
            | inl full ↦ inl full
            | inr all ↦ inr (anyb-append (rack_of id) used (map rack_of p.hosts) seen, all)
          ];
        }
    | inr unseen ↦
        let p = walk-Picked ids n (used ++ rack_of id ∷ []) k.1 in
        record {
          hosts = id ∷ p.hosts;
          returned =
              rw (accept_found id used (k.0).0 (k.0).1, unseen, ◌>>=◌, p.returned, cons_result)
                refl;
          in_order = same id p.in_order;
          bounded = omega (arith, p.bounded);
          fresh = (unseen, p.fresh);
          complete = elim p.complete [
            | inl full ↦ inl (ap suc full)
            | inr all ↦
                inr (anyb_middle (rack_of id) used (map rack_of p.hosts), rw append_assoc at all)
          ];
        }
  ]

  accept_other :
      (s : ReplicationStrategy) (used : List Bytes) (id : ℕ)
      → s ≢ network_topology_strategy
      → accept s nodes used id ≡ ok (true, used)
  unfolding accept
  accept_other simple_strategy used id h = refl
  accept_other network_topology_strategy used id h = absurd (h refl)
  accept_other local_strategy used id h = refl
  accept_other unknown used id h = refl

  -- Any other strategy takes the first hosts of the walk.
  pub walk_other :
      (s : ReplicationStrategy) (ids : List ℕ) (n : ℕ) (used : List Bytes)
      → s ≢ network_topology_strategy
      → walk s nodes ids n used ≡ ok (take n ids)
  unfolding walk
  walk_other s [] zero used h = refl
  walk_other s [] (suc n) used h = refl
  walk_other s (id ∷ ids) zero used h = refl
  walk_other s (id ∷ ids) (suc n) used h =
      rw (accept_other s used id h, ◌>>=◌, walk_other s ids n used h) refl
