-- ===== src/Valkey/Cluster/Slots/Tests.antt =====
-- Three masters, and the theorems at them.
use shotover_proxy.Prelude.{
  ◌≡◌, refl, List, [], ◌∷◌, codes, some, ok, arith, map, is_utf8, inl, inr,
}
use shotover_proxy.Valkey.Cluster.Slots.{
  Entry, SlotMap, from_entries, master_of, moved, range_first,
}
use shotover_proxy.Valkey.Cluster.Slots.Lookup.{
  Disjoint, AllOrdered, master_of-from_entries, master_of-moved_below,
}
use shotover_proxy.Valkey.Cluster.Slots.Parse.{
  Range, IsRange, range_frame, parse_slots, master_entries, replica_entries,
  parse_slots-range_frame,
}

abbrev low : Entry
low = record { host = codes "10.0.0.1:6379"; start = 0; stop = 5460 }

abbrev high : Entry
high = record { host = codes "10.0.0.2:6379"; start = 5461; stop = 16383 }

abbrev masters : List Entry
masters = high ∷ low ∷ []

masters-Disjoint : Disjoint masters
masters-Disjoint x y (inl e) (inl f) = inl cc
masters-Disjoint x y (inl e) (inr (inl f)) = inr (inr (rw (e, f) (omega arith)))
masters-Disjoint x y (inr (inl e)) (inl f) = inr (inl (rw (e, f) (omega arith)))
masters-Disjoint x y (inr (inl e)) (inr (inl f)) = inl cc
masters-Disjoint x y _ (inr (inr f)) = absurd f
masters-Disjoint x y (inr (inr e)) _ = absurd e

masters-AllOrdered : AllOrdered masters
masters-AllOrdered x (inl e) = rw e (omega arith)
masters-AllOrdered x (inr (inl e)) = rw e (omega arith)
masters-AllOrdered x (inr (inr e)) = absurd e

master_of-from_entries_example :
    master_of (from_entries masters []) 5460 ≡ some (codes "10.0.0.1:6379")
master_of-from_entries_example =
    master_of-from_entries masters [] low 5460 masters-Disjoint masters-AllOrdered (inr (inl refl))
      (omega arith) (omega arith)

abbrev cluster : SlotMap
cluster = record {
  masters = (5460, codes "10.0.0.1:6379") ∷ (16383, codes "10.0.0.2:6379") ∷ [];
  replicas = [];
  nodes = codes "10.0.0.1:6379" ∷ codes "10.0.0.2:6379" ∷ [];
}

same_master : range_first 7 cluster.masters ≡ range_first 3999 cluster.masters
unfolding range_first
same_master = refl

master_of-moved_below_example :
    master_of (moved 3999 (codes "10.0.0.2:6379") cluster) 7 ≡ some (codes "10.0.0.2:6379")
master_of-moved_below_example =
    master_of-moved_below 3999 (codes "10.0.0.2:6379") cluster 7 (omega arith) same_master

abbrev range : Range
range = record {
  start = 0;
  stop = 5460;
  master = (codes "10.0.0.1", 6379);
  replicas = (codes "10.0.0.4", 6379) ∷ [];
}

range-IsRange : IsRange range
unfolding is_utf8
range-IsRange = (omega arith, omega arith, (refl, refl), ((refl, refl), tt))

parse_slots-range_frame_example :
    parse_slots (map range_frame (range ∷ []))
    ≡ ok (from_entries (master_entries (range ∷ [])) (replica_entries (range ∷ [])))
parse_slots-range_frame_example = parse_slots-range_frame range [] (range-IsRange, tt)
