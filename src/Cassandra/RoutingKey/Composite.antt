-- ===== src/Cassandra/RoutingKey/Composite.antt =====
-- The routing key against Cassandra's composite encoding of a partition key.
use shotover_proxy.Prelude.{
  ℕ, ◌^◌, ◌<◌, ◌≡◌, refl, ap, true, arith, List, [], ◌∷◌, ◌++◌, Bytes, Option, none, some, Result,
  ok, ◌>>=◌, ltb, length, get_elem?, append_assoc, append-nil,
}
use shotover_proxy.Cassandra.Murmur.{Hasher, new}
use shotover_proxy.Cassandra.Murmur.Blocks.{murmur3}
use shotover_proxy.Cassandra.Murmur.Buffer.{Represents}
use shotover_proxy.Cassandra.Murmur.Stream.{write_lem}
use shotover_proxy.Cassandra.Murmur.Token.{new-Represents, finish-murmur3}
use shotover_proxy.Cassandra.RoutingKey.{
  Value, set, null, not_set, i16_as_usize, be_bytes, finish_all, write_component, component_step,
  write_components, single_column, serialize_routing_key_with_indexes,
}

-- One component: its length in two bytes, the value, a zero.
abbrev pub component : Bytes → Bytes
component value = be_bytes (length value) ++ (value ++ 0 ∷ [])

-- A missing value spoils the key; a null or unset one is skipped.
abbrev pub next_component : Option Bytes → Option Value → Option Bytes
next_component rest none = none
next_component rest (some null) = rest
next_component rest (some not_set) = rest
next_component none (some (set value)) = none
next_component (some rest) (some (set value)) = some (component value ++ rest)

abbrev pub components : List Value → List ℕ → Option Bytes
components values [] = some []
components values (i ∷ is) =
    next_component (components values is) (get_elem? values (i16_as_usize i))

abbrev pub single : Option Value → Option Bytes
single none = none
single (some null) = none
single (some not_set) = none
single (some (set value)) = some value

-- The bytes of the partition key: the bare value of a single column, components of several.
abbrev pub partition_key : List Value → List ℕ → Option Bytes
partition_key values [] = none
partition_key values (i ∷ []) = single (get_elem? values (i16_as_usize i))
partition_key values (i ∷ j ∷ is) = components values (i ∷ j ∷ is)

abbrev pub hash_all : Option Bytes → Option ℕ
hash_all none = none
hash_all (some key) = some (murmur3 key)

write_component_lem :
    (h : Hasher) (m value : Bytes)
    → length value < 2 ^ 16
    → Represents h m
    → (r : Hasher) × (write_component h value ≡ ok r) × Represents r (m ++ component value)
unfolding write_component
write_component_lem h m value short rep =
    let fits : ltb (length value) (2 ^ 16) ≡ true = ground arith in
    let (h1, e1, r1) = write_lem h m (be_bytes (length value)) rep in
    let (h2, e2, r2) = write_lem h1 (m ++ be_bytes (length value)) value r1 in
    let (h3, e3, r3) = write_lem h2 ((m ++ be_bytes (length value)) ++ value) (0 ∷ []) r2 in
    (
      h3,
      rw (fits, e1, ◌>>=◌, e2, ◌>>=◌) e3,
      rw
          (
            ← append_assoc m (be_bytes (length value)) (value ++ 0 ∷ []),
            ← append_assoc (m ++ be_bytes (length value)) value (0 ∷ []),
          )
          r3,
    )

-- A value whose length fits into two bytes, so that it can be a component.
abbrev pub Fits : Option Value → Type 0
Fits (some (set value)) = length value < 2 ^ 16
Fits _ = Unit {0}

-- The values of these columns can all be components.
abbrev pub AllFit : List Value → List ℕ → Type 0
AllFit values [] = Unit {0}
AllFit values (i ∷ is) = Fits (get_elem? values (i16_as_usize i)) × AllFit values is

-- The value of a single column is not a component.
abbrev pub HasPartitionKey : List Value → List ℕ → Type 0
HasPartitionKey values (i ∷ j ∷ is) = AllFit values (i ∷ j ∷ is)
HasPartitionKey values _ = Unit {0}

-- What the loop returns, for a key that is complete or not.
abbrev Writes : Bytes → Option Bytes → Result (Option Hasher) → Type 0
Writes m none r = r ≡ ok none
Writes m (some key) r = (h : Hasher) × (r ≡ ok (some h)) × Represents h (m ++ key)

component_step_lem :
    (rest : Hasher → Result (Option Hasher)) (key : Option Bytes) (h : Hasher) (m : Bytes)
    (v : Option Value)
    → ((g : Hasher) (n : Bytes) → Represents g n → Writes n key (rest g))
    → Fits v
    → Represents h m
    → Writes m (next_component key v) (component_step rest h v)
unfolding component_step
component_step_lem rest key h m none ih short rep = refl
component_step_lem rest key h m (some null) ih short rep = ih h m rep
component_step_lem rest key h m (some not_set) ih short rep = ih h m rep
component_step_lem rest none h m (some (set value)) ih short rep =
    let (g, e, rep') = write_component_lem h m value short rep in
    rw (e, ◌>>=◌) (ih g (m ++ component value) rep')
component_step_lem rest (some key) h m (some (set value)) ih short rep =
    let (g, e, rep') = write_component_lem h m value short rep in
    let (r, f, rep'') = ih g (m ++ component value) rep' in
    (r, rw (e, ◌>>=◌) f, rw (← append_assoc m (component value) key) rep'')

write_components_lem :
    (values : List Value) (is : List ℕ) (h : Hasher) (m : Bytes)
    → AllFit values is
    → Represents h m
    → Writes m (components values is) (write_components values is h)
unfolding write_components
write_components_lem values [] h m short rep = (h, refl, rw append-nil rep)
write_components_lem values (i ∷ is) h m short rep =
    component_step_lem (write_components values is) (components values is) h m
      (get_elem? values (i16_as_usize i)) (λ g n. write_components_lem values is g n short.1)
      short.0 rep

finish-Writes :
    (key : Option Bytes) (r : Result (Option Hasher))
    → Writes [] key r
    → (r >>= λ h. ok (finish_all h)) ≡ ok (hash_all key)
finish-Writes none r e = rw (e, ◌>>=◌) refl
finish-Writes (some key) r (h, e, rep) =
    rw (e, ◌>>=◌) (ap (λ (t : ℕ). ok (some t)) (finish-murmur3 h key rep))

single_column_lem : (v : Option Value) → single_column v ≡ ok (hash_all (single v))
unfolding single_column
single_column_lem none = refl
single_column_lem (some null) = refl
single_column_lem (some not_set) = refl
single_column_lem (some (set value)) =
    let (h, e, rep) = write_lem new [] value new-Represents in
    rw (e, ◌>>=◌) (ap (λ (t : ℕ). ok (some t)) (finish-murmur3 h value rep))

-- For every list of key columns and of values, where each value of a composite key (one of several
-- columns) is shorter than 2^16 bytes: the routing key is the hash of the partition key, which is the
-- bare value of a single column, or the composite encoding of several. It is absent exactly if a value
-- of the key is missing (or the key of a single column is null or unset, or no column is listed).
pub serialize_routing_key-partition_key :
    (values : List Value) (pk_indexes : List ℕ)
    → HasPartitionKey values pk_indexes
    → serialize_routing_key_with_indexes values pk_indexes
      ≡ ok (hash_all (partition_key values pk_indexes))
unfolding serialize_routing_key_with_indexes
serialize_routing_key-partition_key values [] short = refl
serialize_routing_key-partition_key values (i ∷ []) short =
    single_column_lem (get_elem? values (i16_as_usize i))
serialize_routing_key-partition_key values (i ∷ j ∷ is) short =
    finish-Writes (components values (i ∷ j ∷ is)) _
      (write_components_lem values (i ∷ j ∷ is) new [] short new-Represents)
