-- ===== src/Cassandra/RoutingKey.antt =====
-- shotover/src/transforms/cassandra/sink_cluster/routing_key.rs: the token of an execute request.
pub mod Composite
mod Tests
use shotover_proxy.Prelude.{
  ℕ, ◌+◌, ◌-◌, ◌/◌, ◌%◌, ◌^◌, List, [], ◌∷◌, Bytes, Option, none, some, Result, ok, panic, ◌>>=◌,
  ltb, if◌then◌else◌, length, get_elem?,
}
use shotover_proxy.Cassandra.Murmur.{Hasher, new, write, finish}

-- cassandra_protocol's `Value` and `QueryValues`, as far as the code looks into them.
pub data Value : Type 0 where
  set : Bytes → Value
  null not_set : Value

pub data QueryValues : Type 0 where
  simple_values : List Value → QueryValues
  named_values : List (Bytes × Value) → QueryValues

-- `*index as usize` of an `i16`, which is given as its pattern of 16 bits.
abbrev pub i16_as_usize : ℕ → ℕ
i16_as_usize i = if ltb i (2 ^ 15) then i else i + 2 ^ 64 - 2 ^ 16

-- `(len as u16).to_be_bytes()`, for a length that fits.
abbrev pub be_bytes : ℕ → Bytes
be_bytes len = len / 256 ∷ len % 256 ∷ []

-- One component of a composite key. A length over 16 bits is logged, and left out.
pub write_component : Hasher → Bytes → Result Hasher
write_component h value = do
  h1 ← if ltb (length value) (2 ^ 16) then write h (be_bytes (length value)) else ok h
  h2 ← write h1 value
  write h2 (0 ∷ [])

-- One round of the loop, on what `values.get` returned: `none` is the early return, and a null or
-- unset value writes nothing. `rest` is the rounds that follow.
pub component_step :
    (Hasher → Result (Option Hasher)) → Hasher → Option Value → Result (Option Hasher)
component_step rest h none = ok none
component_step rest h (some null) = rest h
component_step rest h (some not_set) = rest h
component_step rest h (some (set value)) = do h' ← write_component h value; rest h'

-- `for index in pk_indexes`
pub write_components : List Value → List ℕ → Hasher → Result (Option Hasher)
write_components values [] h = ok (some h)
write_components values (i ∷ is) h =
    component_step (write_components values is) h (get_elem? values (i16_as_usize i))

abbrev pub finish_all : Option Hasher → Option ℕ
finish_all none = none
finish_all (some h) = some (finish h)

-- The key of a single column, on what `values.get` returned.
unfoldable pub single_column : Option Value → Result (Option ℕ)
single_column none = ok none
single_column (some null) = ok none
single_column (some not_set) = ok none
single_column (some (set value)) = do h ← write new value; ok (some (finish h))

unfoldable pub serialize_routing_key_with_indexes : List Value → List ℕ → Result (Option ℕ)
serialize_routing_key_with_indexes values [] = ok none
serialize_routing_key_with_indexes values (i ∷ []) =
    single_column (get_elem? values (i16_as_usize i))
serialize_routing_key_with_indexes values (i ∷ j ∷ is) = do
  h ← write_components values (i ∷ j ∷ is) new
  ok (finish_all h)

unfoldable pub calculate_routing_key : List ℕ → QueryValues → Result (Option ℕ)
calculate_routing_key pk_indexes (simple_values values) =
    serialize_routing_key_with_indexes values pk_indexes
calculate_routing_key pk_indexes (named_values values) = panic
