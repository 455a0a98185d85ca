-- ===== src/Cassandra/Murmur/Tests.antt =====
-- Runs of the hash on the vectors of the scylla driver, which the source cites.
use shotover_proxy.Prelude.{◌-◌, ◌≡◌, refl, [], ◌∷◌, codes, ok}
use shotover_proxy.Cassandra.Murmur.{Hasher, new, mix_tail, byte_at, finish}
use shotover_proxy.Cassandra.Murmur.Blocks.{murmur3}
use shotover_proxy.Cassandra.Murmur.Token.{write_all, finish-write_all}

-- "test" hashes to -6017608668500074083, and "xd" to 4507812186440344727.
test_token : murmur3 (codes "test") ≡ 0x10000_0000_0000_0000 - 6017608668500074083
unfolding murmur3 finish mix_tail byte_at new
test_token = refl

xd_token : murmur3 (codes "xd") ≡ 4507812186440344727
unfolding murmur3 finish mix_tail byte_at new
xd_token = refl

finish-write_all_example :
    (r : Hasher) × (write_all new (codes "te" ∷ codes "st" ∷ []) ≡ ok r)
    × (finish r ≡ murmur3 (codes "test"))
finish-write_all_example = finish-write_all (codes "te" ∷ codes "st" ∷ [])
