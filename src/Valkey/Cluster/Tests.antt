-- ===== src/Valkey/Cluster/Tests.antt =====
-- A small cluster, and the theorems at it.
use shotover_proxy.Prelude.{
  ℕ, ◌+◌, ◌%◌, ◌^◌, ◌≡◌, ◌*◌, [], ◌∷◌, Bytes, codes, none, some, arith, map,
}
use shotover_proxy.Valkey.Frame.{ValkeyFrame, simple_string, error, bulk_string}
use shotover_proxy.Valkey.Cluster.Routing.{slot, slot_size, for_key, first, answered, collate}
use shotover_proxy.Valkey.Cluster.Routing.Hashtag.{tagged, for_key-tagged}
use shotover_proxy.Valkey.Cluster.Routing.Join.{collate_first}
use shotover_proxy.Valkey.Cluster.Redirection.{
  moved, ask, parse, redirection_error, parse-redirection_error,
}

-- Any hash function will do.
abbrev crc : Bytes → ℕ
crc [] = 0
crc (b ∷ bs) = (b + 31 * crc bs) % 2 ^ 16

for_key-tagged_example :
    for_key crc (bulk_string (tagged (codes "user:") (codes "42") (codes ":name")))
    ≡ some (slot (crc (codes "42") % slot_size))
for_key-tagged_example =
    for_key-tagged crc (codes "user:") (codes "42") (codes ":name") (grind arith) (grind arith)
      (λ e. cc)

abbrev fine : ValkeyFrame
fine = simple_string (codes "OK")

collate_first_example :
    collate first none (map answered (fine ∷ error (codes "LOADING") ∷ [])) ≡ some fine
collate_first_example = collate_first fine (error (codes "LOADING") ∷ [])

parse-redirection_error_example :
    (parse (redirection_error (codes "MOVED") 3999 (codes "127.0.0.1:6381"))
      ≡ some (moved 3999 (codes "127.0.0.1:6381")))
    × (parse (redirection_error (codes "ASK") 3999 (codes "127.0.0.1:6381"))
        ≡ some (ask 3999 (codes "127.0.0.1:6381")))
parse-redirection_error_example =
    parse-redirection_error 3999 (codes "127.0.0.1:6381") (omega arith) (grind arith)
