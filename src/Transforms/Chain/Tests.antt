-- ===== src/Transforms/Chain/Tests.antt =====
-- A filter and a sink.
use shotover_proxy.Prelude.{◌≡◌, ◌↔◌, true, false, [], ◌∷◌, Bytes, codes}
use shotover_proxy.Transforms.Chain.{Builder, validate}
use shotover_proxy.Transforms.Chain.Order.{IsChain, validate-IsChain}

abbrev plain : Bytes → Bytes
plain name = name

abbrev filter : Builder
filter = record {
  type_name = codes "QueryTypeFilter";
  name = codes "f";
  is_terminating = false;
  errors = [];
}

abbrev sink : Builder
sink = record { type_name = codes "NullSink"; name = codes "n"; is_terminating = true; errors = [] }

validate-IsChain_example :
    (validate plain (codes "main") (filter ∷ sink ∷ []) ≡ []) ↔ IsChain (filter ∷ sink ∷ [])
validate-IsChain_example = validate-IsChain plain (codes "main") (filter ∷ sink ∷ [])
