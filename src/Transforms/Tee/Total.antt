-- ===== src/Transforms/Tee/Total.antt =====
-- The loop over both queues ends, and no queue that it takes from is empty.
use shotover_proxy.Prelude.{◌≡◌, Bool, Result, ok}
use shotover_proxy.Message.Frame.{Protocols}
use shotover_proxy.Message.State.{Message}

module _ (P : Protocols) (differs : Message P → Message P → Bool) {S : Type 0}
    (on_mismatch : S → Message P → Message P → Result (S × Message P)) where
  abbrev Returns : {A : Type 0} → Result A → Type 0
  Returns {A} r = (a : A) × (r ≡ ok a)
