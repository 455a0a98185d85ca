-- ===== src/Prelude/Results.antt =====
-- Rust's `anyhow::Result`, with the error as its text, and a third case for a panic.
use Prim.Native.String.{String}
use mathlib.Core.Path.{◌≡◌, refl}
use mathlib.Core.Bool.{Bool, true, false}
use mathlib.Core.List.{List, [], ◌∷◌}
use mathlib.Core.Option.{Option, none, some}

-- `panic` stands for `panic!`, `todo!`, `unimplemented!` and an index out of range.
pub data Result {ℓ} (A : Type ℓ) : Type ℓ where
  ok : A → Result A
  err : String → Result A
  panic : Result A

infixl 5 ◌>>=◌
abbrev pub ◌>>=◌ {ℓ κ} : {A : Type ℓ} {B : Type κ} → Result A → (A → Result B) → Result B
ok a >>= f = f a
err e >>= f = err e
panic >>= f = panic

abbrev pub is_err {ℓ} : {A : Type ℓ} → Result A → Bool
is_err (err e) = true
is_err _ = false

abbrev pub ok_or {ℓ} : {A : Type ℓ} → Option A → String → Result A
ok_or none e = err e
ok_or (some a) e = ok a

-- `iter().map(f).collect::<Result<Vec<_>>>()`: the first error ends it.
unfoldable pub map_results {ℓ κ} :
    {A : Type ℓ} {B : Type κ} → (A → Result B) → List A → Result (List B)
map_results f [] = ok []
map_results f (x ∷ xs) = do y ← f x; ys ← map_results f xs; ok (y ∷ ys)

pub ok_injective {ℓ} : {A : Type ℓ} (a b : A) → ok a ≡ ok b → a ≡ b
ok_injective a b h = cc

-- A chain that gives a value had one from its first part.
pub bind_ok {ℓ κ} :
    {A : Type ℓ} {B : Type κ} (r : Result A) (f : A → Result B) (b : B)
    → (r >>= f) ≡ ok b
    → (a : A) × (r ≡ ok a) × (f a ≡ ok b)
bind_ok (ok a) f b h = (a, refl, h)
bind_ok (err e) f b h = cc
bind_ok panic f b h = cc
