-- ===== src/Prelude/Stateful.antt =====
-- A step of a stateful component: from a state to the next one, with a result that may fail. A failed
-- step keeps what it has changed.
use mathlib.Core.Path.{◌≡◌, refl, ap}
use shotover_proxy.Prelude.Results.{Result, ok, err, panic, ok_injective}

abbrev pub Step : Type 0 → Type 0 → Type 0
Step S A = S → S × Result A

-- What comes behind a step, on what it gave.
abbrev pub and_then :
    {S : Type 0} {A : Type 0} {B : Type 0} → S → Result A → (A → Step S B) → S × Result B
and_then s (ok a) f = f a s
and_then s (err e) f = (s, err e)
and_then s panic f = (s, panic)

infixl 5 ◌>>=◌
abbrev pub ◌>>=◌ : {S : Type 0} {A : Type 0} {B : Type 0} → Step S A → (A → Step S B) → Step S B
(m >>= f) s = and_then (m s).0 (m s).1 f

abbrev pub done : {S : Type 0} {A : Type 0} → A → Step S A
done a s = (s, ok a)

-- A result that depends on no state.
abbrev pub result_of : {S : Type 0} {A : Type 0} → Result A → Step S A
result_of r s = (s, r)

abbrev pub modify : {S : Type 0} → (S → S) → Step S (Unit {0})
modify f s = (f s, ok tt)

abbrev pub look : {S : Type 0} {A : Type 0} → (S → A) → Step S A
look f s = (s, ok (f s))

-- A chain of steps that gives a value had one from its first step.
pub and_then_ok :
    {S : Type 0} {A : Type 0} {B : Type 0} (s : S) (r : Result A) (f : A → Step S B) (s' : S)
    (b : B)
    → and_then s r f ≡ (s', ok b)
    → (a : A) × (r ≡ ok a) × (f a s ≡ (s', ok b))
and_then_ok s (ok a) f s' b h = (a, refl, h)
and_then_ok s (err e) f s' b h = let bad : err e ≡ ok b = ap (λ (x : _ × Result _). x.1) h in cc
and_then_ok s panic f s' b h = let bad : panic ≡ ok b = ap (λ (x : _ × Result _). x.1) h in cc

pub step_ok :
    {S : Type 0} {A : Type 0} {B : Type 0} (m : Step S A) (f : A → Step S B) (s s' : S) (b : B)
    → (m >>= f) s ≡ (s', ok b)
    → (s₁ : S) × (a : A) × (m s ≡ (s₁, ok a)) × (f a s₁ ≡ (s', ok b))
step_ok m f s s' b h =
    let (a, e, k) = and_then_ok (m s).0 (m s).1 f s' b h in
    ((m s).0, a, ap (λ (r : Result _). ((m s).0, r)) e, k)

-- Two ends of a step that are the same give the same value.
pub same_value :
    {S : Type 0} {A : Type 0} (s s' : S) (a b : A)
    → ◌≡◌ {A = S × Result A} (s, ok a) (s', ok b)
    → a ≡ b
same_value {S = S} {A = A} s s' a b h = ok_injective a b (ap (λ (x : S × Result A). x.1) h)
