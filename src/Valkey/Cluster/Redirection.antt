-- ===== src/Valkey/Cluster/Redirection.antt =====
-- `Redirection::parse`: the `MOVED` and `ASK` errors of a valkey node.
use shotover_proxy.Prelude.{
  ℕ, suc, ◌+◌, ◌-◌, ◌*◌, ◌^◌, ◌≡◌, ◌≢◌, refl, true, false, ◌&&◌, List, [], ◌∷◌, ◌++◌, Bytes, codes,
  bytes_eq, Option, none, some, leb, ltb, ◌==◌, ◌<◌, ◌≤◌, ◌/◌, ◌%◌, if◌then◌else◌, All, All-append,
  arith, ◌∙◌, ap, zero, digits, Bool-cases, inl, inr,
}
use native.Mathlib.Nat as M
use shotover_proxy.Valkey.Frame.{ValkeyFrame, error}

pub data Redirection : Type 0 where
  moved ask : ℕ → Bytes → Redirection

-- `err.split(' ')`
abbrev add_front : ℕ → List Bytes → List Bytes
add_front x [] = (x ∷ []) ∷ []
add_front x (t ∷ ts) = (x ∷ t) ∷ ts

pub split_spaces : Bytes → List Bytes
split_spaces [] = [] ∷ []
split_spaces (x ∷ xs) =
    let rest = split_spaces xs in if x == b' ' then [] ∷ rest else add_front x rest

-- `str::parse::<u16>`: a plus sign if any, one or more digits, and a value that fits.
abbrev next_digit : Option ℕ → ℕ → Option ℕ
next_digit none b = none
next_digit (some n) b =
    if leb b'0' b && leb b b'9'
    then (if ltb (n * 10 + (b - b'0')) (2 ^ 16) then some (n * 10 + (b - b'0')) else none)
    else none

unfoldable pub parse_digits : Option ℕ → Bytes → Option ℕ
parse_digits acc [] = acc
parse_digits acc (b ∷ bs) = parse_digits (next_digit acc b) bs

abbrev pub digits_of : Bytes → Option ℕ
digits_of [] = none
digits_of (b ∷ bs) = parse_digits (some 0) (b ∷ bs)

pub parse_u16 : Bytes → Option ℕ
unfolding parse_digits
parse_u16 [] = none
parse_u16 (b ∷ bs) = if b == b'+' then digits_of bs else digits_of (b ∷ bs)

-- `slot: tokens.next()?.parse().ok()?, server: tokens.next()?.to_owned()`
abbrev with_slot : (ℕ → Bytes → Redirection) → Option ℕ → Bytes → Option Redirection
with_slot kind none server = none
with_slot kind (some slot) server = some (kind slot server)

abbrev operands : (ℕ → Bytes → Redirection) → List Bytes → Option Redirection
operands kind (slot ∷ server ∷ rest) = with_slot kind (parse_u16 slot) server
operands kind _ = none

abbrev of_tokens : List Bytes → Option Redirection
of_tokens [] = none
of_tokens (kind ∷ rest) =
    if bytes_eq kind (codes "MOVED")
    then operands moved rest
    else if bytes_eq kind (codes "ASK")
    then operands ask rest
    else none

unfoldable pub parse : ValkeyFrame → Option Redirection
unfolding bytes_eq split_spaces parse_u16
parse (error err) = of_tokens (split_spaces err)
parse _ = none

split_spaces_word :
    (word rest : Bytes)
    → All (λ x. x ≢ b' ') word
    → split_spaces (word ++ (b' ' ∷ rest)) ≡ word ∷ split_spaces rest
unfolding split_spaces
split_spaces_word [] rest h = refl
split_spaces_word (x ∷ word) rest h =
    let no : (x == b' ') ≡ false = ground arith in rw (no, split_spaces_word word rest h.1) refl

split_spaces_last : (word : Bytes) → All (λ x. x ≢ b' ') word → split_spaces word ≡ word ∷ []
unfolding split_spaces
split_spaces_last [] h = refl
split_spaces_last (x ∷ word) h =
    let no : (x == b' ') ≡ false = ground arith in rw (no, split_spaces_last word h.1) refl

parse_digits-snoc :
    (xs : Bytes) (b : ℕ) (acc : Option ℕ)
    → parse_digits acc (xs ++ (b ∷ [])) ≡ next_digit (parse_digits acc xs) b
unfolding parse_digits
parse_digits-snoc [] b acc = refl
parse_digits-snoc (x ∷ xs) b acc = parse_digits-snoc xs b (next_digit acc x)

parse_digits-digits :
    (f n : ℕ) → n < 10 ^ suc f → n < 2 ^ 16 → parse_digits (some 0) (digits (suc f) n) ≡ some n
unfolding digits
parse_digits-digits zero n h k =
    let small : ltb n 10 ≡ true = ground arith in rw small (unfold parse_digits in ground arith)
parse_digits-digits (suc f) n h k = elim (Bool-cases (ltb n 10)) [
  | inl small ↦ rw small (unfold parse_digits in ground arith)
  | inr large ↦
      let grow : 10 ^ suc (suc f) ≡ 10 ^ suc f * 10 = M.pow-suc 10 (suc f) in
      let less : n / 10 < 10 ^ suc f = omega arith in
      rw
        (
          large,
          parse_digits-snoc (digits (suc f) (n / 10)) (b'0' + n % 10) (some 0),
          parse_digits-digits f (n / 10) less (omega arith),
        )
        (ground arith)
]

-- Digits only, and at least one of them.
abbrev Digit : ℕ → Type 0
Digit b = (b'0' ≤ b) × (b ≤ b'9')

digits-Digit : (f n : ℕ) → All Digit (digits f n)
unfolding digits
digits-Digit zero n = tt
digits-Digit (suc f) n = elim (Bool-cases (ltb n 10)) [
  | inl small ↦ let low : n < 10 = ground arith in rw small ((omega arith, omega arith), tt)
  | inr large ↦ rw large (
      All-append Digit (digits f (n / 10)) _ (digits-Digit f (n / 10))
        ((omega arith, omega arith), tt))
]

-- A text of digits begins with no sign.
parse_u16_lem : (bs : Bytes) → All Digit bs → parse_u16 bs ≡ digits_of bs
unfolding parse_u16
parse_u16_lem [] h = refl
parse_u16_lem (b ∷ bs) h = let no : (b == b'+') ≡ false = ground arith in rw no refl

digits_of-snoc :
    (xs : Bytes) (b : ℕ) → digits_of (xs ++ (b ∷ [])) ≡ parse_digits (some 0) (xs ++ (b ∷ []))
digits_of-snoc [] b = refl
digits_of-snoc (x ∷ xs) b = refl

digits_of-digits :
    (f n : ℕ) → digits_of (digits (suc f) n) ≡ parse_digits (some 0) (digits (suc f) n)
unfolding digits
digits_of-digits f n = elim (Bool-cases (ltb n 10)) [
  | inl small ↦ rw small refl
  | inr large ↦ rw large (digits_of-snoc (digits f (n / 10)) _)
]

parse_u16-digits : (n : ℕ) → n < 2 ^ 16 → parse_u16 (digits 5 n) ≡ some n
parse_u16-digits n h =
    parse_u16_lem (digits 5 n) (digits-Digit 5 n)
    ∙ (digits_of-digits 4 n ∙ parse_digits-digits 4 n (omega arith) h)

-- `kind slot server`, as a node prints it.
abbrev pub redirection_error : Bytes → ℕ → Bytes → ValkeyFrame
redirection_error kind n server = error (kind ++ (b' ' ∷ (digits 5 n ++ (b' ' ∷ server))))

Digit-not_space : (bs : Bytes) → All Digit bs → All (λ x. x ≢ b' ') bs
Digit-not_space [] h = tt
Digit-not_space (b ∷ bs) h = (omega arith, Digit-not_space bs h.1)

split_spaces-redirection :
    (kind : Bytes) (n : ℕ) (server : Bytes)
    → All (λ x. x ≢ b' ') kind
    → All (λ x. x ≢ b' ') server
    → split_spaces (kind ++ (b' ' ∷ (digits 5 n ++ (b' ' ∷ server))))
      ≡ kind ∷ digits 5 n ∷ server ∷ []
split_spaces-redirection kind n server hk hs =
    split_spaces_word kind _ hk
    ∙ ap (λ (ts : List Bytes). kind ∷ ts)
        (split_spaces_word (digits 5 n) server (Digit-not_space (digits 5 n) (digits-Digit 5 n))
          ∙ ap (λ (ts : List Bytes). digits 5 n ∷ ts) (split_spaces_last server hs))

-- For every 16 bit slot, and every address without a space: the texts `MOVED slot address` and
-- `ASK slot address`, with the slot in decimal, are parsed to the redirection they name, with that
-- slot and that address.
pub parse-redirection_error :
    (n : ℕ) (server : Bytes)
    → n < 2 ^ 16
    → All (λ x. x ≢ b' ') server
    → (parse (redirection_error (codes "MOVED") n server) ≡ some (moved n server))
      × (parse (redirection_error (codes "ASK") n server) ≡ some (ask n server))
unfolding parse
parse-redirection_error n server h hs = (
  ap of_tokens (split_spaces-redirection (codes "MOVED") n server (grind arith) hs)
      ∙ ap (λ (s : Option ℕ). with_slot moved s server) (parse_u16-digits n h),
  ap of_tokens (split_spaces-redirection (codes "ASK") n server (grind arith) hs)
      ∙ ap (λ (s : Option ℕ). with_slot ask s server) (parse_u16-digits n h),
)
