-- ===== src/Cassandra/Murmur/Blocks.antt =====
-- What the hash means, with no buffer: the message cut into blocks of 16 bytes and a tail.
use shotover_proxy.Prelude.{
  ℕ, zero, suc, ◌-◌, ◌*◌, ◌/◌, ◌≤◌, ◌≡◌, refl, ap, [], ◌∷◌, ◌++◌, Bytes, arith, length, take, drop,
  replicate, drop-append_exact,
}
use shotover_proxy.Cassandra.Murmur.{Hasher, new, hash_16_bytes, absorb, finish}

-- The state behind `n` blocks of the message.
unfoldable pub blocks : ℕ → Bytes → Hasher
blocks zero m = new
blocks (suc n) m = absorb (blocks n m) (take 16 (drop (16 * n) m))

-- The token of a whole message: absorb its blocks, pad the tail by zeros, finish.
unfoldable pub murmur3 : Bytes → ℕ
unfolding blocks
murmur3 m =
    let n = length m / 16 in
    let tail = drop (16 * n) m in
    let buf = tail ++ replicate (16 - length tail) 0 in
    finish (record (blocks n m) { total_len = length m; buf = buf })

drop-append : (n : ℕ) (xs ys : Bytes) → n ≤ length xs → drop n (xs ++ ys) ≡ drop n xs ++ ys
drop-append zero xs ys h = refl
drop-append (suc n) [] ys h = absurd (omega arith)
drop-append (suc n) (x ∷ xs) ys h = drop-append n xs ys (omega arith)

take-append : (n : ℕ) (xs ys : Bytes) → n ≤ length xs → take n (xs ++ ys) ≡ take n xs
take-append zero xs ys h = refl
take-append (suc n) [] ys h = absurd (omega arith)
take-append (suc n) (x ∷ xs) ys h = ap (◌∷◌ x) (take-append n xs ys (omega arith))

length-drop' : (n : ℕ) (xs : Bytes) → length (drop n xs) ≡ length xs - n
length-drop' zero xs = omega arith
length-drop' (suc n) [] = omega arith
length-drop' (suc n) (x ∷ xs) = omega (arith, length-drop' n xs)

pub take_whole : (n : ℕ) (xs : Bytes) → length xs ≡ n → take n xs ≡ xs
take_whole zero [] h = refl
take_whole zero (x ∷ xs) h = absurd (omega arith)
take_whole (suc n) [] h = refl
take_whole (suc n) (x ∷ xs) h = ap (◌∷◌ x) (take_whole n xs (omega arith))

-- What follows the blocks does not change them.
pub blocks-append : (n : ℕ) (m p : Bytes) → 16 * n ≤ length m → blocks n (m ++ p) ≡ blocks n m
unfolding blocks
blocks-append zero m p h = refl
blocks-append (suc n) m p h = rw (
  blocks-append n m p (omega arith),
  drop-append (16 * n) m p (omega arith),
  take-append 16 (drop (16 * n) m) p (omega (arith, length-drop' (16 * n) m)),
)

-- One more block.
pub blocks-suc :
    (n : ℕ) (m b : Bytes)
    → length m ≡ 16 * n
    → length b ≡ 16
    → blocks (suc n) (m ++ b) ≡ absorb (blocks n m) b
unfolding blocks
blocks-suc n m b hm hb =
    rw (blocks-append n m b (omega arith), drop-append_exact m b (16 * n) hm, take_whole 16 b hb)

-- The two running words of two states agree.
abbrev pub SameWords : Hasher → Hasher → Type 0
SameWords h g = (h.h1 ≡ g.h1) × (h.h2 ≡ g.h2)

-- A block changes the words as a function of the words, and nothing else.
pub absorb-SameWords :
    (h g : Hasher) (b : Bytes) → SameWords h g → SameWords (absorb h b) (absorb g b)
unfolding absorb hash_16_bytes
absorb-SameWords h g b (p, q) = (cc, cc)

pub absorb_rest :
    (h : Hasher) (b : Bytes) → ((absorb h b).buf ≡ h.buf) × ((absorb h b).total_len ≡ h.total_len)
unfolding absorb hash_16_bytes
absorb_rest h b = (refl, refl)
