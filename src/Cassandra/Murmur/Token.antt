-- ===== src/Cassandra/Murmur/Token.antt =====
-- `finish` against the hash of a whole message.
use Prim.Native.Nat.{min}
use shotover_proxy.Prelude.{
  ℕ, zero, suc, ◌+◌, ◌-◌, ◌*◌, ◌/◌, ◌%◌, ◌≤◌, ◌<◌, ◌≡◌, refl, sym, ap, ◌∙◌, List, [], ◌∷◌, ◌++◌,
  Bytes, Result, ok, ◌>>=◌, arith, length, take, drop, replicate, append-nil, length-append,
  take-append_exact, drop-append_exact, append_assoc,
}
use shotover_proxy.Cassandra.Murmur.{Hasher, new, write, finish, mix_tail, byte_at}
use shotover_proxy.Cassandra.Murmur.Blocks.{blocks, blocks-append, murmur3, SameWords}
use shotover_proxy.Cassandra.Murmur.Buffer.{Represents}
use shotover_proxy.Cassandra.Murmur.Stream.{write_lem}

byte_at-take : (t i : ℕ) (b : Bytes) → i < t → byte_at (take t b) i ≡ byte_at b i
unfolding byte_at
byte_at-take zero i b h = absurd (omega arith)
byte_at-take (suc t) i [] h = refl
byte_at-take (suc t) zero (x ∷ b) h = refl
byte_at-take (suc t) (suc i) (x ∷ b) h = byte_at-take t i b (omega arith)

mix_tail-take :
    (t start n k : ℕ) (a b : Bytes)
    → take t a ≡ take t b
    → n ≤ t - start
    → mix_tail a start n k ≡ mix_tail b start n k
unfolding mix_tail
mix_tail-take t start zero k a b e h = refl
mix_tail-take t start (suc n) k a b e h =
    let same : byte_at a (start + n) ≡ byte_at b (start + n) =
      sym (byte_at-take t (start + n) a (omega arith))
      ∙ ap (λ (l : Bytes). byte_at l (start + n)) e
      ∙ byte_at-take t (start + n) b (omega arith) in
    rw same (mix_tail-take t start n _ a b e (omega arith))

-- The token depends on the words, the count and the filled part of the buffer alone.
finish_congr :
    (h g : Hasher) (n : ℕ)
    → SameWords h g
    → h.total_len ≡ n
    → g.total_len ≡ n
    → take (n % 16) h.buf ≡ take (n % 16) g.buf
    → finish h ≡ finish g
unfolding finish
finish_congr h g n (p, q) eh eg e =
    let t : ℕ = n % 16 in
    let high = mix_tail-take t 8 (t - 8) 0 h.buf g.buf e (omega arith) in
    let low = mix_tail-take t 0 (min 8 t) 0 h.buf g.buf e (omega arith) in cc (high, low)

-- The token of a hasher that stands for a message is the token of the message.
pub finish-murmur3 : (h : Hasher) (m : Bytes) → Represents h m → finish h ≡ murmur3 m
unfolding murmur3
finish-murmur3 h m r =
    let n = r.count in
    let size : length m ≡ 16 * n + length r.tail = omega (
      arith,
      r.absorbed.whole,
      length-append r.full r.tail,
      ap (λ (l : Bytes). length l) r.split,
    ) in
    let count : length m / 16 ≡ n = omega (arith, size, r.short) in
    let over : length m % 16 ≡ length r.tail = omega (arith, size, r.short) in
    let rest : drop (16 * (length m / 16)) m ≡ r.tail =
      ap (λ (k : ℕ). drop (16 * k) m) count
      ∙ ap (λ (l : Bytes). drop (16 * n) l) (sym r.split)
      ∙ drop-append_exact r.full r.tail (16 * n) r.absorbed.whole in
    let core : blocks (length m / 16) m ≡ blocks n r.full =
      ap (λ (k : ℕ). blocks k m) count
      ∙ ap (λ (l : Bytes). blocks n l) (sym r.split)
      ∙ blocks-append n r.full r.tail (omega (arith, r.absorbed.whole)) in
    let filled : take (length m % 16) h.buf ≡ r.tail = ap (λ (k : ℕ). take k h.buf) over ∙ r.kept in
    let pad : Bytes = replicate (16 - length (drop (16 * (length m / 16)) m)) 0 in
    let padded : take (length m % 16) (drop (16 * (length m / 16)) m ++ pad) ≡ r.tail =
      ap (λ (l : Bytes). take (length m % 16) (l ++ pad)) rest
      ∙ take-append_exact r.tail pad (length m % 16) (sym over) in
    finish_congr h _ (length m)
      (
        r.absorbed.words.0 ∙ ap (λ (g : Hasher). g.h1) (sym core),
        r.absorbed.words.1 ∙ ap (λ (g : Hasher). g.h2) (sym core),
      )
      r.counted refl (filled ∙ sym padded)

-- Several writes in a row, as the routing key makes them.
pub write_all : Hasher → List Bytes → Result Hasher
write_all h [] = ok h
write_all h (p ∷ ps) = do h' ← write h p; write_all h' ps

abbrev pub joined : List Bytes → Bytes
joined [] = []
joined (p ∷ ps) = p ++ joined ps

write_all_lem :
    (h : Hasher) (m : Bytes) (ps : List Bytes)
    → Represents h m
    → (r : Hasher) × (write_all h ps ≡ ok r) × Represents r (m ++ joined ps)
unfolding write_all
write_all_lem h m [] rep = (h, refl, rw append-nil rep)
write_all_lem h m (p ∷ ps) rep =
    let (h', e, rep') = write_lem h m p rep in
    let (r, f, rep'') = write_all_lem h' (m ++ p) ps rep' in
    (r, rw (e, ◌>>=◌) f, rw (← append_assoc m p (joined ps)) rep'')

pub new-Represents : Represents new []
unfolding new blocks
new-Represents = record {
  count = 0;
  full = [];
  tail = [];
  absorbed = record { whole = omega arith; words = (refl, refl); sized = refl };
  split = refl;
  short = omega arith;
  counted = refl;
  kept = refl;
}

-- For every way to cut a message into pieces: writing the pieces to a new hasher does not panic, and
-- `finish` then returns the token of the whole message, computed block by block without a buffer.
pub finish-write_all :
    (ps : List Bytes) → (r : Hasher) × (write_all new ps ≡ ok r) × (finish r ≡ murmur3 (joined ps))
finish-write_all ps =
    let (r, e, rep) = write_all_lem new [] ps new-Represents in
    (r, e, finish-murmur3 r (joined ps) rep)
