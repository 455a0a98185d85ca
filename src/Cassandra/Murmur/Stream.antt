-- ===== src/Cassandra/Murmur/Stream.antt =====
-- The buffered `write` against the blocks of the whole message.
use Prim.Native.Nat.{min}
use shotover_proxy.Prelude.{
  ℕ, suc, ◌+◌, ◌-◌, ◌≤◌, ◌<◌, ◌≡◌, refl, sym, ap, ◌∙◌, inl, inr, [], ◌∷◌, ◌++◌, Bytes, true, false,
  ◌&&◌, Result, ok, ◌>>=◌, arith, length, take, drop, leb, ltb, ◌==◌, append_assoc, length-append,
  length-take, length-drop, take-append-drop, Bool-cases,
}
use shotover_proxy.Cassandra.Murmur.{Hasher, absorb, copy_into, fill, bulk, keep, write}
use shotover_proxy.Cassandra.Murmur.Blocks.{take_whole, absorb_rest}
use shotover_proxy.Cassandra.Murmur.Buffer.{
  Absorbed, absorb-Absorbed, Represents, copy_into_fits, keep_lem, flush_lem, buffered,
}

-- The three phases of `write`, behind the count.
abbrev phases : Hasher → ℕ → Bytes → Result Hasher
phases c at p = do
  (filled, buf_len, rest) ← fill c at p
  let (hashed, rest') = bulk filled buf_len rest
  keep hashed buf_len rest'

-- The input reaches the end of the buffer: the buffer is hashed and the rest follows.
fill_full :
    (c : Hasher) (tail p buf : Bytes)
    → 0 < length tail
    → length tail < 16
    → 16 - length tail ≤ length p
    → copy_into c.buf (length tail) (take (16 - length tail) p) ≡ ok buf
    → fill c (length tail) p
      ≡ ok (absorb (record c { buf = buf }) buf, 0, drop (16 - length tail) p)
unfolding fill
fill_full c tail p buf lo hi fits e =
    let w : min (16 - length tail) (length p) ≡ 16 - length tail = omega arith in
    let t : (ltb 0 (length tail) && leb (16 - length tail) (length p)) ≡ true = ground arith in
    rw (t, w, e)

fill_short :
    (c : Hasher) (at : ℕ) (p : Bytes)
    → (ltb 0 at && leb (16 - at) (length p)) ≡ false
    → fill c at p ≡ ok (c, at, p)
unfolding fill
fill_short c at p h = rw h

reaches :
    (c : Hasher) (n : ℕ) (full tail p : Bytes)
    → Absorbed c n full
    → take (length tail) c.buf ≡ tail
    → 0 < length tail
    → length tail < 16
    → 16 - length tail ≤ length p
    → c.total_len ≡ length full + (length tail + length p)
    → (r : Hasher) × (phases c (length tail) p ≡ ok r) × Represents r (full ++ (tail ++ p))
reaches c n full tail p a kept lo hi fits tot =
    let w : ℕ = 16 - length tail in
    let front : length (take w p) ≡ w = omega (arith, length-take w p) in
    let (buf, eq, size, whole) =
      copy_into_fits c.buf (take w p) (length tail) (omega (arith, front, a.sized)) in
    let buf_is : buf ≡ tail ++ take w p =
      sym (take_whole _ buf (omega (arith, size, front, a.sized)))
      ∙ whole
      ∙ ap (λ (t : Bytes). t ++ take w p) kept in
    let same : (full ++ buf) ++ drop w p ≡ full ++ (tail ++ p) =
      append_assoc full buf (drop w p)
      ∙ ap (λ (b : Bytes). full ++ (b ++ drop w p)) buf_is
      ∙ ap (◌++◌ full)
          (append_assoc tail (take w p) (drop w p) ∙ ap (◌++◌ tail) (take-append-drop w p)) in
    let total : (absorb (record c { buf = buf }) buf).total_len
        ≡ length (full ++ buf) + length (drop w p) =
      omega (
        arith,
        (absorb_rest (record c { buf = buf }) buf).1,
        tot,
        length-append full buf,
        length-drop w p,
        size,
        a.sized,
      ) in
    let b : Absorbed (record c { buf = buf }) n full = record {
      whole = a.whole;
      words = a.words;
      sized = size ∙ a.sized;
    } in
    let next = absorb-Absorbed (record c { buf = buf }) n full buf b (size ∙ a.sized) in
    let (r, e, rep) =
      flush_lem (absorb (record c { buf = buf }) buf) (suc n) (full ++ buf) (drop w p) next total in
    (r, rw (fill_full c tail p buf lo hi fits eq, ◌>>=◌) e, rw (← same) rep)

-- The input stays short of the end of the buffer.
stays_short :
    (c : Hasher) (n : ℕ) (full tail p : Bytes)
    → Absorbed c n full
    → take (length tail) c.buf ≡ tail
    → 0 < length tail
    → length tail + length p < 16
    → c.total_len ≡ length full + (length tail + length p)
    → (r : Hasher) × (phases c (length tail) p ≡ ok r) × Represents r (full ++ (tail ++ p))
unfolding bulk
stays_short c n full tail p a kept lo hi tot =
    let (r, e, rep) = keep_lem c n full tail p a kept hi tot in
    let no_room : (ltb 0 (length tail) && leb (16 - length tail) (length p)) ≡ false =
      ground arith in
    let nonzero : (length tail == 0) ≡ false = ground arith in
    (r, rw (fill_short c (length tail) p no_room, ◌>>=◌, nonzero) e, rep)

phases_lem :
    (c : Hasher) (n : ℕ) (full tail p : Bytes)
    → Absorbed c n full
    → take (length tail) c.buf ≡ tail
    → length tail < 16
    → c.total_len ≡ length full + (length tail + length p)
    → (r : Hasher) × (phases c (length tail) p ≡ ok r) × Represents r (full ++ (tail ++ p))
phases_lem c n full [] p a kept hi tot =
    let (r, e, rep) = flush_lem c n full p a (omega arith) in
    (r, rw (fill_short c 0 p refl, ◌>>=◌) e, rep)
phases_lem c n full (x ∷ t) p a kept hi tot =
    elim (Bool-cases (leb (16 - length (x ∷ t)) (length p))) [
      | inl fits ↦ reaches c n full (x ∷ t) p a kept (omega arith) hi (ground arith) tot
      | inr short ↦ stays_short c n full (x ∷ t) p a kept (omega arith) (ground arith) tot
    ]

-- Writing `p` to a hasher that stands for `m` gives one that stands for `m ++ p`; nothing panics.
pub write_lem :
    (h : Hasher) (m p : Bytes)
    → Represents h m
    → (r : Hasher) × (write h p ≡ ok r) × Represents r (m ++ p)
unfolding write
write_lem h m p rep =
    let c : Hasher = record h { total_len = h.total_len + length p } in
    let a : Absorbed c rep.count rep.full = record {
      whole = rep.absorbed.whole;
      words = rep.absorbed.words;
      sized = rep.absorbed.sized;
    } in
    let total : c.total_len ≡ length rep.full + (length rep.tail + length p) = omega (
      arith,
      rep.counted,
      length-append rep.full rep.tail,
      ap (λ (l : Bytes). length l) rep.split,
    ) in
    let (r, e, s) = phases_lem c rep.count rep.full rep.tail p a rep.kept rep.short total in
    let joined : rep.full ++ (rep.tail ++ p) ≡ m ++ p =
      sym (append_assoc rep.full rep.tail p) ∙ ap (λ (l : Bytes). l ++ p) rep.split in
    (r, rw (buffered h m rep) e, rw (← joined) s)
