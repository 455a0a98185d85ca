-- ===== src/Cassandra/Murmur/Buffer.antt =====
-- The words and the buffer of a hasher, against the blocks of a message.
use shotover_proxy.Prelude.{
  ℕ, zero, suc, ◌+◌, ◌*◌, ◌%◌, ◌≤◌, ◌<◌, ◌≡◌, refl, ap, ◌∙◌, inl, inr, [], ◌++◌, Bytes, ok, ◌>>=◌,
  arith, length, take, drop, leb, append_assoc, length-append, length-take, length-drop,
  take-append-drop, take-append_exact, Bool-cases,
}
use shotover_proxy.Cassandra.Murmur.{
  Hasher, absorb, copy_into, hash_whole, bulk, keep, buf_capacity,
}
use shotover_proxy.Cassandra.Murmur.Blocks.{
  blocks, blocks-suc, SameWords, absorb-SameWords, absorb_rest,
}

-- The words of `h` have absorbed `full`, which is `n` blocks long.
pub record Absorbed (h : Hasher) (n : ℕ) (full : Bytes) : Type 0 where
  pub whole : length full ≡ 16 * n
  pub words : SameWords h (blocks n full)
  pub sized : length h.buf ≡ 16

pub absorb-Absorbed :
    (h : Hasher) (n : ℕ) (full b : Bytes)
    → Absorbed h n full
    → length b ≡ 16
    → Absorbed (absorb h b) (suc n) (full ++ b)
absorb-Absorbed h n full b a hb = record {
  whole = omega (arith, length-append full b, a.whole);
  words = rw (blocks-suc n full b a.whole hb) (absorb-SameWords h (blocks n full) b a.words);
  sized = ap length (absorb_rest h b).0 ∙ a.sized;
}

-- The hasher stands for the message `m`: whole blocks in the words, the tail in the buffer.
pub record Represents (h : Hasher) (m : Bytes) : Type 0 where
  pub count : ℕ
  pub full : Bytes
  pub tail : Bytes
  pub absorbed : Absorbed h count full
  pub split : full ++ tail ≡ m
  pub short : length tail < 16
  pub counted : h.total_len ≡ length m
  pub kept : take (length tail) h.buf ≡ tail

-- A write at `at` that fits keeps the front, and the size.
pub copy_into_fits :
    (buf src : Bytes) (at : ℕ)
    → at + length src ≤ length buf
    → (r : Bytes) × (copy_into buf at src ≡ ok r)
      × (length r ≡ length buf)
      × (take (at + length src) r ≡ take at buf ++ src)
unfolding copy_into
copy_into_fits buf src at h =
    let back = drop (at + length src) buf in
    let front : length (take at buf) ≡ at = omega (arith, length-take at buf) in
    (
      take at buf ++ (src ++ back),
      ground arith,
      omega (
        arith,
        length-append (take at buf) (src ++ back),
        length-append src back,
        length-drop (at + length src) buf,
        front,
      ),
      rw (← append_assoc (take at buf) src back) (
          take-append_exact (take at buf ++ src) back _
            (omega (arith, length-append (take at buf) src, front))),
    )

-- The loop over whole blocks ends with less than a block left, and loses nothing.
pub hash_whole_lem :
    (fuel : ℕ) (h : Hasher) (p : Bytes) (n : ℕ) (full : Bytes)
    → length p ≤ fuel
    → Absorbed h n full
    → (k : ℕ) × (front : Bytes) × Absorbed (hash_whole fuel h p).0 k front
      × (front ++ (hash_whole fuel h p).1 ≡ full ++ p)
      × (length (hash_whole fuel h p).1 < 16)
      × ((hash_whole fuel h p).0.total_len ≡ h.total_len)
unfolding hash_whole
hash_whole_lem zero h p n full e a = (n, full, a, refl, omega arith, refl)
hash_whole_lem (suc fuel) h p n full e a = elim (Bool-cases (leb buf_capacity (length p))) [
  | inl more ↦
      let size : 16 ≤ length p = ground arith in
      let block : length (take 16 p) ≡ 16 = omega (arith, length-take 16 p) in
      let (k, front, b, eq, lt, tot) =
        hash_whole_lem fuel (absorb h (take 16 p)) (drop 16 p) (suc n) (full ++ take 16 p)
          (omega (arith, length-drop 16 p)) (absorb-Absorbed h n full (take 16 p) a block) in
      rw (more, hash_whole)
        (
          k,
          front,
          b,
          eq ∙ append_assoc full (take 16 p) (drop 16 p) ∙ ap (◌++◌ full) (take-append-drop 16 p),
          lt,
          tot ∙ (absorb_rest h (take 16 p)).1,
        )
  | inr done ↦ rw (done, hash_whole) (n, full, a, refl, ground arith, refl)
]

-- The third phase, over a buffer that already holds `tail`.
pub keep_lem :
    (h : Hasher) (n : ℕ) (full tail rest : Bytes)
    → Absorbed h n full
    → take (length tail) h.buf ≡ tail
    → length tail + length rest < 16
    → h.total_len ≡ length full + (length tail + length rest)
    → (r : Hasher) × (keep h (length tail) rest ≡ ok r) × Represents r (full ++ (tail ++ rest))
unfolding keep
keep_lem h n full tail rest a kept lt tot =
    let (buf, eq, size, front) = copy_into_fits h.buf rest (length tail) (omega (arith, a.sized)) in
    let both : length (tail ++ rest) ≡ length tail + length rest = length-append tail rest in
    let r : Hasher = record h { buf = buf } in
    (
      r,
      rw (eq, ◌>>=◌),
      record {
        count = n;
        full = full;
        tail = tail ++ rest;
        absorbed = record { whole = a.whole; words = a.words; sized = size ∙ a.sized };
        split = refl;
        short = omega (arith, both);
        counted = omega (arith, tot, both, length-append full (tail ++ rest));
        kept = rw both (front ∙ ap (λ t. t ++ rest) kept);
      },
    )

-- The second and the third phase from an empty buffer.
pub flush_lem :
    (h : Hasher) (n : ℕ) (full p : Bytes)
    → Absorbed h n full
    → h.total_len ≡ length full + length p
    → (r : Hasher) × (keep (bulk h 0 p).0 0 (bulk h 0 p).1 ≡ ok r) × Represents r (full ++ p)
unfolding bulk
flush_lem h n full p a tot =
    let (k, front, b, eq, lt, same) = hash_whole_lem (length p) h p n full (omega arith) a in
    let rest : Bytes = (hash_whole (length p) h p).1 in
    let (r, e, rep) =
      keep_lem (hash_whole (length p) h p).0 k front [] rest b refl (omega (arith, lt)) (
        omega (
          arith,
          same,
          tot,
          length-append full p,
          length-append front rest,
          ap (λ (l : Bytes). length l) eq,
        )) in
    (r, e, rw (← eq) rep)

pub buffered : (h : Hasher) (m : Bytes) (r : Represents h m) → h.total_len % 16 ≡ length r.tail
buffered h m r = omega (
  arith,
  r.counted,
  r.absorbed.whole,
  r.short,
  length-append r.full r.tail,
  ap (λ (l : Bytes). length l) r.split,
)
