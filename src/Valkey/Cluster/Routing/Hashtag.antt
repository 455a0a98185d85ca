-- ===== src/Valkey/Cluster/Routing/Hashtag.antt =====
-- The slots of keys with a hash tag.
use shotover_proxy.Prelude.{
  ℕ, suc, ◌+◌, ◌-◌, ◌%◌, ◌≡◌, ◌≢◌, refl, [], ◌∷◌, ◌++◌, Bytes, none, some, arith, length, take,
  drop, All, take-append_exact, drop-append_exact,
}
use shotover_proxy.Valkey.Frame.{bulk_string}
use shotover_proxy.Valkey.Cluster.Routing.{
  slot_size, slot, position, nonempty, get_hashtag, for_key,
}

-- The first place of `b` behind a text without it.
position_first :
    (b : ℕ) (front back : Bytes)
    → All (λ x. x ≢ b) front
    → position b (front ++ (b ∷ back)) ≡ some (length front)
unfolding position
position_first b [] back h = ground arith
position_first b (x ∷ front) back h = rw (position_first b front back h.1) (ground arith)

position-none : (b : ℕ) (xs : Bytes) → All (λ x. x ≢ b) xs → position b xs ≡ none
unfolding position
position-none b [] h = refl
position-none b (x ∷ xs) h = rw (position-none b xs h.1) (ground arith)

drop_next :
    (front : Bytes) (x : ℕ) (back : Bytes) → drop (length front + 1) (front ++ (x ∷ back)) ≡ back
drop_next [] x back = refl
drop_next (y ∷ front) x back =
    let e : length (y ∷ front) + 1 ≡ suc (length front + 1) = omega arith in
    rw e (drop_next front x back)

nonempty_lem : (tag : Bytes) → tag ≢ [] → nonempty tag ≡ some tag
nonempty_lem [] h = absurd (h refl)
nonempty_lem (x ∷ tag) h = refl

-- `{`, the tag, `}` and what follows, behind a text without `{`.
abbrev pub tagged : Bytes → Bytes → Bytes → Bytes
tagged front tag back = front ++ (b'{' ∷ (tag ++ (b'}' ∷ back)))

-- The tag of a key: what stands between the first `{` and the first `}` behind it, if that is not
-- empty.
get_hashtag-tagged :
    (front tag back : Bytes)
    → All (λ x. x ≢ b'{') front
    → All (λ x. x ≢ b'}') tag
    → tag ≢ []
    → get_hashtag (tagged front tag back) ≡ some tag
unfolding get_hashtag
get_hashtag-tagged front tag back hf ht ne =
    let rest : Bytes = b'{' ∷ (tag ++ (b'}' ∷ back)) in
    let at : position b'{' (front ++ rest) ≡ some (length front) = position_first b'{' front _ hf in
    let cut : drop (length front) (front ++ rest) ≡ rest = drop-append_exact front rest _ refl in
    let close : position b'}' rest ≡ some (suc (length tag)) =
      position_first b'}' (b'{' ∷ tag) back (omega arith, ht) in
    let from : drop (length front + 1) (front ++ rest) ≡ tag ++ (b'}' ∷ back) =
      drop_next front b'{' (tag ++ (b'}' ∷ back)) in
    let size : length front + suc (length tag) - (length front + 1) ≡ length tag = omega arith in
    let kept : take (length tag) (tag ++ (b'}' ∷ back)) ≡ tag =
      take-append_exact tag _ (length tag) refl in
    rw (at, cut, close, from, size, kept) (nonempty_lem tag ne)

-- For every hash function and every key of the form `front{tag}back` with no `{` in the front, no `}`
-- in the tag and a tag that is not empty: the command is routed to the slot that the hash of the tag
-- alone gives, whatever the front and the back.
pub for_key-tagged :
    (crc16 : Bytes → ℕ) (front tag back : Bytes)
    → All (λ x. x ≢ b'{') front
    → All (λ x. x ≢ b'}') tag
    → tag ≢ []
    → for_key crc16 (bulk_string (tagged front tag back)) ≡ some (slot (crc16 tag % slot_size))
unfolding for_key
for_key-tagged crc16 front tag back hf ht ne = rw (get_hashtag-tagged front tag back hf ht ne) refl
