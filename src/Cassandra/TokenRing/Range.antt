-- ===== src/Cassandra/TokenRing/Range.antt =====
-- The order of the ring, and `ring_range`.
use mathlib.Core.List.{Perm}
use mathlib.Core.List.Perm
use shotover_proxy.Prelude.{
  ℕ, suc, ◌≤◌, ◌<◌, ◌≡◌, ◌≢◌, some, get_elem?, zero, refl, sym, ap, ◌∙◌, inl, inr, ltb, leb, ◌==◌,
  if◌then◌else◌, Bool, true, false, List, [], ◌∷◌, ◌++◌, map, arith, All, length, take, drop,
  length-append, length-take, length-drop, length-map, take-append-drop, take-append_exact,
  append_assoc, Bool-cases,
}
use shotover_proxy.Cassandra.TokenRing.{
  CassandraNode, TokenRing, token_key, insert, sort_by_key, entries, new, Search, found, insert_at,
  next_slot, binary_search, either_index, ring_from, ring_range,
}

abbrev pub Sorted : List ℕ → Type 0
Sorted [] = Unit {0}
Sorted (x ∷ xs) = All (λ y. token_key x ≤ token_key y) xs × Sorted xs

abbrev tokens_of : List (ℕ × ℕ) → List ℕ
tokens_of = map (λ e. e.0)

All-le :
    (a b : ℕ) (ys : List ℕ)
    → token_key a ≤ token_key b
    → All (λ y. token_key b ≤ token_key y) ys
    → All (λ y. token_key a ≤ token_key y) ys
All-le a b [] h k = tt
All-le a b (y ∷ ys) h k = (omega arith, All-le a b ys h k.1)

insert-All :
    (b : ℕ) (x : ℕ × ℕ) (ys : List (ℕ × ℕ))
    → token_key b ≤ token_key (x.0)
    → All (λ y. token_key b ≤ token_key y) (tokens_of ys)
    → All (λ y. token_key b ≤ token_key y) (tokens_of (insert x ys))
unfolding insert
insert-All b x [] h k = (h, tt)
insert-All b x (y ∷ ys) h k = ground (arith, insert-All b x ys h k.1)

insert-Sorted :
    (x : ℕ × ℕ) (ys : List (ℕ × ℕ)) → Sorted (tokens_of ys) → Sorted (tokens_of (insert x ys))
unfolding insert
insert-Sorted x [] h = (tt, tt)
insert-Sorted x (y ∷ ys) h =
    ground (arith, insert-Sorted x ys h.1, insert-All (y.0) x ys, All-le (x.0) (y.0) (tokens_of ys))

sort_by_key-Sorted : (xs : List (ℕ × ℕ)) → Sorted (tokens_of (sort_by_key xs))
unfolding sort_by_key
sort_by_key-Sorted [] = tt
sort_by_key-Sorted (x ∷ xs) = insert-Sorted x (sort_by_key xs) (sort_by_key-Sorted xs)

insert-perm : (x : ℕ × ℕ) (ys : List (ℕ × ℕ)) → Perm (insert x ys) (x ∷ ys)
unfolding insert
insert-perm x [] = Perm.refl _
insert-perm x (y ∷ ys) = elim (Bool-cases (leb (token_key (x.0)) (token_key (y.0)))) [
  | inl le ↦ rw le (Perm.refl _)
  | inr gt ↦ rw gt (Perm.trans (Perm.cons y (insert-perm x ys)) (Perm.swap x y ys))
]

pub sort_by_key-perm : (xs : List (ℕ × ℕ)) → Perm (sort_by_key xs) xs
unfolding sort_by_key
sort_by_key-perm [] = Perm.refl []
sort_by_key-perm (x ∷ xs) =
    Perm.trans (insert-perm x (sort_by_key xs)) (Perm.cons x (sort_by_key-perm xs))

either_index-next_slot : (s : Search) → either_index (next_slot s) ≡ suc (either_index s)
either_index-next_slot (found i) = refl
either_index-next_slot (insert_at i) = refl

-- Both ways to stop at the front give the index 0.
front_index : (b : Bool) → either_index (if b then found 0 else insert_at 0) ≡ 0
front_index true = refl
front_index false = refl

-- On a sorted list the index parts the smaller tokens from the others.
binary_search_lem :
    (xs : List ℕ) (t : ℕ)
    → Sorted xs
    → (either_index (binary_search xs t) ≤ length xs)
      × All (λ y. token_key y < token_key t) (take (either_index (binary_search xs t)) xs)
      × All (λ y. token_key t ≤ token_key y) (drop (either_index (binary_search xs t)) xs)
unfolding binary_search
binary_search_lem [] t s = (omega arith, tt, tt)
binary_search_lem (x ∷ xs) t s = elim (Bool-cases (ltb (token_key x) (token_key t))) [
  | inl lt ↦
      let (le, lo, hi) = binary_search_lem xs t s.1 in
      rw (lt, either_index-next_slot) (omega arith, (ground arith, lo), hi)
  | inr ge ↦
      rw (ge, front_index (token_key x == token_key t))
        (omega arith, tt, (ground arith, All-le t x xs (ground arith) s.0))
]

-- What the documentation of `binary_search_by` says of its answer: a place where the token is, or the
-- place between the smaller and the greater tokens.
abbrev pub IsAnswer : List ℕ → ℕ → Search → Type 0
IsAnswer xs t (found i) = (y : ℕ) × (get_elem? xs i ≡ some y) × (token_key y ≡ token_key t)
IsAnswer xs t (insert_at i) =
    (i ≤ length xs)
    × All (λ y. token_key y < token_key t) (take i xs)
    × All (λ y. token_key t < token_key y) (drop i xs)

-- No two nodes share a token.
abbrev pub AllDiffer : List ℕ → Type 0
AllDiffer [] = Unit {0}
AllDiffer (x ∷ xs) = All (λ y. token_key x ≢ token_key y) xs × AllDiffer xs

All-get_elem : (F : ℕ → Type 0) (xs : List ℕ) (i y : ℕ) → All F xs → get_elem? xs i ≡ some y → F y
All-get_elem F [] i y h e = cc
All-get_elem F (x ∷ xs) zero y h e = let same : x ≡ y = cc in rw (sym same) h.0
All-get_elem F (x ∷ xs) (suc i) y h e = All-get_elem F xs i y h.1 e

-- Where the token is not smaller than the front, every answer is the front.
front_answer :
    (x : ℕ) (xs : List ℕ) (t : ℕ) (r : Search)
    → Sorted (x ∷ xs)
    → AllDiffer (x ∷ xs)
    → token_key t ≤ token_key x
    → IsAnswer (x ∷ xs) t r
    → either_index r ≡ 0
front_answer x xs t (found zero) s d le h = refl
front_answer x xs t (found (suc i)) s d le (y, e, same) =
    let above : token_key x ≤ token_key y =
      All-get_elem (λ z. token_key x ≤ token_key z) xs i y s.0 e in
    let other : token_key x ≢ token_key y =
      All-get_elem (λ z. token_key x ≢ token_key z) xs i y d.0 e in
    absurd (other (omega arith))
front_answer x xs t (insert_at zero) s d le h = refl
front_answer x xs t (insert_at (suc i)) s d le (bound, low, high) = absurd (omega (arith, low.0))

-- Where no token occurs twice there is one answer.
IsAnswer-unique :
    (xs : List ℕ) (t : ℕ) (r : Search)
    → Sorted xs
    → AllDiffer xs
    → IsAnswer xs t r
    → either_index r ≡ either_index (binary_search xs t)
unfolding binary_search
IsAnswer-unique [] t (found i) s d (y, e, same) = cc
IsAnswer-unique [] t (insert_at i) s d (bound, low, high) = omega (arith, bound)
IsAnswer-unique (x ∷ xs) t (found zero) s d (y, e, same) =
    let at : x ≡ y = cc in
    let least : token_key x ≡ token_key t = ap token_key at ∙ same in
    let stop : ltb (token_key x) (token_key t) ≡ false = ground arith in
    rw (stop, front_index (token_key x == token_key t)) refl
IsAnswer-unique (x ∷ xs) t (found (suc i)) s d h =
    elim (Bool-cases (ltb (token_key x) (token_key t))) [
      | inl lt ↦ rw (lt, either_index-next_slot) (ap suc (IsAnswer-unique xs t (found i) s.1 d.1 h))
      | inr ge ↦
          rw (ge, front_index (token_key x == token_key t))
            (front_answer x xs t (found (suc i)) s d (ground arith) h)
    ]
IsAnswer-unique (x ∷ xs) t (insert_at zero) s d (bound, low, high) =
    let stop : ltb (token_key x) (token_key t) ≡ false = ground (arith, high.0) in
    rw (stop, front_index (token_key x == token_key t)) refl
IsAnswer-unique (x ∷ xs) t (insert_at (suc i)) s d (bound, low, high) =
    let more : ltb (token_key x) (token_key t) ≡ true = ground (arith, low.0) in
    let rest : either_index (insert_at i) ≡ either_index (binary_search xs t) =
      IsAnswer-unique xs t (insert_at i) s.1 d.1 (omega (arith, bound), low.1, high) in
    rw (more, either_index-next_slot) (ap suc rest)

-- One turn around a list from the place `i`.
turn :
    (i : ℕ) (xs : List ℕ)
    → i ≤ length xs
    → take (length xs) (drop i xs ++ xs) ≡ drop i xs ++ take i xs
turn i xs h =
    let back : length (drop i xs ++ take i xs) ≡ length xs =
      omega (arith, length-append (drop i xs) (take i xs), length-drop i xs, length-take i xs) in
    let whole : drop i xs ++ xs ≡ (drop i xs ++ take i xs) ++ drop i xs =
      ap (◌++◌ (drop i xs)) (sym (take-append-drop i xs))
      ∙ sym (append_assoc (drop i xs) (take i xs) (drop i xs)) in
    ap (take (length xs)) whole
    ∙ take-append_exact (drop i xs ++ take i xs) (drop i xs) (length xs) back

-- The tokens and the hosts of a ring, cut at the same place, and a turn from there for the answer `r`
-- to the search.
pub record Turn (ring : TokenRing) (token : ℕ) (r : Search) : Type 0 where
  pub before_in : List ℕ
  pub after_in : List ℕ
  pub before_out : List ℕ
  pub after_out : List ℕ
  pub in_split : ring.ring_in ≡ before_in ++ after_in
  pub out_split : ring.ring_out ≡ before_out ++ after_out
  pub same_place : length before_in ≡ length before_out
  pub smaller : All (λ y. token_key y < token_key token) before_in
  pub not_smaller : All (λ y. token_key token ≤ token_key y) after_in
  pub visits : ring_from ring (either_index r) ≡ after_out ++ before_out
  pub visits_by_ring_range : ring_range ring token ≡ after_out ++ before_out

-- For the ring of nodes of which no two tokens are equal, for any token, and for whatever the binary
-- search answers, as its documentation allows: the ring is cut into the tokens smaller than the
-- given one and the others, and `ring_range` visits the hosts of the others in order, then those of
-- the smaller, each entry of the ring once.
pub ring_range-Turn :
    {C : Type 0} (nodes : List (CassandraNode C)) (token : ℕ) (r : Search)
    → AllDiffer (new nodes).ring_in
    → IsAnswer (new nodes).ring_in token r
    → Turn (new nodes) token r
unfolding new ring_range
ring_range-Turn nodes token r differ answer =
    let ring = sort_by_key (entries nodes) in
    let ins : List ℕ = tokens_of ring in
    let outs : List ℕ = map (λ e. e.1) ring in
    let i : ℕ = either_index (binary_search ins token) in
    let sorted : Sorted ins = sort_by_key-Sorted (entries nodes) in
    let (le, lo, hi) = binary_search_lem ins token sorted in
    let same : either_index r ≡ i = IsAnswer-unique ins token r sorted differ answer in
    let size : length outs ≡ length ins =
      length-map ring (λ e. e.1) ∙ sym (length-map ring (λ e. e.0)) in
    let around : take (length outs) (drop i outs ++ outs) ≡ drop i outs ++ take i outs =
      turn i outs (omega (arith, size, le)) in
    record {
      before_in = take i ins;
      after_in = drop i ins;
      before_out = take i outs;
      after_out = drop i outs;
      in_split = sym (take-append-drop i ins);
      out_split = sym (take-append-drop i outs);
      same_place = omega (arith, length-take i ins, length-take i outs, size);
      smaller = lo;
      not_smaller = hi;
      visits = ap (λ (j : ℕ). take (length outs) (drop j outs ++ outs)) same ∙ around;
      visits_by_ring_range = around;
    }
