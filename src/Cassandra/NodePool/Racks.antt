-- ===== src/Cassandra/NodePool/Racks.antt =====
-- The order of the nodes that a request is tried on.
use mathlib.Core.List.{Perm, perm_middle}
use mathlib.Core.List.Perm
use shotover_proxy.Prelude.{
  ℕ, zero, suc, ◌+◌, ◌≡◌, refl, sym, ap, ◌∙◌, Bool, true, false, List, [], ◌∷◌, ◌++◌, append_assoc,
  append-nil, some, ok, get_elem?, length, length-append, All, All-append, Bool-cases, inl, inr,
  arith, Bytes,
}
use shotover_proxy.Cassandra.NodePool.{
  set_at, swap, round, racks_first, NodePool, Execute, replica, places, is_replica, rack_of,
  replica_host_ids, order_replicas, get_replica_node_in_dc, count_out_of_rack,
}

nothing_more : (n : ℕ) → n + 0 ≡ n
nothing_more n = omega arith

suc_first : (m n : ℕ) → suc m + n ≡ suc (m + n)
suc_first m n = omega arith

suc_last : (n : ℕ) → n + 1 ≡ suc n
suc_last n = omega arith

module _ {A : Type 0} where
  get_elem?-middle :
      (xs : List A) (x : A) (ys : List A) → get_elem? (xs ++ x ∷ ys) (length xs) ≡ some x
  get_elem?-middle [] x ys = refl
  get_elem?-middle (a ∷ xs) x ys = get_elem?-middle xs x ys

  set_at-middle :
      (xs : List A) (x y : A) (ys : List A) → set_at (length xs) y (xs ++ x ∷ ys) ≡ xs ++ y ∷ ys
  unfolding set_at
  set_at-middle [] x y ys = refl
  set_at-middle (a ∷ xs) x y ys = ap (λ l. a ∷ l) (set_at-middle xs x y ys)

  get_elem?-beyond : (xs l : List A) (k : ℕ) → get_elem? (xs ++ l) (length xs + k) ≡ get_elem? l k
  get_elem?-beyond [] l k = ap (get_elem? l) (omega arith)
  get_elem?-beyond (a ∷ xs) l k =
      ap (get_elem? (a ∷ (xs ++ l))) (suc_first (length xs) k) ∙ get_elem?-beyond xs l k

  set_at-beyond :
      (xs l : List A) (k : ℕ) (a : A) → set_at (length xs + k) a (xs ++ l) ≡ xs ++ set_at k a l
  unfolding set_at
  set_at-beyond [] l k a = ap (λ n. set_at n a l) (omega arith)
  set_at-beyond (b ∷ xs) l k a =
      ap (λ n. set_at n a (b ∷ (xs ++ l))) (suc_first (length xs) k)
      ∙ ap (λ l'. b ∷ l') (set_at-beyond xs l k a)

  -- A swap of an element with itself.
  swap_same :
      (xs : List A) (x : A) (ys : List A)
      → swap (length xs) (length xs) (xs ++ x ∷ ys) ≡ ok (xs ++ x ∷ ys)
  unfolding swap
  swap_same xs x ys =
      rw (get_elem?-middle xs x ys, set_at-middle xs x x ys, set_at-middle xs x x ys) refl

  -- A swap of two elements.
  swap_two :
      (xs : List A) (y : A) (ys : List A) (x : A) (zs : List A)
      → swap (length xs + suc (length ys)) (length xs) (xs ++ (y ∷ (ys ++ (x ∷ zs))))
        ≡ ok (xs ++ (x ∷ (ys ++ (y ∷ zs))))
  unfolding swap
  swap_two xs y ys x zs =
      let at_x =
        get_elem?-beyond xs (y ∷ (ys ++ (x ∷ zs))) (suc (length ys)) ∙ get_elem?-middle ys x zs in
      let at_y = get_elem?-middle xs y (ys ++ (x ∷ zs)) in
      let first = set_at-middle xs y x (ys ++ (x ∷ zs)) in
      let second =
        set_at-beyond xs (x ∷ (ys ++ (x ∷ zs))) (suc (length ys)) y
        ∙ ap (λ l. xs ++ (x ∷ l)) (set_at-middle ys x y zs) in
      rw (at_x, at_y, first, second) refl

  exchange_Perm :
      (xs : List A) (x y : A) (ys zs : List A)
      → Perm (xs ++ (x ∷ (ys ++ (y ∷ zs)))) (xs ++ (y ∷ (ys ++ (x ∷ zs))))
  exchange_Perm xs x y ys zs = Perm.append_left xs (
      Perm.trans (Perm.cons x (perm_middle {a = y} ys zs)) (
        Perm.trans (Perm.swap y x (ys ++ zs))
          (Perm.cons y (Perm.symm (perm_middle {a = x} ys zs)))))

  -- The end of the loop, from a round on: a front of `T`, and nothing of it behind.
  abbrev Ends : (A → Bool) → ℕ → ℕ → List A → ℕ → Type 0
  Ends p left i xs found =
      (front back : List A) × (racks_first p left i xs found ≡ ok (front ++ back, length front))
      × All (λ x. p x ≡ true) front
      × All (λ x. p x ≡ false) back
      × Perm (front ++ back) xs

  -- A round that finds `x`.
  round_found :
      (p : A → Bool) (as_ bs : List A) (x : A) (r : List A)
      → p x ≡ true
      → (ys : List A) × (bs' : List A) × (round p
            (length as_ + length bs)
            (as_ ++ (bs ++ (x ∷ r)))
            (length as_)
            (some x)
          ≡ ok (ys, suc (length as_)))
        × (ys ≡ (as_ ++ x ∷ []) ++ (bs' ++ r))
        × (length bs' ≡ length bs)
        × (All (λ b. p b ≡ false) bs → All (λ b. p b ≡ false) bs')
        × Perm ys (as_ ++ (bs ++ (x ∷ r)))
  unfolding round
  round_found p as_ [] x r in_it =
      let same : swap (length as_ + 0) (length as_) (as_ ++ x ∷ r) ≡ ok (as_ ++ x ∷ r) =
        rw (nothing_more (length as_)) (swap_same as_ x r) in
      (
        as_ ++ x ∷ r,
        [],
        rw (in_it, same) refl,
        sym (append_assoc as_ (x ∷ []) r),
        refl,
        λ n. n,
        Perm.refl _,
      )
  round_found p as_ (b ∷ bs) x r in_it = (
    as_ ++ (x ∷ (bs ++ (b ∷ r))),
    bs ++ b ∷ [],
    rw (in_it, swap_two as_ b bs x r) refl,
    ap (λ l. as_ ++ (x ∷ l)) (sym (append_assoc bs (b ∷ []) r))
        ∙ sym (append_assoc as_ (x ∷ []) ((bs ++ b ∷ []) ++ r)),
    length-append bs (b ∷ []) ∙ suc_last (length bs),
    λ n. All-append (λ c. p c ≡ false) bs (b ∷ []) n.1 (n.0, tt),
    exchange_Perm as_ x b bs r,
  )

  -- A round that does not.
  round_other :
      (p : A → Bool) (i found : ℕ) (xs : List A) (x : A)
      → p x ≡ false
      → round p i xs found (some x) ≡ ok (xs, found)
  unfolding round
  round_other p i found xs x out = rw out refl

  ends :
      (p : A → Bool) (rest as_ bs : List A) (i found : ℕ) (xs : List A)
      → i ≡ length as_ + length bs
      → found ≡ length as_
      → xs ≡ as_ ++ (bs ++ rest)
      → All (λ x. p x ≡ true) as_
      → All (λ x. p x ≡ false) bs
      → Ends p (length rest) i xs found
  unfolding racks_first
  ends p [] as_ bs i found xs at_i at_found at_xs front back =
      let whole : xs ≡ as_ ++ bs = at_xs ∙ ap (λ l. as_ ++ l) (append-nil bs) in
      (as_, bs, rw (whole, at_found) refl, front, back, rw whole (Perm.refl (as_ ++ bs)))
  ends p (x ∷ r) as_ bs i found xs at_i at_found at_xs front back =
      let here : get_elem? xs i ≡ some x =
        rw (at_xs, at_i)
          (get_elem?-beyond as_ (bs ++ (x ∷ r)) (length bs) ∙ get_elem?-middle bs x r) in
      elim (Bool-cases (p x)) [
        | inl in_it ↦
            let (ys, bs', run, split, count, keep, same) = round_found p as_ bs x r in_it in
            let (f, b, end, all_f, all_b, perm) =
              ends p r (as_ ++ x ∷ []) bs' (suc i) (suc found) ys
                (rw (length-append as_ (x ∷ [])) (omega arith))
                (rw (length-append as_ (x ∷ [])) (omega arith)) split
                (All-append (λ c. p c ≡ true) as_ (x ∷ []) front (in_it, tt)) (keep back) in
            let step : round p i xs found (some x) ≡ ok (ys, suc found) =
              rw (at_xs, at_i, at_found, run) refl in
            (f, b, rw (here, step) end, all_f, all_b, rw at_xs (Perm.trans perm same))
        | inr out ↦
            let (f, b, end, all_f, all_b, perm) =
              ends p r as_ (bs ++ x ∷ []) (suc i) found xs
                (rw (length-append bs (x ∷ [])) (omega arith)) at_found
                (at_xs ∙ ap (λ l. as_ ++ l) (sym (append_assoc bs (x ∷ []) r))) front
                (All-append (λ c. p c ≡ false) bs (x ∷ []) back (out, tt)) in
            (f, b, rw (here, round_other p i found xs x out) end, all_f, all_b, perm)
      ]

  pub racks_first-Perm :
      (p : A → Bool) (xs : List A)
      → (front back : List A) × (racks_first p (length xs) 0 xs 0
          ≡ ok (front ++ back, length front))
        × All (λ x. p x ≡ true) front
        × All (λ x. p x ≡ false) back
        × Perm (front ++ back) xs
  racks_first-Perm p xs = ends p xs [] [] 0 0 xs refl refl refl tt tt

module _ {C : Type 0} (shuffle : List ℕ → List ℕ)
    (shuffle-Perm : (xs : List ℕ) → Perm (shuffle xs) xs) where
  -- What the order of the nodes is: those that are up and hold the token, each once, and those in the
  -- rack before all others.
  abbrev pub Ordered : Bytes → NodePool C → List ℕ → List ℕ → Type 0
  Ordered rack pool ids nodes =
      (front back : List ℕ) × (nodes ≡ front ++ back)
      × All (λ i. rack_of rack (get_elem? pool.nodes i) ≡ true) front
      × All (λ i. rack_of rack (get_elem? pool.nodes i) ≡ false) back
      × Perm (front ++ back) (places (is_replica ids) 0 pool.nodes)

  same_nodes : (n : ℕ) (pool : NodePool C) → (count_out_of_rack n pool).nodes ≡ pool.nodes
  same_nodes zero pool = refl
  same_nodes (suc n) pool = refl

  -- For a shuffle that permutes: once the hosts of the replicas of an execute request are known, the
  -- pool gives the places of its nodes that are up and are one of these hosts, each once, with those
  -- of the rack before all others, and its nodes are as before.
  pub get_replica_node_in_dc-Ordered :
      (execute : Execute) (rack : Bytes) (pool : NodePool C) (ids : List ℕ)
      → replica_host_ids pool execute ≡ ok (replica ids)
      → (pool' : NodePool C) × (nodes : List ℕ) × (get_replica_node_in_dc shuffle execute rack pool
          ≡ ok (pool', replica nodes))
        × Ordered rack pool ids nodes
        × (pool'.nodes ≡ pool.nodes)
  unfolding get_replica_node_in_dc order_replicas
  get_replica_node_in_dc-Ordered execute rack pool ids known =
      let kept = shuffle (places (is_replica ids) 0 pool.nodes) in
      let (front, back, run, all_front, all_back, perm) =
        racks_first-Perm (λ i. rack_of rack (get_elem? pool.nodes i)) kept in
      (
        count_out_of_rack (length front) pool,
        front ++ back,
        rw (known, run) refl,
        (
          front,
          back,
          refl,
          all_front,
          all_back,
          Perm.trans perm (shuffle-Perm (places (is_replica ids) 0 pool.nodes)),
        ),
        same_nodes (length front) pool,
      )
