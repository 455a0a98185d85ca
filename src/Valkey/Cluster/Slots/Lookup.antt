-- ===== src/Valkey/Cluster/Slots/Lookup.antt =====
-- The lookup of a slot, in a new map and after a redirection.
use shotover_proxy.Prelude.{
  ℕ, ◌≤◌, ◌<◌, ◌≡◌, refl, sym, ap, ◌∙◌, ◌⊎◌, inl, inr, true, false, List, [], ◌∷◌, Bytes, Option,
  none, some, arith, leb, ltb, ◌==◌, if◌then◌else◌, Bool-cases,
}
use shotover_proxy.Valkey.Cluster.Slots.{
  Entry, SlotTree, tree_insert, range_first, SlotMap, insert_entries, to_interval_map, from_entries,
  master_of, moved,
}

unfoldable tree_get : ℕ → SlotTree → Option Bytes
tree_get k [] = none
tree_get k ((j, w) ∷ m) = if j == k then some w else tree_get k m

tree_get-insert :
    (k j : ℕ) (v : Bytes) (m : SlotTree)
    → tree_get j (tree_insert k v m) ≡ (if k == j then some v else tree_get j m)
unfolding tree_get tree_insert
tree_get-insert k j v [] = refl
tree_get-insert k j v ((i, w) ∷ m) = ground (arith, tree_get-insert k j v m)

-- The keys rise.
abbrev Above : ℕ → SlotTree → Type 0
Above k [] = Unit {0}
Above k ((j, w) ∷ m) = (k < j) × Above j m

abbrev pub Rising : SlotTree → Type 0
Rising [] = Unit {0}
Rising ((j, w) ∷ m) = Above j m

Above-insert :
    (i k : ℕ) (v : Bytes) (m : SlotTree) → i < k → Above i m → Above i (tree_insert k v m)
unfolding tree_insert
Above-insert i k v [] h a = (h, tt)
Above-insert i k v ((j, w) ∷ m) h a = ground (arith, Above-insert j k v m)

Rising-insert : (k : ℕ) (v : Bytes) (m : SlotTree) → Rising m → Rising (tree_insert k v m)
unfolding tree_insert
Rising-insert k v [] r = tt
Rising-insert k v ((j, w) ∷ m) r = ground (arith, Above-insert j k v m)

Above-Rising : (i : ℕ) (m : SlotTree) → Above i m → Rising m
Above-Rising i [] a = tt
Above-Rising i ((j, w) ∷ m) a = a.1

Above-get : (i k : ℕ) (v : Bytes) (m : SlotTree) → Above i m → tree_get k m ≡ some v → i < k
unfolding tree_get
Above-get i k v [] a e = cc
Above-get i k v ((j, w) ∷ m) a e = ground (arith, Above-get j k v m a.1)

-- The first entry of a tree at or behind a slot, given that there is one at `k`.
abbrev Found : ℕ → ℕ → SlotTree → Option (ℕ × Bytes) → Type 0
Found slot k m r =
    (j : ℕ) × (w : Bytes) × (r ≡ some (j, w)) × (tree_get j m ≡ some w) × (slot ≤ j) × (j ≤ k)

range_first-Found :
    (slot k : ℕ) (v : Bytes) (m : SlotTree)
    → Rising m
    → slot ≤ k
    → tree_get k m ≡ some v
    → Found slot k m (range_first slot m)
unfolding range_first tree_get
range_first-Found slot k v [] r le e = cc
range_first-Found slot k v ((i, w) ∷ m) r le e = elim (Bool-cases (leb slot i)) [
  | inl here ↦ (i, w, rw here refl, ground arith, ground arith, ground (arith, Above-get i k v m r))
  | inr behind ↦
      let (j, u, found, get, lo, hi) =
        range_first-Found slot k v m (Above-Rising i m r) le (ground arith) in
      (j, u, rw behind found, ground arith, lo, hi)
]

abbrev pub In : Entry → List Entry → Type 0
In e [] = ⊥
In e (x ∷ xs) = (e ≡ x) ⊎ In e xs

insert_entries-Rising : (es : List Entry) (m : SlotTree) → Rising m → Rising (insert_entries es m)
unfolding insert_entries
insert_entries-Rising [] m r = r
insert_entries-Rising (e ∷ es) m r =
    insert_entries-Rising es (tree_insert e.stop e.host m) (Rising-insert e.stop e.host m r)

-- A key stays once it is there.
insert_entries-keep :
    (es : List Entry) (m : SlotTree) (k : ℕ) (v : Bytes)
    → tree_get k m ≡ some v
    → (w : Bytes) × (tree_get k (insert_entries es m) ≡ some w)
unfolding insert_entries
insert_entries-keep [] m k v h = (v, h)
insert_entries-keep (e ∷ es) m k v h = elim (Bool-cases (e.stop == k)) [
  | inl hit ↦
      insert_entries-keep es (tree_insert e.stop e.host m) k e.host
        (rw (tree_get-insert e.stop k e.host m, hit) refl)
  | inr miss ↦
      insert_entries-keep es (tree_insert e.stop e.host m) k v
        (rw (tree_get-insert e.stop k e.host m, miss) h)
]

insert_entries-In :
    (es : List Entry) (m : SlotTree) (e : Entry)
    → In e es
    → (w : Bytes) × (tree_get e.stop (insert_entries es m) ≡ some w)
unfolding insert_entries
insert_entries-In [] m e h = absurd h
insert_entries-In (x ∷ es) m e (inl h) =
    insert_entries-keep es (tree_insert x.stop x.host m) e.stop x.host
      (rw (tree_get-insert x.stop e.stop x.host m) (ground (arith, ap (λ (y : Entry). y.stop) h)))
insert_entries-In (x ∷ es) m e (inr h) = insert_entries-In es (tree_insert x.stop x.host m) e h

-- What is found comes from an entry, or was there.
insert_entries-source :
    (es : List Entry) (m : SlotTree) (k : ℕ) (w : Bytes)
    → tree_get k (insert_entries es m) ≡ some w
    → ((e : Entry) × In e es × (e.stop ≡ k) × (e.host ≡ w)) ⊎ (tree_get k m ≡ some w)
unfolding insert_entries
insert_entries-source [] m k w h = inr h
insert_entries-source (x ∷ es) m k w h =
    elim (insert_entries-source es (tree_insert x.stop x.host m) k w h) [
      | inl (e, mem, at, is) ↦ inl (e, inr mem, at, is)
      | inr old ↦ elim (Bool-cases (x.stop == k)) [
        | inl hit ↦
            inl (x, inl refl, ground arith, ground (arith, tree_get-insert x.stop k x.host m))
        | inr miss ↦ inr (ground (arith, tree_get-insert x.stop k x.host m))
      ]
    ]

-- Two entries are the same, or the ranges of slots do not meet.
abbrev pub Disjoint : List Entry → Type 0
Disjoint es =
    (x y : Entry) → In x es → In y es → (x ≡ y) ⊎ ((x.stop < y.start) ⊎ (y.stop < x.start))

abbrev pub AllOrdered : List Entry → Type 0
AllOrdered es = (x : Entry) → In x es → x.start ≤ x.stop

owner_is :
    (es : List Entry) (e x : Entry) (slot : ℕ) (w : Bytes)
    → Disjoint es
    → AllOrdered es
    → In e es
    → In x es
    → e.start ≤ slot
    → slot ≤ x.stop
    → x.stop ≤ e.stop
    → x.host ≡ w
    → e.host ≡ w
owner_is es e x slot w d o me mx lo mid hi h = elim (d e x me mx) [
  | inl same ↦ ap (λ (y : Entry). y.host) same ∙ h
  | inr (inl before) ↦ absurd (omega (arith, o x mx))
  | inr (inr behind) ↦ absurd (omega arith)
]

-- For every list of master entries with ranges that do not meet, and every slot in the range of one
-- of them: the sink sends the slot's commands to the host of that entry.
pub master_of-from_entries :
    (es replicas : List Entry) (e : Entry) (slot : ℕ)
    → Disjoint es
    → AllOrdered es
    → In e es
    → e.start ≤ slot
    → slot ≤ e.stop
    → master_of (from_entries es replicas) slot ≡ some e.host
unfolding master_of from_entries to_interval_map tree_get
master_of-from_entries es replicas e slot d o me lo hi =
    let (v, there) = insert_entries-In es [] e me in
    let (j, w, found, get, at, below) =
      range_first-Found slot e.stop v (insert_entries es []) (insert_entries-Rising es [] tt) hi
        there in
    elim (insert_entries-source es [] j w get) [
      | inl (x, mx, xj, xw) ↦
          rw (found, master_of)
            (ap some (sym (owner_is es e x slot w d o me mx lo (omega arith) (omega arith) xw)))
      | inr none_there ↦ cc
    ]

-- Of a new key and the one found so far, the smaller.
abbrev nearer : ℕ → Bytes → Option (ℕ × Bytes) → Option (ℕ × Bytes)
nearer k v none = some (k, v)
nearer k v (some (j, w)) = if ltb j k then some (j, w) else some (k, v)

range_first-insert :
    (s k : ℕ) (v : Bytes) (m : SlotTree)
    → range_first s (tree_insert k v m)
      ≡ (if leb s k then nearer k v (range_first s m) else range_first s m)
unfolding range_first tree_insert
range_first-insert s k v [] = ground arith
range_first-insert s k v ((j, w) ∷ m) = ground (arith, range_first-insert s k v m)

nearer_self : (k : ℕ) (v : Bytes) (m : SlotTree) → nearer k v (range_first k m) ≡ some (k, v)
unfolding range_first
nearer_self k v [] = refl
nearer_self k v ((j, w) ∷ m) = ground (arith, nearer_self k v m)

-- After a `MOVED` redirection for a slot, that slot goes to the server that was named, and every
-- higher slot goes where it went.
pub master_of-moved :
    (slot : ℕ) (server : Bytes) (slots : SlotMap) (s : ℕ)
    → slot < s
    → (master_of (moved slot server slots) slot ≡ some server)
      × (master_of (moved slot server slots) s ≡ master_of slots s)
unfolding master_of moved
master_of-moved slot server slots s h =
    let first = range_first-insert slot slot server slots.masters in
    let self : leb slot slot ≡ true = ground arith in
    let behind : leb s slot ≡ false = ground arith in
    (
      rw (first, self, nearer_self slot server slots.masters) refl,
      rw (range_first-insert s slot server slots.masters, behind) refl,
    )

-- The lower slots are not left alone: if no master ends between a lower slot and the one that moved,
-- the lower slot goes to the named server too.
pub master_of-moved_below :
    (slot : ℕ) (server : Bytes) (slots : SlotMap) (s : ℕ)
    → s ≤ slot
    → range_first s slots.masters ≡ range_first slot slots.masters
    → master_of (moved slot server slots) s ≡ some server
unfolding master_of moved
master_of-moved_below slot server slots s h same =
    let low : leb s slot ≡ true = ground arith in
    rw
      (
        range_first-insert s slot server slots.masters,
        low,
        same,
        nearer_self slot server slots.masters,
      )
      refl
