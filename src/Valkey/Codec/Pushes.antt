-- ===== src/Valkey/Codec/Pushes.antt =====
-- The decoder's test for a push, and its lists of channels, against those of the server.
use shotover_proxy.Prelude.{
  ◌≡◌, refl, sym, ap, ◌∙◌, true, false, List, [], ◌∷◌, ◌++◌, Bytes, bytes_eq, bytes_eq→eq, codes,
  arith, ◌⊎◌, inl, inr, Bool-cases, append-nil, append_assoc,
}
use shotover_proxy.Valkey.Frame.{ValkeyFrame, bulk_string, array, cons}
use shotover_proxy.Valkey.Codec.{
  is_message_array, is_message_type, contains, remove_all, unsubscribe_rest,
}
use shotover_proxy.Valkey.Codec.Server.{IsPush, leave_one, leave_each, leave, add_all, NoRepeat}

pub IsPush-is_message_array : (f : ValkeyFrame) → IsPush f → is_message_array f ≡ true
unfolding is_message_array bytes_eq
IsPush-is_message_array f (kind, rest, e, inl k) = rw (e, k) refl
IsPush-is_message_array f (kind, rest, e, inr (inl k)) = rw (e, k) refl
IsPush-is_message_array f (kind, rest, e, inr (inr k)) = rw (e, k) refl

is_message_type-kind :
    (kind : Bytes)
    → is_message_type kind ≡ true
    → (kind ≡ codes "message") ⊎ ((kind ≡ codes "pmessage") ⊎ (kind ≡ codes "smessage"))
is_message_type-kind kind h = elim (Bool-cases (bytes_eq kind (codes "message"))) [
  | inl a ↦ inl (bytes_eq→eq kind (codes "message") a)
  | inr a ↦ elim (Bool-cases (bytes_eq kind (codes "pmessage"))) [
    | inl b ↦ inr (inl (bytes_eq→eq kind (codes "pmessage") b))
    | inr b ↦ inr (inr (bytes_eq→eq kind (codes "smessage") (ground arith)))
  ]
]

is_message_array-IsPush : (f : ValkeyFrame) → is_message_array f ≡ true → IsPush f
unfolding is_message_array
is_message_array-IsPush (array (cons (bulk_string kind) rest)) h =
    (kind, rest, refl, is_message_type-kind kind h)
is_message_array-IsPush f h = cc

-- What is no push does not pass the test.
pub is_message_array_response : (f : ValkeyFrame) → ¬ IsPush f → is_message_array f ≡ false
is_message_array_response f other = elim (Bool-cases (is_message_array f)) [
  | inl yes_push ↦ absurd (other (is_message_array-IsPush f yes_push))
  | inr no_push ↦ no_push
]

-- Channels that are new are added at the end.
pub add_all-append : (cs set : List Bytes) → NoRepeat set cs → add_all cs set ≡ set ++ cs
unfolding add_all
add_all-append [] set h = sym (append-nil set)
add_all-append (c ∷ cs) set h =
    rw (h.0) (add_all-append cs (set ++ c ∷ []) h.1 ∙ append_assoc set (c ∷ []) cs)

remove_all-nil : (set : List Bytes) → remove_all [] set ≡ set
unfolding remove_all contains
remove_all-nil [] = refl
remove_all-nil (x ∷ xs) = ap (◌∷◌ x) (remove_all-nil xs)

remove_all-leave_one :
    (c : Bytes) (cs set : List Bytes) → remove_all cs (leave_one c set) ≡ remove_all (c ∷ cs) set
unfolding remove_all contains leave_one
remove_all-leave_one c cs [] = refl
remove_all-leave_one c cs (x ∷ xs) = let rest = remove_all-leave_one c cs xs in ground arith

leave_each-remove_all : (cs set : List Bytes) → leave_each cs set ≡ remove_all cs set
unfolding leave_each
leave_each-remove_all [] set = sym (remove_all-nil set)
leave_each-remove_all (c ∷ cs) set =
    leave_each-remove_all cs (leave_one c set) ∙ remove_all-leave_one c cs set

-- The decoder's list loses the channels that the server's set loses.
pub unsubscribe_rest-leave : (cs set : List Bytes) → unsubscribe_rest cs set ≡ leave cs set
unfolding unsubscribe_rest
unsubscribe_rest-leave [] set = refl
unsubscribe_rest-leave (c ∷ cs) set = sym (leave_each-remove_all (c ∷ cs) set)
