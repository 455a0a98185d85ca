-- ===== src/Valkey/Codec/Server.antt =====
-- What a valkey server does with pubsub commands, as its documentation says: it keeps sets of
-- channels, and answers each command by one response, or one for each channel that it names or leaves.
use shotover_proxy.Prelude.{
  ℕ, ◌+◌, ◌-◌, ◌≡◌, ◌⊎◌, Bool, true, false, ◌||◌, not, bytes_eq, codes, List, [], ◌∷◌, ◌++◌, Bytes,
  Option, none, some, if◌then◌else◌, length, is_empty,
}
use shotover_proxy.Valkey.Frame.{ValkeyFrame, bulk_string, array, Frames, cons}
use shotover_proxy.Valkey.Codec.{
  RequestType, subscribe, psubscribe, ssubscribe, unsubscribe, punsubscribe, sunsubscribe, reset,
  other, RequestInfo,
}

pub record Server : Type 0 where
  pub channels : List Bytes
  pub patterns : List Bytes
  pub shards : List Bytes

unfoldable pub has : List Bytes → Bytes → Bool
unfolding bytes_eq
has [] c = false
has (x ∷ xs) c = bytes_eq x c || has xs c

-- A set gains the channels that it does not have.
unfoldable pub add_all : List Bytes → List Bytes → List Bytes
unfolding has
add_all [] set = set
add_all (c ∷ cs) set = add_all cs (if has set c then set else set ++ c ∷ [])

-- A set loses one channel.
unfoldable pub leave_one : Bytes → List Bytes → List Bytes
unfolding bytes_eq
leave_one c [] = []
leave_one c (x ∷ xs) = if bytes_eq x c then leave_one c xs else x ∷ leave_one c xs

-- The channels are left in turn.
unfoldable pub leave_each : List Bytes → List Bytes → List Bytes
unfolding leave_one
leave_each [] set = set
leave_each (c ∷ cs) set = leave_each cs (leave_one c set)

abbrev pub leave : List Bytes → List Bytes → List Bytes
leave cs set = if is_empty cs then [] else leave_each cs set

abbrev pub after : RequestType → Server → Server
after (subscribe cs) s = record s { channels = add_all cs s.channels }
after (psubscribe cs) s = record s { patterns = add_all cs s.patterns }
after (ssubscribe cs) s = record s { shards = add_all cs s.shards }
after (unsubscribe cs) s = record s { channels = leave cs s.channels }
after (punsubscribe cs) s = record s { patterns = leave cs s.patterns }
after (sunsubscribe cs) s = record s { shards = leave cs s.shards }
after reset s = record { channels = []; patterns = []; shards = [] }
after other s = s

-- The responses that follow the first one.
abbrev leave_extra : List Bytes → List Bytes → ℕ
leave_extra cs set = if is_empty cs then length set - 1 else length cs - 1

abbrev pub extra : RequestType → Server → ℕ
extra (subscribe cs) s = length cs - 1
extra (psubscribe cs) s = length cs - 1
extra (ssubscribe cs) s = length cs - 1
extra (unsubscribe cs) s = leave_extra cs s.channels
extra (punsubscribe cs) s = leave_extra cs s.patterns
extra (sunsubscribe cs) s = leave_extra cs s.shards
extra reset s = 0
extra other s = 0

abbrev pub listens : Server → Bool
listens s = not (is_empty s.channels) || (not (is_empty s.patterns) || not (is_empty s.shards))

-- The channels are new to the set, and differ from one another.
abbrev pub NoRepeat : List Bytes → List Bytes → Type 0
NoRepeat set [] = Unit {0}
NoRepeat set (c ∷ cs) = (has set c ≡ false) × NoRepeat (set ++ c ∷ []) cs

-- The request subscribes to no channel twice.
abbrev pub Fresh : RequestType → Server → Type 0
Fresh (subscribe cs) s = NoRepeat s.channels cs
Fresh (psubscribe cs) s = NoRepeat s.patterns cs
Fresh (ssubscribe cs) s = NoRepeat s.shards cs
Fresh _ s = Unit {0}

-- A push is an array of three kinds, and comes only while the server has a subscription.
abbrev pub IsPush : ValkeyFrame → Type 0
IsPush f =
    (kind : Bytes) × (rest : Frames) × (f ≡ array (cons (bulk_string kind) rest))
    × ((kind ≡ codes "message") ⊎ ((kind ≡ codes "pmessage") ⊎ (kind ≡ codes "smessage")))

-- Any other frame is a response. While there is a subscription it does not look like a push.
abbrev pub IsResponse : Server → ValkeyFrame → Type 0
IsResponse s f = (listens s ≡ false) ⊎ (¬ IsPush f)

-- The frames that a server sends, each with the request that it answers: from the state `s`, with
-- `n` responses still owed to the last request, and `rs` the requests to come.
pub data Conversation : Server → ℕ → List RequestInfo → List (ValkeyFrame × Option ℕ) → Type 0 where
  quiet : (s : Server) (n : ℕ) (rs : List RequestInfo) → Conversation s n rs []
  push :
      (s : Server) (n : ℕ) (rs : List RequestInfo) (f : ValkeyFrame)
      (es : List (ValkeyFrame × Option ℕ))
      → listens s ≡ true
      → IsPush f
      → Conversation s n rs es
      → Conversation s n rs ((f, none) ∷ es)
  owed :
      (s : Server) (n : ℕ) (rs : List RequestInfo) (f : ValkeyFrame)
      (es : List (ValkeyFrame × Option ℕ)) (m : ℕ)
      → n ≡ m + 1
      → IsResponse s f
      → Conversation s m rs es
      → Conversation s n rs ((f, none) ∷ es)
  answer :
      (s : Server) (n : ℕ) (rs : List RequestInfo) (f : ValkeyFrame)
      (es : List (ValkeyFrame × Option ℕ)) (r : RequestInfo) (rest : List RequestInfo)
      → n ≡ 0
      → rs ≡ r ∷ rest
      → IsResponse s f
      → Fresh r.ty s
      → Conversation (after r.ty s) (extra r.ty s) rest es
      → Conversation s n rs ((f, some r.id) ∷ es)
