-- ===== src/Valkey/Codec/Tests.antt =====
-- A pubsub conversation, and the theorems at it.
use mathlib.Core.Bool.{false≢true}
use shotover_proxy.Prelude.{
  ℕ, ◌≡◌, refl, true, List, [], ◌∷◌, Bytes, codes, bytes_eq, Option, none, some, ok, map, inl, inr,
}
use shotover_proxy.Valkey.Frame.{ValkeyFrame, simple_string, bulk_string, array, cons, nil}
use shotover_proxy.Valkey.Codec.{
  RequestInfo, RequestType, subscribe, unsubscribe, other, ValkeyDecoder, new, answer_all,
  is_message_array,
}
use shotover_proxy.Valkey.Codec.Server.{
  Server, add_all, leave_each, leave_one, has, IsPush, extra, after, Conversation, quiet, push,
  owed, answer,
}
use shotover_proxy.Valkey.Codec.Pushes.{IsPush-is_message_array}
use shotover_proxy.Valkey.Codec.Sync.{Follows, answer_all-Conversation}
use shotover_proxy.Valkey.Codec.Resubscribe.{resubscribe_waits}
use shotover_proxy.Valkey.Codec.Encode.{request_type, extract_args}

abbrev reply : Bytes → ValkeyFrame
reply name = array (cons (bulk_string name) nil)

abbrev request : ℕ → RequestType → RequestInfo
request id ty = record { ty = ty; id = id }

abbrev both : List Bytes
both = codes "a" ∷ codes "b" ∷ []

-- SUBSCRIBE a b, UNSUBSCRIBE a b, then LRANGE.
abbrev requests : List RequestInfo
requests = request 7 (subscribe both) ∷ request 8 (unsubscribe both) ∷ request 9 other ∷ []

abbrev no_channels : Server
no_channels = record { channels = []; patterns = []; shards = [] }

-- The response to channel a, a message on it, the response to channel b, a message of a shard, the
-- responses to both in turn, and a list that looks like a message when there is no subscription.
abbrev sent : List (ValkeyFrame × Option ℕ)
sent =
    (reply (codes "subscribe"), some 7)
    ∷ (reply (codes "message"), none)
    ∷ (reply (codes "subscribe"), none)
    ∷ (reply (codes "smessage"), none)
    ∷ (reply (codes "unsubscribe"), some 8)
    ∷ (reply (codes "unsubscribe"), none)
    ∷ (reply (codes "message"), some 9)
    ∷ []

Follows-new : Follows (new (some requests)) no_channels 0 requests
unfolding new
Follows-new = record {
  channels = refl;
  patterns = refl;
  shards = refl;
  pending = refl;
  requests = refl;
}

subscribe_reply : ¬ IsPush (reply (codes "subscribe"))
unfolding is_message_array bytes_eq
subscribe_reply p = false≢true (IsPush-is_message_array _ p)

unsubscribe_reply : ¬ IsPush (reply (codes "unsubscribe"))
unfolding is_message_array bytes_eq
unsubscribe_reply p = false≢true (IsPush-is_message_array _ p)

conversation : Conversation no_channels 0 requests sent
unfolding has bytes_eq add_all leave_each leave_one
conversation =
    answer no_channels 0 requests _ _ (request 7 (subscribe both))
      (request 8 (unsubscribe both) ∷ request 9 other ∷ []) refl refl (inl refl) (refl, (refl, tt))
      (push _ 1 _ _ _ refl (codes "message", nil, refl, inl refl)
        (owed _ 1 _ _ _ 0 refl (inr subscribe_reply) (
          push _ 0 _ _ _ refl (codes "smessage", nil, refl, inr (inr refl))
            (answer _ 0 _ _ _ (request 8 (unsubscribe both)) (request 9 other ∷ []) refl refl
              (inr unsubscribe_reply) tt
              (owed _ 1 _ _ _ 0 refl (inl refl)
                (answer _ 0 _ _ _ (request 9 other) [] refl refl (inl refl) tt (quiet _ _ _)))))))

answer_all-Conversation_example :
    answer_all (new (some requests)) (map (λ e. e.0) sent)
    ≡ ok (some 7 ∷ none ∷ none ∷ none ∷ some 8 ∷ none ∷ some 9 ∷ [])
answer_all-Conversation_example =
    answer_all-Conversation (new (some requests)) no_channels 0 requests sent Follows-new
      conversation

-- SUBSCRIBE a, UNSUBSCRIBE, PING.
abbrev again : List RequestInfo
again = request 1 (subscribe (codes "a" ∷ [])) ∷ request 2 (unsubscribe []) ∷ request 3 other ∷ []

abbrev listening : ValkeyDecoder
listening = record {
  request_header_rx = some again;
  subscribed = codes "a" ∷ [];
  psubscribed = [];
  ssubscribed = [];
  pending_extra_responses = 0;
}

abbrev one_channel : Server
one_channel = record { channels = codes "a" ∷ []; patterns = []; shards = [] }

a_is_there : has one_channel.channels (codes "a") ≡ true
unfolding has bytes_eq
a_is_there = refl

left_once : 0 ≡ extra (unsubscribe []) (after (subscribe (codes "a" ∷ [])) one_channel)
unfolding add_all has bytes_eq
left_once = refl

pong_reply : ¬ IsPush (simple_string (codes "PONG"))
unfolding is_message_array bytes_eq
pong_reply p = false≢true (IsPush-is_message_array _ p)

resubscribe_waits_example :
    answer_all listening
      (reply (codes "subscribe") ∷ reply (codes "unsubscribe") ∷ simple_string (codes "PONG") ∷ [])
    ≡ ok (some 1 ∷ some 2 ∷ none ∷ [])
resubscribe_waits_example =
    resubscribe_waits listening one_channel [] (codes "a") 1 2 (request 3 other)
      (reply (codes "subscribe")) (reply (codes "unsubscribe")) (simple_string (codes "PONG")) []
      (record { channels = refl; patterns = refl; shards = refl; pending = refl; requests = refl })
      a_is_there left_once (subscribe_reply, (unsubscribe_reply, (pong_reply, tt)))

lower_case :
    request_type (some (array (cons (bulk_string (codes "unsubscribe")) nil))) ≡ ok (unsubscribe [])
unfolding request_type extract_args
lower_case = refl
