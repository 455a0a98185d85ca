-- ===== src/Valkey/Codec.antt =====
-- shotover/src/codec/valkey.rs: the decoder of a sink connection pairs responses with requests, and
-- follows the pubsub mode. The encoder hands it the requests through a channel.
pub mod Server
pub mod Pushes
pub mod Sync
pub mod Resubscribe
pub mod Encode
mod Tests
use shotover_proxy.Prelude.{
  ℕ, suc, ◌+◌, ◌-◌, Bool, true, false, ◌||◌, not, List, [], ◌∷◌, ◌++◌, Bytes, codes, bytes_eq,
  Option, none, some, Result, ok, err, ◌>>=◌, ltb, if◌then◌else◌, length, is_empty, filterb, anyb,
}
use shotover_proxy.Valkey.Frame.{
  ValkeyFrame, simple_string, error, bulk_string, integer, array, null, Frames, nil, cons,
}

pub data RequestType : Type 0 where
  subscribe psubscribe ssubscribe : List Bytes → RequestType
  unsubscribe punsubscribe sunsubscribe : List Bytes → RequestType
  reset other : RequestType

pub record RequestInfo : Type 0 where
  pub ty : RequestType
  pub id : ℕ

-- `request_header_rx` is `none` for a source. The list is what the channel delivers before the
-- encoder hangs up.
pub record ValkeyDecoder : Type 0 where
  pub request_header_rx : Option (List RequestInfo)
  pub subscribed : List Bytes
  pub psubscribed : List Bytes
  pub ssubscribed : List Bytes
  pub pending_extra_responses : ℕ

pub new : Option (List RequestInfo) → ValkeyDecoder
new rx = record {
  request_header_rx = rx;
  subscribed = [];
  psubscribed = [];
  ssubscribed = [];
  pending_extra_responses = 0;
}

unfoldable pub is_subscribed : ValkeyDecoder → Bool
is_subscribed d =
    not (is_empty d.subscribed) || (not (is_empty d.psubscribed) || not (is_empty d.ssubscribed))

-- `if let [ValkeyFrame::BulkString(ty), ..] = array.as_slice()`, for an array whose first part is a
-- message of a subscription.
abbrev pub is_message_type : Bytes → Bool
is_message_type ty =
    bytes_eq ty (codes "message")
    || (bytes_eq ty (codes "pmessage") || bytes_eq ty (codes "smessage"))

unfoldable pub is_message_array : ValkeyFrame → Bool
is_message_array (array (cons (bulk_string ty) rest)) = is_message_type ty
is_message_array _ = false

pub is_subscription_message : ValkeyDecoder → ValkeyFrame → Bool
unfolding is_subscribed
is_subscription_message d frame = if is_subscribed d then is_message_array frame else false

unfoldable pub contains : List Bytes → Bytes → Bool
contains channels x = anyb (bytes_eq x) channels

-- `retain(|x| !channels.contains(x))`
unfoldable pub remove_all : List Bytes → List Bytes → List Bytes
unfolding contains
remove_all channels xs = filterb (λ x. not (contains channels x)) xs

-- The extra responses of an unsubscribe command, and the list afterwards.
pub unsubscribe_extra : List Bytes → List Bytes → ℕ
unsubscribe_extra channels xs = if is_empty channels then length xs - 1 else length channels - 1

pub unsubscribe_rest : List Bytes → List Bytes → List Bytes
unsubscribe_rest channels xs = if is_empty channels then [] else remove_all channels xs

-- `match request_info.ty`
pub on_request : RequestType → ValkeyDecoder → ValkeyDecoder
unfolding unsubscribe_extra unsubscribe_rest
on_request (subscribe channels) d = record d {
  pending_extra_responses = d.pending_extra_responses + (length channels - 1);
  subscribed = d.subscribed ++ channels;
}
on_request (psubscribe channels) d = record d {
  pending_extra_responses = d.pending_extra_responses + (length channels - 1);
  psubscribed = d.psubscribed ++ channels;
}
on_request (ssubscribe channels) d = record d {
  pending_extra_responses = d.pending_extra_responses + (length channels - 1);
  ssubscribed = d.ssubscribed ++ channels;
}
on_request (unsubscribe channels) d = record d {
  pending_extra_responses = d.pending_extra_responses + unsubscribe_extra channels d.subscribed;
  subscribed = unsubscribe_rest channels d.subscribed;
}
on_request (punsubscribe channels) d = record d {
  pending_extra_responses = d.pending_extra_responses + unsubscribe_extra channels d.psubscribed;
  psubscribed = unsubscribe_rest channels d.psubscribed;
}
on_request (sunsubscribe channels) d = record d {
  pending_extra_responses = d.pending_extra_responses + unsubscribe_extra channels d.ssubscribed;
  ssubscribed = unsubscribe_rest channels d.ssubscribed;
}
on_request reset d = record d {
  subscribed = [];
  psubscribed = [];
  ssubscribed = [];
  pending_extra_responses = 0;
}
on_request other d = d

-- `rx.recv()`, then the request's id for the response.
pub receive : Option (List RequestInfo) → ValkeyDecoder → Result (Option ℕ × ValkeyDecoder)
receive none d = ok (none, d)
receive (some []) d = err "valkey encoder half was lost"
receive (some (info ∷ infos)) d =
    ok (some info.id, on_request info.ty (record d { request_header_rx = some infos }))

-- What `decode` does with a frame: the request that it answers, and the decoder afterwards.
pub on_frame : ValkeyDecoder → ValkeyFrame → Result (Option ℕ × ValkeyDecoder)
unfolding is_subscription_message
on_frame d frame =
    if is_subscription_message d frame
    then ok (none, d)
    else if ltb 0 d.pending_extra_responses
    then ok (none, record d { pending_extra_responses = d.pending_extra_responses - 1 })
    else receive d.request_header_rx d

-- A decoded message: its bytes, its frame and the request that it answers.
pub record Decoded : Type 0 where
  pub bytes : Bytes
  pub frame : ValkeyFrame
  pub request_id : Option ℕ

-- `decode_bytes_mut`: the frame at the front, its bytes and the rest; `none` if it is not whole.
abbrev pub Parser : Type 0
Parser = Bytes → Result (Option (ValkeyFrame × Bytes × Bytes))

pub decode : Parser → ValkeyDecoder → Bytes → Result (Option Decoded × ValkeyDecoder × Bytes)
decode parse d src = parse src >>= λ parsed. elim parsed [
  | none ↦ ok (none, d, src)
  | some (frame, bytes, rest) ↦ (do
    (request_id, d') ← on_frame d frame
    ok (some (record { bytes = bytes; frame = frame; request_id = request_id }), d', rest))
]

-- The frames of a connection, one after the other: the request that each answers.
pub answer_all : ValkeyDecoder → List ValkeyFrame → Result (List (Option ℕ))
answer_all d [] = ok []
answer_all d (frame ∷ frames) = do
  (request_id, d') ← on_frame d frame
  ids ← answer_all d' frames
  ok (request_id ∷ ids)
