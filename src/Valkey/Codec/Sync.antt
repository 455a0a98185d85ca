-- ===== src/Valkey/Codec/Sync.antt =====
-- The decoder against what a server sends.
use shotover_proxy.Prelude.{
  ℕ, ◌-◌, ◌<◌, ◌≡◌, refl, ap, ◌∙◌, true, false, List, ◌∷◌, Option, none, some, ok, inl, inr, ◌>>=◌,
  arith, ltb, if◌then◌else◌, map,
}
use shotover_proxy.Valkey.Frame.{ValkeyFrame}
use shotover_proxy.Valkey.Codec.{
  RequestType, subscribe, psubscribe, ssubscribe, unsubscribe, punsubscribe, sunsubscribe, reset,
  other, RequestInfo, ValkeyDecoder, is_subscription_message, is_message_array, on_request, receive,
  on_frame, answer_all,
}
use shotover_proxy.Valkey.Codec.Pushes.{
  IsPush-is_message_array, is_message_array_response, add_all-append, unsubscribe_rest-leave,
}
use shotover_proxy.Valkey.Codec.Server.{
  Server, listens, IsPush, IsResponse, after, extra, Fresh, Conversation, quiet, push, owed, answer,
}

-- The decoder follows the server: the same channels, the same number of responses owed, and the
-- requests to come are in its channel.
pub record Follows (d : ValkeyDecoder) (s : Server) (n : ℕ) (rs : List RequestInfo) : Type 0 where
  pub channels : d.subscribed ≡ s.channels
  pub patterns : d.psubscribed ≡ s.patterns
  pub shards : d.ssubscribed ≡ s.shards
  pub pending : d.pending_extra_responses ≡ n
  pub requests : d.request_header_rx ≡ some rs

on_request-Follows :
    (t : RequestType) (d : ValkeyDecoder) (s : Server) (rs : List RequestInfo)
    → Follows d s 0 rs
    → Fresh t s
    → Follows (on_request t d) (after t s) (extra t s) rs
unfolding on_request
on_request-Follows (subscribe cs) d s rs f h = ground (arith, add_all-append cs s.channels)
on_request-Follows (psubscribe cs) d s rs f h = ground (arith, add_all-append cs s.patterns)
on_request-Follows (ssubscribe cs) d s rs f h = ground (arith, add_all-append cs s.shards)
on_request-Follows (unsubscribe cs) d s rs f h =
    ground (arith, unsubscribe_rest-leave cs s.channels)
on_request-Follows (punsubscribe cs) d s rs f h =
    ground (arith, unsubscribe_rest-leave cs s.patterns)
on_request-Follows (sunsubscribe cs) d s rs f h = ground (arith, unsubscribe_rest-leave cs s.shards)
on_request-Follows reset d s rs f h = ground arith
on_request-Follows other d s rs f h = f

listens-Follows :
    (d : ValkeyDecoder) (s : Server) (n : ℕ) (rs : List RequestInfo) (frame : ValkeyFrame)
    → Follows d s n rs
    → is_subscription_message d frame ≡ (if listens s then is_message_array frame else false)
unfolding is_subscription_message
listens-Follows d s n rs frame f = cc (f.channels, f.patterns, f.shards)

-- The decoder takes pushes for pushes, and responses for responses.
push-Follows :
    (d : ValkeyDecoder) (s : Server) (n : ℕ) (rs : List RequestInfo) (frame : ValkeyFrame)
    → Follows d s n rs
    → listens s ≡ true
    → IsPush frame
    → is_subscription_message d frame ≡ true
push-Follows d s n rs frame f l p =
    listens-Follows d s n rs frame f ∙ rw l (IsPush-is_message_array frame p)

response-Follows :
    (d : ValkeyDecoder) (s : Server) (n : ℕ) (rs : List RequestInfo) (frame : ValkeyFrame)
    → Follows d s n rs
    → IsResponse s frame
    → is_subscription_message d frame ≡ false
response-Follows d s n rs frame f (inl quiet_server) =
    listens-Follows d s n rs frame f ∙ rw quiet_server refl
response-Follows d s n rs frame f (inr other_frame) =
    listens-Follows d s n rs frame f ∙ ground (arith, is_message_array_response frame other_frame)

on_frame_push :
    (d : ValkeyDecoder) (frame : ValkeyFrame)
    → is_subscription_message d frame ≡ true
    → on_frame d frame ≡ ok (none, d)
unfolding on_frame
on_frame_push d frame h = rw h refl

pub on_frame_owed :
    (d : ValkeyDecoder) (frame : ValkeyFrame)
    → is_subscription_message d frame ≡ false
    → 0 < d.pending_extra_responses
    → on_frame d frame
      ≡ ok (none, record d { pending_extra_responses = d.pending_extra_responses - 1 })
unfolding on_frame
on_frame_owed d frame h p =
    let t : ltb 0 d.pending_extra_responses ≡ true = ground arith in rw (h, t) refl

pub on_frame_answer :
    (d : ValkeyDecoder) (frame : ValkeyFrame) (r : RequestInfo) (rest : List RequestInfo)
    → is_subscription_message d frame ≡ false
    → d.pending_extra_responses ≡ 0
    → d.request_header_rx ≡ some (r ∷ rest)
    → on_frame d frame
      ≡ ok (some r.id, on_request r.ty (record d { request_header_rx = some rest }))
unfolding on_frame receive
on_frame_answer d frame r rest h p q =
    let t : ltb 0 d.pending_extra_responses ≡ false = ground arith in
    rw (h, t) (ap (λ (rx : Option (List RequestInfo)). receive rx d) q)

-- For every conversation in which the server carries out all pubsub commands, no request subscribes
-- to a channel twice, and no response that comes during a subscription looks like a push, with pushes
-- anywhere among the responses: a decoder that follows the server gives each frame exactly the request that the server
-- answered by it, and none to pushes and to the further responses of a command.
pub answer_all-Conversation :
    (d : ValkeyDecoder) (s : Server) (n : ℕ) (rs : List RequestInfo)
    (es : List (ValkeyFrame × Option ℕ))
    → Follows d s n rs
    → Conversation s n rs es
    → answer_all d (map (λ e. e.0) es) ≡ ok (map (λ e. e.1) es)
unfolding answer_all
answer_all-Conversation d s n rs es f (quiet _ _ _) = refl
answer_all-Conversation d s n rs es f (push _ _ _ frame rest l m c) =
    let e : on_frame d frame ≡ ok (none, d) =
      on_frame_push d frame (push-Follows d s n rs frame f l m) in
    rw (e, ◌>>=◌, answer_all-Conversation d s n rs rest f c, ◌>>=◌) refl
answer_all-Conversation d s n rs es f (owed _ _ _ frame rest m e i c) =
    let less : ValkeyDecoder = record d {
      pending_extra_responses = d.pending_extra_responses - 1;
    } in
    let g : Follows less s m rs = record {
      channels = f.channels;
      patterns = f.patterns;
      shards = f.shards;
      pending = omega (arith, f.pending, e);
      requests = f.requests;
    } in
    let step =
      on_frame_owed d frame (response-Follows d s n rs frame f i) (omega (arith, f.pending, e)) in
    rw (step, ◌>>=◌, answer_all-Conversation less s m rs rest g c, ◌>>=◌) refl
answer_all-Conversation d s n rs es f (answer _ _ _ frame rest r others e q i h c) =
    let d' : ValkeyDecoder = record d { request_header_rx = some others } in
    let g : Follows d' s 0 others = record {
      channels = f.channels;
      patterns = f.patterns;
      shards = f.shards;
      pending = f.pending ∙ e;
      requests = refl;
    } in
    let step =
      on_frame_answer d frame r others (response-Follows d s n rs frame f i) (f.pending ∙ e)
        (f.requests ∙ ap some q) in
    let next = on_request-Follows r.ty d' s others g h in
    rw (step, ◌>>=◌, answer_all-Conversation _ _ _ others rest next c, ◌>>=◌) refl
