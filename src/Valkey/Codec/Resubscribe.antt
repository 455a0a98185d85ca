-- ===== src/Valkey/Codec/Resubscribe.antt =====
-- A client that subscribes again to a channel that it has.
use shotover_proxy.Prelude.{
  ℕ, ◌+◌, ◌-◌, ◌<◌, ◌≡◌, refl, sym, ap, ◌∙◌, true, false, List, [], ◌∷◌, ◌++◌, Bytes, none, some,
  ok, All, ◌>>=◌, arith, length, map, length-append,
}
use mathlib.Core.Bool.{false≢true}
use shotover_proxy.Valkey.Frame.{ValkeyFrame}
use shotover_proxy.Valkey.Codec.{
  subscribe, unsubscribe, RequestInfo, ValkeyDecoder, is_subscription_message, on_request, on_frame,
  answer_all,
}
use shotover_proxy.Valkey.Codec.Pushes.{is_message_array_response}
use shotover_proxy.Valkey.Codec.Server.{Server, has, IsPush, add_all, after, extra}
use shotover_proxy.Valkey.Codec.Sync.{Follows, on_frame_owed, on_frame_answer}

has-pos : (xs : List Bytes) (c : Bytes) → has xs c ≡ true → 0 < length xs
unfolding has
has-pos [] c h = absurd (false≢true h)
has-pos (x ∷ xs) c h = omega arith

-- After the client subscribes to a channel that it has, the decoder waits for one response more.
resubscribe_pending :
    (d : ValkeyDecoder) (s : Server) (rs : List RequestInfo) (c : Bytes)
    → Follows d s 0 rs
    → has s.channels c ≡ true
    → (on_request (unsubscribe []) (on_request (subscribe (c ∷ [])) d)).pending_extra_responses
      ≡ extra (unsubscribe []) (after (subscribe (c ∷ [])) s) + 1
unfolding on_request
resubscribe_pending d s rs c f h =
    let one : add_all (c ∷ []) s.channels ≡ s.channels = unfold add_all in rw h refl in
    let some_channel : 0 < length s.channels = has-pos s.channels c h in
    ground (arith, one, length-append s.channels (c ∷ []))

not_push :
    (d : ValkeyDecoder) (frame : ValkeyFrame)
    → ¬ IsPush frame
    → is_subscription_message d frame ≡ false
unfolding is_subscription_message
not_push d frame other_frame = ground (arith, is_message_array_response frame other_frame)

-- While responses are pending, frames that are no pushes are taken for them.
owed_frames :
    (d : ValkeyDecoder) (frames : List ValkeyFrame) (last : ValkeyFrame)
    → All (λ g. ¬ IsPush g) frames
    → ¬ IsPush last
    → d.pending_extra_responses ≡ length frames + 1
    → answer_all d (frames ++ last ∷ []) ≡ ok (map (λ g. none) frames ++ none ∷ [])
unfolding answer_all
owed_frames d [] last all p e =
    let step = on_frame_owed d last (not_push d last p) (omega (arith, e)) in rw (step, ◌>>=◌) refl
owed_frames d (g ∷ gs) last all p e =
    let step = on_frame_owed d g (not_push d g all.0) (omega (arith, e)) in
    let less : ValkeyDecoder = record d {
      pending_extra_responses = d.pending_extra_responses - 1;
    } in
    rw (step, ◌>>=◌, owed_frames less gs last all.1 p (omega (arith, e)), ◌>>=◌) refl

-- The decoder keeps a list of channels where the server keeps a set. From any state in which the
-- decoder follows the server, let a client subscribe to a channel that it has already, unsubscribe
-- from all channels, and send a third request, and let the server send a response to the first, the
-- responses to the second, one for each channel, and a response to the third, none of which looks
-- like a push. Then the decoder takes the response to the third request for a further response to the
-- second, and gives it no request.
pub resubscribe_waits :
    (d : ValkeyDecoder) (s : Server) (rs : List RequestInfo) (c : Bytes) (i j : ℕ) (r : RequestInfo)
    (first second third : ValkeyFrame) (more : List ValkeyFrame)
    → Follows d s 0 (
        record { ty = subscribe (c ∷ []); id = i }
        ∷ record { ty = unsubscribe []; id = j }
        ∷ r
        ∷ rs)
    → has s.channels c ≡ true
    → length more ≡ extra (unsubscribe []) (after (subscribe (c ∷ [])) s)
    → All (λ g. ¬ IsPush g) (first ∷ second ∷ third ∷ more)
    → answer_all d (first ∷ second ∷ more ++ third ∷ [])
      ≡ ok (some i ∷ some j ∷ map (λ g. none) more ++ none ∷ [])
unfolding answer_all on_request
resubscribe_waits d s rs c i j r first second third more f h size (p1, (p2, (p3, ps))) =
    let d1 : ValkeyDecoder = record d {
      request_header_rx = some (record { ty = unsubscribe []; id = j } ∷ r ∷ rs);
    } in
    let d2 : ValkeyDecoder = on_request (subscribe (c ∷ [])) d1 in
    let d3 : ValkeyDecoder =
      on_request (unsubscribe []) (record d2 { request_header_rx = some (r ∷ rs) }) in
    let g : Follows d1 s 0 (record { ty = unsubscribe []; id = j } ∷ r ∷ rs) = record {
      channels = f.channels;
      patterns = f.patterns;
      shards = f.shards;
      pending = f.pending;
      requests = refl;
    } in
    let one = on_frame_answer d first _ _ (not_push d first p1) f.pending f.requests in
    let two : on_frame d2 second ≡ ok (some j, d3) =
      on_frame_answer d2 second (record { ty = unsubscribe []; id = j }) (r ∷ rs)
        (not_push d2 second p2) (omega (arith, f.pending)) refl in
    let waits : d3.pending_extra_responses ≡ length more + 1 =
      resubscribe_pending d1 s _ c g h ∙ ap (λ (n : ℕ). n + 1) (sym size) in
    rw (one, ◌>>=◌, two, ◌>>=◌, owed_frames d3 more third ps p3 waits, ◌>>=◌) refl
