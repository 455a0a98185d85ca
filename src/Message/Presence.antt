-- ===== src/Message/Presence.antt =====
-- The field `inner` of a message, over the constructors and methods of message/mod.rs.
use mathlib.Core.Option
use shotover_proxy.Prelude.{ℕ, ◌≡◌, refl, sym, ap, Bytes, Option, some, ok, ok_injective, bind_ok}
use shotover_proxy.Valkey.Frame.{QueryType}
use shotover_proxy.Message.Frame.{Protocols, MessageType, CodecState, Frame}
use shotover_proxy.Message.State.{
  MessageInner, Message, Encodable, from_bytes_at_instant, from_bytes_and_frame_at_instant,
  from_frame_at_instant, from_frame_diverged, frame, get_query_type, edit, invalidate_cache,
  set_request_id, clone_with_new_id, into_encodable, message_type, unwrap, ensure_parsed,
  parsed_frame, query_type_of, encode_inner, inner_type,
}
use shotover_proxy.Message.Response.{replace_with_dummy}

module _ (P : Protocols) where
  -- The messages that the constructors and the methods give.
  pub data Reachable : Message P → Type 0 where
    bytes :
        (id : ℕ) (src : Bytes) (state : CodecState P) (at : Option ℕ)
        → Reachable (from_bytes_at_instant P id src state at)
    bytes_and_frame :
        (id : ℕ) (src : Bytes) (f : Frame P) (at : Option ℕ)
        → Reachable (from_bytes_and_frame_at_instant P id src f at)
    frame_only :
        (id : ℕ) (f : Frame P) (at : Option ℕ) → Reachable (from_frame_at_instant P id f at)
    diverged : (f : Frame P) (m : Message P) → Reachable m → Reachable (from_frame_diverged P f m)
    framed :
        (m m' : Message P) (r : Option (Frame P))
        → Reachable m
        → frame P m ≡ ok (m', r)
        → Reachable m'
    queried :
        (m m' : Message P) (q : QueryType)
        → Reachable m
        → get_query_type P m ≡ ok (m', q)
        → Reachable m'
    edited : (m : Message P) (f : Frame P) → Reachable m → Reachable (edit P f m)
    invalidated : (m : Message P) → Reachable m → Reachable (invalidate_cache P m)
    dummied : (m : Message P) → Reachable m → Reachable (replace_with_dummy P m)
    answering : (m : Message P) (id : ℕ) → Reachable m → Reachable (set_request_id P id m)
    cloned : (m : Message P) (id : ℕ) → Reachable m → Reachable (clone_with_new_id P id m)

  abbrev IsPresent : Message P → Type 0
  IsPresent m = (i : MessageInner P) × (m.inner ≡ some i)

  frame-IsPresent :
      (m m' : Message P) (r : Option (Frame P)) → frame P m ≡ ok (m', r) → IsPresent m'
  unfolding frame
  frame-IsPresent m m' r h =
      let (i, hi, h1) = bind_ok (unwrap m.inner) _ (m', r) h in
      let (q, hq, h2) = bind_ok (ensure_parsed P i m.codec_state) _ (m', r) h1 in
      let (f, hf, h3) = bind_ok (parsed_frame P q) _ (m', r) h2 in
      (q.0, sym (ap (λ (x : Message P × Option (Frame P)). x.0.inner) (ok_injective _ _ h3)))

  get_query_type-IsPresent :
      (m m' : Message P) (q : QueryType) → get_query_type P m ≡ ok (m', q) → IsPresent m'
  unfolding get_query_type
  get_query_type-IsPresent m m' q h =
      let (r, hr, h1) = bind_ok (frame P m) _ (m', q) h in
      let (p, hp, h2) = bind_ok (query_type_of P r.1) _ (m', q) h1 in
      let same : r.0 ≡ m' = ap (λ (x : Message P × QueryType). x.0) (ok_injective _ _ h2) in
      let (i, hi) = frame-IsPresent m r.0 r.1 hr in (i, rw (sym same) hi)

  Reachable-IsPresent : (m : Message P) → Reachable m → IsPresent m
  unfolding from_bytes_at_instant from_bytes_and_frame_at_instant from_frame_at_instant
      from_frame_diverged invalidate_cache replace_with_dummy set_request_id clone_with_new_id
  Reachable-IsPresent _ (bytes id src state at) = (_, refl)
  Reachable-IsPresent _ (bytes_and_frame id src f at) = (_, refl)
  Reachable-IsPresent _ (frame_only id f at) = (_, refl)
  Reachable-IsPresent _ (diverged f m r) = (_, refl)
  Reachable-IsPresent _ (framed m m' f r h) = frame-IsPresent m m' f h
  Reachable-IsPresent _ (queried m m' q r h) = get_query_type-IsPresent m m' q h
  Reachable-IsPresent _ (edited m f r) =
      let (i, hi) = Reachable-IsPresent m r in (_, ap (Option.map _) hi)
  Reachable-IsPresent _ (invalidated m r) =
      let (i, hi) = Reachable-IsPresent m r in (_, ap (Option.map _) hi)
  Reachable-IsPresent _ (dummied m r) = (_, refl)
  Reachable-IsPresent _ (answering m id r) = Reachable-IsPresent m r
  Reachable-IsPresent _ (cloned m id r) = Reachable-IsPresent m r

  -- Every message that the constructors and methods give, in any order, has its `inner` in place, so
  -- that neither its type nor its encoding can panic.
  pub Reachable-into_encodable :
      (m : Message P)
      → Reachable m
      → ((t : MessageType) × (message_type P m ≡ ok t))
        × ((e : Encodable P) × (into_encodable P m ≡ ok e))
  unfolding into_encodable message_type
  Reachable-into_encodable m r =
      let (i, hi) = Reachable-IsPresent m r in
      ((inner_type P i, rw hi refl), (encode_inner P i, rw hi refl))
