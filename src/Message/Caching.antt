-- ===== src/Message/Caching.antt =====
-- `Message::frame` and `Message::invalidate_cache`, and what is sent afterwards.
use shotover_proxy.Prelude.{
  ok_injective, String, ◌⊎◌, inl, inr, ◌≡◌, refl, ◌∙◌, sym, ap, Bool, Bytes, Option, none, some,
  Result, ok, err, panic, ◌>>=◌,
}
use shotover_proxy.Message.Frame.{Protocols, MessageType, CodecState, Frame, from_bytes}
use shotover_proxy.Message.State.{
  MessageInner, raw_bytes, parsed, modified, Message, Encodable, frame, into_encodable,
  ensure_parsed, parsed_frame, after_parse, edit, invalidate_cache, invalidate_inner, encode_frame,
  encode_inner, set_frame, unwrap,
}

module _ (P : Protocols) where
  -- What a successful `frame` does to the inside of a message.
  data Parsing : CodecState P → MessageInner P → MessageInner P → Option (Frame P) → Type 0 where
    fails :
        (state : CodecState P) (bytes : Bytes) (ty : MessageType) (e : String)
        → from_bytes P bytes ty state ≡ err e
        → Parsing state (raw_bytes bytes ty) (raw_bytes bytes ty) none
    parses :
        (state : CodecState P) (bytes : Bytes) (ty : MessageType) (f : Frame P)
        → Parsing state (raw_bytes bytes ty) (parsed bytes f) (some f)
    was_parsed :
        (state : CodecState P) (bytes : Bytes) (f : Frame P)
        → Parsing state (parsed bytes f) (parsed bytes f) (some f)
    was_modified :
        (state : CodecState P) (f : Frame P) → Parsing state (modified f) (modified f) (some f)

  -- `frame` panics, or parses.
  abbrev Outcome : Message P → Result (Message P × Option (Frame P)) → Type 0
  Outcome m r =
      (r ≡ panic)
      ⊎ ((i i' : MessageInner P) × (f : Option (Frame P)) × (m.inner ≡ some i)
          × (r ≡ ok (record m { inner = some i' }, f))
          × Parsing m.codec_state i i' f)

  -- `frame` behind `ensure_parsed`.
  abbrev finish_frame :
      Message P → Result (MessageInner P × Bool) → Result (Message P × Option (Frame P))
  finish_frame m parsing =
      parsing >>= λ r. parsed_frame P r >>= λ f. ok (record m { inner = some r.0 }, f)

  raw-Outcome :
      (m : Message P) (bytes : Bytes) (ty : MessageType) (r : Result (Frame P))
      → m.inner ≡ some (raw_bytes bytes ty)
      → from_bytes P bytes ty m.codec_state ≡ r
      → Outcome m (finish_frame m (after_parse P bytes ty r))
  unfolding parsed_frame
  raw-Outcome m bytes ty (ok f) at h = inr (_, _, _, at, refl, parses _ bytes ty f)
  raw-Outcome m bytes ty (err e) at h = inr (_, _, _, at, refl, fails _ bytes ty e h)
  raw-Outcome m bytes ty panic at h = inl refl

  Outcome-from :
      (m : Message P) (o : Option (MessageInner P))
      → m.inner ≡ o
      → Outcome m (unwrap o >>= λ i. finish_frame m (ensure_parsed P i m.codec_state))
  unfolding ensure_parsed parsed_frame
  Outcome-from m none at = inl refl
  Outcome-from m (some (raw_bytes bytes ty)) at = raw-Outcome m bytes ty _ at refl
  Outcome-from m (some (parsed bytes f)) at = inr (_, _, _, at, refl, was_parsed _ bytes f)
  Outcome-from m (some (modified f)) at = inr (_, _, _, at, refl, was_modified _ f)

  outcome : (m : Message P) → Outcome m (frame P m)
  unfolding frame
  outcome m = Outcome-from m m.inner refl

  encode-Parsing :
      (state : CodecState P) (i i' : MessageInner P) (f : Option (Frame P))
      → Parsing state i i' f
      → encode_inner P i' ≡ encode_inner P i
  encode-Parsing _ _ _ _ (fails state bytes ty e h) = refl
  encode-Parsing _ _ _ _ (parses state bytes ty f) = refl
  encode-Parsing _ _ _ _ (was_parsed state bytes f) = refl
  encode-Parsing _ _ _ _ (was_modified state f) = refl

  again-Parsing :
      (m : Message P) (state : CodecState P) (i i' : MessageInner P) (f : Option (Frame P))
      → Parsing state i i' f
      → finish_frame m (ensure_parsed P i' state) ≡ ok (record m { inner = some i' }, f)
  unfolding ensure_parsed parsed_frame
  again-Parsing m _ _ _ _ (fails state bytes ty e h) = rw h refl
  again-Parsing m _ _ _ _ (parses state bytes ty f) = refl
  again-Parsing m _ _ _ _ (was_parsed state bytes f) = refl
  again-Parsing m _ _ _ _ (was_modified state f) = refl

  edited-Parsing :
      (state : CodecState P) (i i' : MessageInner P) (f g : Frame P) (r : Option (Frame P))
      → Parsing state i i' r
      → r ≡ some f
      → encode_inner P (invalidate_inner P (set_frame P g i')) ≡ encode_frame P g
  unfolding invalidate_inner
  edited-Parsing _ _ _ f g _ (fails state bytes ty e h) there = cc
  edited-Parsing _ _ _ f g _ (parses state bytes ty _) there = refl
  edited-Parsing _ _ _ f g _ (was_parsed state bytes _) there = refl
  edited-Parsing _ _ _ f g _ (was_modified state _) there = refl

  -- What `outcome` says when `frame` returns.
  abbrev Returned : Message P → Message P → Option (Frame P) → Type 0
  Returned m m' r =
      (i i' : MessageInner P) × (m.inner ≡ some i)
      × (m' ≡ record m { inner = some i' })
      × Parsing m.codec_state i i' r

  returned : (m m' : Message P) (r : Option (Frame P)) → frame P m ≡ ok (m', r) → Returned m m' r
  returned m m' r h = elim (outcome m) [
    | inl stopped ↦ cc
    | inr (i, i', f, at, e, p) ↦
        let q : (record m { inner = some i' }, f) ≡ (m', r) = ok_injective _ _ (sym e ∙ h) in
        let found : f ≡ r = ap (λ (x : Message P × Option (Frame P)). x.1) q in
        (i, i', at, sym (ap (λ (x : Message P × Option (Frame P)). x.0) q), rw (sym found) p)
  ]

  -- Whenever `frame` returns, with a frame or with `none` for bytes that do not parse: the message is
  -- sent as it was before, and calling `frame` again returns the same and changes nothing.
  pub frame-frame :
      (m m' : Message P) (r : Option (Frame P))
      → frame P m ≡ ok (m', r)
      → (into_encodable P m' ≡ into_encodable P m) × (frame P m' ≡ ok (m', r))
  unfolding frame into_encodable
  frame-frame m m' r h =
      let (i, i', at, e, p) = returned m m' r h in
      (
        rw (e, at) (ap (λ (x : Encodable P). ok x) (encode-Parsing _ i i' r p)),
        rw e (again-Parsing m m.codec_state i i' r p),
      )

  -- A frame that `frame` gave, changed to another and followed by `invalidate_cache`, is what is sent;
  -- a dummy is sent as no bytes.
  pub into_encodable-invalidate_cache :
      (m m' : Message P) (f g : Frame P)
      → frame P m ≡ ok (m', some f)
      → into_encodable P (invalidate_cache P (edit P g m')) ≡ ok (encode_frame P g)
  unfolding into_encodable invalidate_cache
  into_encodable-invalidate_cache m m' f g h =
      let (i, i', at, e, p) = returned m m' (some f) h in
      rw e (ap (λ (x : Encodable P). ok x) (edited-Parsing _ i i' f g (some f) p refl))

  -- `frame` keeps the id.
  pub frame-id : (m m' : Message P) (r : Option (Frame P)) → frame P m ≡ ok (m', r) → m'.id ≡ m.id
  frame-id m m' r h = let (i, i', at, e, p) = returned m m' r h in ap (λ (x : Message P). x.id) e
