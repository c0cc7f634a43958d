-- ===== src/Transport/Dispatch.antt =====
-- Sending and dispatching frames.
use relink_com.Base.{
  ℕ, ◌+◌, ◌%◌, ◌<◌, ◌≤◌, ◌≡◌, refl, sym, ap, ◌∙◌, inl, inr, Bool, true, false, ◌&&◌, Option, none,
  some, List, [], ◌∷◌, ◌++◌, arith, ltb, if◌then◌else◌, length, length-append, append_assoc,
  u16_mod, u32_mod, le→ltb, lt→ltb, find, nat_key, find-put_self, put,
}
use native.Mathlib.Decide.{dec_lt}
use relink_com.Frame.{
  start_byte, stop_byte, max_payload_bytes, max_frame_bytes, header_bytes, encode_frame,
  decode_frame, decoded, DecodedFrame,
}
use relink_com.Frame.RoundTrip.{decode_frame-encode_frame, plain_header}
use relink_com.Transport.Window.{IsWindow, arrive, check_window_again}
use relink_com.Transport.{
  Transport, SeqWindow, next_seq, publish_seq, publish_raw, publish_scattered, dispatch, deliver,
  recv_and_dispatch, is_recent_duplicate, check_window, window_of,
}

publish_seq_large :
    (topic : ℕ) (payload : List ℕ) (seq : ℕ)
    → max_payload_bytes < length payload
    → publish_seq topic payload seq ≡ none
unfolding publish_seq encode_frame
publish_seq_large topic payload seq h =
    rw (publish_seq, encode_frame, lt→ltb max_payload_bytes (length payload) h)

publish_seq_small :
    (topic : ℕ) (extra bytes : List ℕ) (seq : ℕ)
    → length extra + length bytes ≤ max_payload_bytes
    → publish_seq topic (extra ++ bytes) seq
      ≡ some (
          start_byte
          ∷ (header_bytes (record {
            topic_id = topic;
            seq_num = seq;
            payload_len = (length extra + length bytes) % u16_mod;
            flags = 0;
          })
              ++ (extra ++ (bytes ++ (stop_byte ∷ [])))))
unfolding publish_seq encode_frame
publish_seq_small topic extra bytes seq h = rw (
  publish_seq,
  encode_frame,
  length-append extra bytes,
  le→ltb (length extra + length bytes) max_payload_bytes h,
  le→ltb (1 + 9 + (length extra + length bytes) + 1) max_frame_bytes (omega arith),
  append_assoc extra bytes (stop_byte ∷ []),
)

-- A number that was new is a duplicate the next time.
duplicate_again :
    (topic seq : ℕ) (windows : List (ℕ × SeqWindow))
    → IsWindow (window_of topic windows)
    → (is_recent_duplicate topic seq windows).1 ≡ false
    → (is_recent_duplicate topic seq (is_recent_duplicate topic seq windows).0).1 ≡ true
unfolding is_recent_duplicate arrive window_of
duplicate_again topic seq windows w new =
    ap (λ (v : SeqWindow). (check_window seq v).1)
      (window_of-put topic (check_window seq (window_of topic windows)).0 windows)
    ∙ check_window_again seq [] (window_of topic windows) w new (omega arith)
  where
    window_of-put :
        (topic : ℕ) (v : SeqWindow) (windows : List (ℕ × SeqWindow))
        → window_of topic (put topic v windows) ≡ v
    window_of-put topic v windows = rw (window_of, find-put_self topic v windows)

abbrev frame_of : ℕ → ℕ → List ℕ → DecodedFrame
frame_of topic seq payload = record {
  header = plain_header topic seq payload;
  payload = payload;
  payload_len = length payload;
}

module _ {H : Type 0} where
  -- The datagram depends on the counter alone.
  pub publish_raw-publish_seq :
      (topic : ℕ) (payload : List ℕ) (t : Transport H)
      → (publish_raw topic payload t).1 ≡ publish_seq topic payload t.seq_counter
  unfolding publish_raw next_seq
  publish_raw-publish_seq topic payload t = refl

  -- The scatter-gather path puts the same bytes on the wire as the copying one would for the header and the
  -- data joined, whatever their lengths; both refuse what is longer than the payload limit, though only the
  -- copying one uses up a sequence number then.
  pub publish_scattered-publish_raw :
      (topic : ℕ) (extra_header bytes : List ℕ) (t : Transport H)
      → ((publish_scattered topic extra_header bytes t).1
          ≡ (publish_raw topic (extra_header ++ bytes) t).1)
        × ((publish_scattered topic extra_header bytes t).0 ≡ (
            if ltb max_payload_bytes (length extra_header + length bytes)
            then t
            else (publish_raw topic (extra_header ++ bytes) t).0))
  unfolding publish_scattered publish_raw next_seq
  publish_scattered-publish_raw topic extra_header bytes t =
      elim (dec_lt max_payload_bytes (length extra_header + length bytes)) [
        | yes large ↦
            let e = lt→ltb max_payload_bytes (length extra_header + length bytes) large in
            (
              rw (publish_scattered, e)
                  (sym (
                    publish_seq_large topic (extra_header ++ bytes) t.seq_counter
                      (omega (arith, length-append extra_header bytes)))),
              rw (publish_scattered, e),
            )
        | no small ↦
            let e = le→ltb (length extra_header + length bytes) max_payload_bytes (omega arith) in
            (
              rw (publish_scattered, e)
                  (sym (publish_seq_small topic extra_header bytes t.seq_counter (omega arith))),
              rw (publish_scattered, e),
            )
      ]

  -- The datagram that carries a payload, and what a receiver does with it.
  sent :
      (topic seq : ℕ) (payload : List ℕ)
      → topic < u32_mod
      → seq < u16_mod
      → length payload ≤ max_payload_bytes
      → (d : List ℕ) × (publish_seq topic payload seq ≡ some d)
        × ((r : Transport H) → recv_and_dispatch d r ≡ dispatch (frame_of topic seq payload) r)
  unfolding publish_seq recv_and_dispatch
  sent topic seq payload ht hs hp =
      elim (decode_frame-encode_frame topic seq payload max_frame_bytes ht hs) [
        | inl (bad, why) ↦ absurd (omega (arith, why))
        | inr (frame, enc, _, size, _, dec) ↦
            (frame, rw (enc, publish_seq), λ r. received r frame (omega (arith, size)) _ dec)
      ]
    where
      received :
          (r : Transport H) (frame : List ℕ)
          → 0 < length frame
          → (f : DecodedFrame) → decode_frame frame ≡ decoded f
          → recv_and_dispatch frame r ≡ dispatch f r
      received r [] h f e = absurd (omega arith)
      received r (b ∷ bs) h f e = rw (e, recv_and_dispatch)

  deliver_eq :
      (frame : DecodedFrame) (r : Transport H) (cb : H)
      → find frame.header.topic_id r.handlers ≡ some cb
      → deliver frame r ≡ (true, some (cb, frame.payload))
  unfolding deliver
  deliver_eq frame r cb e = rw (e, deliver)

  -- What a frame's dispatch comes to where its topic has a handler.
  dispatch_eq :
      (frame : DecodedFrame) (r : Transport H) (cb : H) (dup : Bool)
      → find frame.header.topic_id r.handlers ≡ some cb
      → (is_recent_duplicate frame.header.topic_id frame.header.seq_num r.recent_seqs).1 ≡ dup
      → (dispatch frame r).1
        ≡ (true, if r.dedup_enabled && dup then none else some (cb, frame.payload))
  unfolding dispatch deliver
  dispatch_eq frame r cb dup e d = pick r.dedup_enabled dup refl d
    where
      pick :
          (on dup : Bool)
          → r.dedup_enabled ≡ on
          → (is_recent_duplicate frame.header.topic_id frame.header.seq_num r.recent_seqs).1 ≡ dup
          → (dispatch frame r).1 ≡ (true, if on && dup then none else some (cb, frame.payload))
      pick true true q d' = rw (q, d')
      pick true false q d' =
          rw (q, d')
            (deliver_eq frame
              (record r {
                dedup_enabled = true;
                recent_seqs =
                    (is_recent_duplicate frame.header.topic_id frame.header.seq_num
                      r.recent_seqs).0;
              })
              cb e)
      pick false dup q d' = rw q (deliver_eq frame (record r { dedup_enabled = false }) cb e)

  -- A payload of at most kMaxPayloadBytes is sent, and a receiver that has a handler for the topic calls it
  -- with exactly that payload, unless duplicates are dropped and the topic's window has the sequence number:
  -- then it calls nothing. The topic is below 2^32 and the counter below 2^16.
  pub publish_raw-recv_and_dispatch :
      (topic : ℕ) (payload : List ℕ) (t r : Transport H) (cb : H)
      → topic < u32_mod
      → t.seq_counter < u16_mod
      → length payload ≤ max_payload_bytes
      → find topic r.handlers ≡ some cb
      → (d : List ℕ) × ((publish_raw topic payload t).1 ≡ some d)
        × ((recv_and_dispatch d r).1 ≡ (
          true,
          if r.dedup_enabled && (is_recent_duplicate topic t.seq_counter r.recent_seqs).1
              then none
              else some (cb, payload),
        ))
  unfolding publish_raw next_seq
  publish_raw-recv_and_dispatch topic payload t r cb ht hs hp e =
      let (d, enc, got) = sent topic t.seq_counter payload ht hs hp in
      (
        d,
        enc,
        ap (λ (x : Transport H × (Bool × Option (H × List ℕ))). x.1) (got r)
            ∙ dispatch_eq (frame_of topic t.seq_counter payload) r cb _ e refl,
      )

  dispatch_state :
      (frame : DecodedFrame) (r : Transport H)
      → r.dedup_enabled ≡ true
      → (is_recent_duplicate frame.header.topic_id frame.header.seq_num r.recent_seqs).1 ≡ false
      → (dispatch frame r).0 ≡ record r {
        dedup_enabled = true;
        recent_seqs =
            (is_recent_duplicate frame.header.topic_id frame.header.seq_num r.recent_seqs).0;
      }
  unfolding dispatch
  dispatch_state frame r on new = rw (on, new)

  -- With duplicates dropped, a datagram of a topic that has a handler, whose sequence number the topic's
  -- well-formed window does not have yet, is given to the handler once: the same datagram received again calls
  -- nothing. The payload has at most kMaxPayloadBytes, the topic is below 2^32 and the counter below 2^16.
  pub recv_and_dispatch_again :
      (topic : ℕ) (payload : List ℕ) (t r : Transport H) (cb : H)
      → topic < u32_mod
      → t.seq_counter < u16_mod
      → length payload ≤ max_payload_bytes
      → find topic r.handlers ≡ some cb
      → r.dedup_enabled ≡ true
      → IsWindow (window_of topic r.recent_seqs)
      → (is_recent_duplicate topic t.seq_counter r.recent_seqs).1 ≡ false
      → (d : List ℕ) × ((publish_raw topic payload t).1 ≡ some d)
        × ((recv_and_dispatch d r).1 ≡ (true, some (cb, payload)))
        × ((recv_and_dispatch d (recv_and_dispatch d r).0).1 ≡ (true, none))
  unfolding publish_raw next_seq
  recv_and_dispatch_again topic payload t r cb ht hs hp e on w new =
      let (d, enc, got) = sent topic t.seq_counter payload ht hs hp in
      let f = frame_of topic t.seq_counter payload in
      (
        d,
        enc,
        ap (λ (x : Transport H × (Bool × Option (H × List ℕ))). x.1) (got r)
            ∙ dispatch_eq f r cb false e new
            ∙ rw on,
        ap (λ (x : Transport H × (Bool × Option (H × List ℕ))). (recv_and_dispatch d x.0).1) (got r)
            ∙ ap (λ (x : Transport H). (recv_and_dispatch d x).1) (dispatch_state f r on new)
            ∙ ap (λ (x : Transport H × (Bool × Option (H × List ℕ))). x.1) (got _)
            ∙ dispatch_eq f _ cb true e (duplicate_again topic t.seq_counter r.recent_seqs w new),
      )
