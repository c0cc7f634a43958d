-- ===== src/Transport.antt =====
-- cpp/include/relink/udp_transport.hpp: one node's data socket. What it sends are the bytes of datagrams;
-- a received datagram is the argument of `recv_and_dispatch`. Callbacks are values of a type `H`.
pub mod Window
pub mod Dispatch
mod Tests
use relink_com.Base.{
  ℕ, ◌+◌, ◌%◌, Bool, true, false, ◌&&◌, ◌||◌, Option, none, some, List, [], ◌∷◌, ◌++◌, ltb, ◌==◌,
  if◌then◌else◌, length, get_or, set, find, put, nat_key, replicate, u16_mod,
}
use relink_com.Frame.{
  RelinkHeader, start_byte, stop_byte, max_payload_bytes, max_frame_bytes, header_bytes,
  encode_frame, decode_frame, ok, payload_too_large, decoded, DecodedFrame,
}

-- The last delivered sequence numbers of a topic.
pub record SeqWindow : Type 0 where
  pub seen : List ℕ
  pub valid : List Bool
  pub next : ℕ

abbrev pub window_size : ℕ
window_size = 8

abbrev pub new_window : SeqWindow
new_window = record {
  seen = replicate window_size 0;
  valid = replicate window_size false;
  next = 0;
}

abbrev pub max_queued_replies : ℕ
max_queued_replies = 16

-- The members that sending and receiving use.
pub record Transport (H : Type 0) : Type 0 where
  pub seq_counter : ℕ
  pub handlers : List (ℕ × H)
  pub dedup_enabled : Bool
  pub recent_seqs : List (ℕ × SeqWindow)
  pub register_replies : List (List ℕ)

-- The scan of is_recent_duplicate.
unfoldable pub scan : ℕ → List ℕ → List Bool → Bool
scan seq (s ∷ seen) (v ∷ valid) = (v && (s == seq)) || scan seq seen valid
scan seq _ _ = false

unfoldable pub remember : ℕ → SeqWindow → SeqWindow
remember seq w = record {
  seen = set w.seen w.next seq;
  valid = set w.valid w.next true;
  next = (w.next + 1) % window_size;
}

-- is_recent_duplicate, for the window of one topic.
unfoldable pub check_window : ℕ → SeqWindow → SeqWindow × Bool
check_window seq w = if scan seq w.seen w.valid then (w, true) else (remember seq w, false)

unfoldable pub window_of : ℕ → List (ℕ × SeqWindow) → SeqWindow
window_of topic windows = elim (find topic windows) [ none ↦ new_window | some w ↦ w ]

unfoldable pub is_recent_duplicate : ℕ → ℕ → List (ℕ × SeqWindow) → List (ℕ × SeqWindow) × Bool
is_recent_duplicate topic seq windows =
    let (w, dup) = check_window seq (window_of topic windows) in (put topic w windows, dup)

-- The datagram; `none` is `false` with nothing sent.
unfoldable pub publish_seq : ℕ → List ℕ → ℕ → Option (List ℕ)
publish_seq topic payload seq = elim (encode_frame topic seq payload max_frame_bytes) [
  | ok frame ↦ some frame
  | payload_too_large ↦ none
]

module _ {H : Type 0} where
  unfoldable pub set_topic_handler : ℕ → H → Transport H → Transport H
  set_topic_handler topic cb t = record t { handlers = put topic cb t.handlers }

  unfoldable pub enable_relay_dedup : Transport H → Transport H
  enable_relay_dedup t = record t { dedup_enabled = true }

  -- fetch_add on an atomic<uint16_t>
  unfoldable pub next_seq : Transport H → Transport H × ℕ
  next_seq t = (record t { seq_counter = (t.seq_counter + 1) % u16_mod }, t.seq_counter)

  unfoldable pub publish_raw : ℕ → List ℕ → Transport H → Transport H × Option (List ℕ)
  publish_raw topic payload t = let (t', seq) = next_seq t in (t', publish_seq topic payload seq)

  -- The gathered datagram: the pieces that `iov` lists, one after the other.
  unfoldable pub publish_scattered :
      ℕ → List ℕ → List ℕ → Transport H → Transport H × Option (List ℕ)
  publish_scattered topic extra_header bytes t =
      let payload_len = length extra_header + length bytes in
      let (t', seq) = next_seq t in
      let header : RelinkHeader = record {
        topic_id = topic;
        seq_num = seq;
        payload_len = payload_len % u16_mod;
        flags = 0;
      } in
      if ltb max_payload_bytes payload_len then (t, none) else (
        t',
        some (start_byte ∷ (header_bytes header ++ (extra_header ++ (bytes ++ (stop_byte ∷ []))))),
      )

  -- A datagram that is no frame is queued for get_register_reply, if there is room.
  unfoldable pub queue_reply : List ℕ → Transport H → Transport H
  queue_reply buf t =
      if ltb (length t.register_replies) max_queued_replies
      then record t { register_replies = t.register_replies ++ (buf ∷ []) }
      else t

  -- The handler of the frame's topic is called with the payload.
  unfoldable pub deliver : DecodedFrame → Transport H → Bool × Option (H × List ℕ)
  deliver frame t = elim (find frame.header.topic_id t.handlers) [
    | none ↦ (false, none)
    | some cb ↦ (true, some (cb, frame.payload))
  ]

  unfoldable pub dispatch : DecodedFrame → Transport H → Transport H × (Bool × Option (H × List ℕ))
  dispatch frame t =
      let (windows, dup) =
        is_recent_duplicate frame.header.topic_id frame.header.seq_num t.recent_seqs in
      let t' = record t { recent_seqs = windows } in
      if t.dedup_enabled
      then (if dup then (t', (true, none)) else (t', deliver frame t'))
      else (t, deliver frame t)

  -- The new state, what is returned, and the call of a handler. An empty datagram is `n <= 0`.
  unfoldable pub recv_and_dispatch :
      List ℕ → Transport H → Transport H × (Bool × Option (H × List ℕ))
  recv_and_dispatch [] t = (t, (false, none))
  recv_and_dispatch (b ∷ buf) t = elim (decode_frame (b ∷ buf)) [
    | decoded frame ↦ dispatch frame t
    | _ ↦ (queue_reply (b ∷ buf) t, (false, none))
  ]

  -- get_register_reply: `none` is a timeout.
  unfoldable pub get_register_reply : Transport H → Transport H × Option (List ℕ)
  get_register_reply t = elim t.register_replies [
    | [] ↦ (t, none)
    | reply ∷ rest ↦ (record t { register_replies = rest }, some reply)
  ]
