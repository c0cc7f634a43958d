-- ===== src/Transport/Tests.antt =====
-- A frame of three bytes on topic 7, sent and received.
use relink_com.Base.{
  ℕ, ◌+◌, ◌≡◌, refl, arith, true, ◌&&◌, none, some, List, [], ◌∷◌, ◌++◌, if◌then◌else◌, ltb, length,
  find, nat_key,
}
use relink_com.Frame.{max_payload_bytes}
use relink_com.Transport.{
  Transport, check_window, scan, is_recent_duplicate, window_of, publish_raw, publish_scattered,
  recv_and_dispatch,
}
use relink_com.Transport.Window.{new_window-IsWindow}
use relink_com.Transport.Dispatch.{
  publish_scattered-publish_raw, publish_raw-recv_and_dispatch, recv_and_dispatch_again,
}

-- A callback is known by its name.
abbrev node : Transport ℕ
node = record {
  seq_counter = 65535;
  handlers = (7, 42) ∷ [];
  dedup_enabled = true;
  recent_seqs = [];
  register_replies = [];
}

abbrev bytes : List ℕ
bytes = 1 ∷ 2 ∷ 3 ∷ []

publish_scattered-publish_raw_example :
    ((publish_scattered 7 (9 ∷ []) bytes node).1 ≡ (publish_raw 7 ((9 ∷ []) ++ bytes) node).1)
    × ((publish_scattered 7 (9 ∷ []) bytes node).0 ≡ (
        if ltb max_payload_bytes (1 + length bytes)
        then node
        else (publish_raw 7 ((9 ∷ []) ++ bytes) node).0))
publish_scattered-publish_raw_example = publish_scattered-publish_raw 7 (9 ∷ []) bytes node

publish_raw-recv_and_dispatch_example :
    (d : List ℕ) × ((publish_raw 7 bytes node).1 ≡ some d)
    × ((recv_and_dispatch d node).1 ≡ (
      true,
      if node.dedup_enabled && (is_recent_duplicate 7 node.seq_counter node.recent_seqs).1
          then none
          else some (42, bytes),
    ))
unfolding find
publish_raw-recv_and_dispatch_example =
    publish_raw-recv_and_dispatch 7 bytes node node 42 (omega arith) (omega arith) (omega arith)
      refl

recv_and_dispatch_again_example :
    (d : List ℕ) × ((publish_raw 7 bytes node).1 ≡ some d)
    × ((recv_and_dispatch d node).1 ≡ (true, some (42, bytes)))
    × ((recv_and_dispatch d (recv_and_dispatch d node).0).1 ≡ (true, none))
unfolding find window_of is_recent_duplicate check_window scan
recv_and_dispatch_again_example =
    recv_and_dispatch_again 7 bytes node node 42 (omega arith) (omega arith) (omega arith) refl refl
      new_window-IsWindow refl
