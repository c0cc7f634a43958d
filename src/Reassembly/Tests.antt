-- ===== src/Reassembly/Tests.antt =====
-- Five bytes in three chunks of two: the last chunk first, and the middle one twice.
use relink_com.Base.{ℕ, ◌≡◌, inl, refl, arith, false, List, [], ◌∷◌, ◌++◌, map, Option, none, some}
use relink_com.Reassembly.{Chunk, Complete, Reassembler, chunk_count_of, on_chunk}
use relink_com.Reassembly.Received.{count_true, mark}
use relink_com.Reassembly.Progress.{Sizes}
use relink_com.Reassembly.Wire.{MetaWire, chunk_payload, receive}
use relink_com.Reassembly.Parsed.{Laws}
use relink_com.Reassembly.Published.{receive_any_order}
use relink_com.Reassembly.Memory.{Room, on_chunk-Room, on_chunk_overrun}

abbrev wire : MetaWire (Unit {0})
wire = record { meta_len = 0; write = λ m. []; read = λ bytes. tt }

abbrev bytes : List ℕ
bytes = 9 ∷ 8 ∷ 7 ∷ 6 ∷ 5 ∷ []

abbrev idle : Reassembler (Unit {0})
idle = record {
  in_progress = false;
  current_frame_id = 0;
  received = [];
  buffer = [];
  received_count = 0;
  last_chunk_bytes = 0;
  meta = tt;
}

bytes-Laws : Laws wire (λ m. Unit {0})
bytes-Laws = record { length_write = λ m. refl; read_write = λ m rest h. refl }

bytes-Sizes : Sizes 2 5
unfolding chunk_count_of
bytes-Sizes = record {
  small = omega arith;
  some_chunk = omega arith;
  enough = omega arith;
  needed = omega arith;
}

receive_any_order_example :
    (r' : Reassembler (Unit {0})) × (receive wire 2 idle
        (map (chunk_payload wire 2 3 bytes tt) ((2 ∷ 1 ∷ 1 ∷ []) ++ (0 ∷ [])))
      ≡ some (r', record { frame_id = 3; image = bytes; meta = tt } ∷ []))
    × (r'.in_progress ≡ false)
unfolding chunk_count_of mark count_true
receive_any_order_example =
    receive_any_order wire (λ m. Unit {0}) bytes-Laws 2 3 bytes tt bytes-Sizes idle (2 ∷ 1 ∷ 1 ∷ [])
      0 (omega arith) tt (inl refl) (omega arith, (omega arith, (omega arith, tt))) (omega arith)
      refl (omega arith)

abbrev legal : Chunk (Unit {0})
legal = record {
  frame_id = 1;
  chunk_index = 0;
  chunk_count = 1;
  chunk_bytes = 2;
  meta = tt;
  payload = 1 ∷ 2 ∷ [];
}

on_chunk-Room_example :
    (r' : Reassembler (Unit {0})) × (o : Option (Complete (Unit {0}))) × (on_chunk 2 idle legal
      ≡ some (r', o))
    × Room 2 r'
on_chunk-Room_example =
    on_chunk-Room 2 idle legal (record { room = refl; last = omega arith }) (λ p q. absurd cc)
      (omega arith) (omega arith)

abbrev too_long : Chunk (Unit {0})
too_long = record {
  frame_id = 1;
  chunk_index = 0;
  chunk_count = 1;
  chunk_bytes = 3;
  meta = tt;
  payload = 1 ∷ 2 ∷ 3 ∷ [];
}

on_chunk_overrun_example : on_chunk 2 idle too_long ≡ none
on_chunk_overrun_example =
    on_chunk_overrun 2 idle too_long refl (omega arith) (omega arith) (omega arith)
