-- ===== src/Shm.antt =====
-- cpp/include/relink/shm_transport.hpp: the ring that two processes share, for the platforms that have it.
-- Only the producer writes `tail` and only the consumer writes `head`, so that each call is one step. Mapping
-- the segment and taking over a stale one are not modelled.
pub mod Spec
pub mod Fifo
mod Tests
use relink_com.Base.{
  ℕ, ◌+◌, ◌%◌, Bool, true, false, Option, none, some, List, [], ◌∷◌, ◌++◌, ltb, ◌==◌, if◌then◌else◌,
  length, get_or, set, take, drop, replicate,
}

-- seq_num, payload_len and payload as they stand in the segment.
pub record Slot : Type 0 where
  pub seq_num : ℕ
  pub payload_len : ℕ
  pub payload : List ℕ

pub record ShmRing : Type 0 where
  pub head : ℕ
  pub tail : ℕ
  pub slots : List Slot

abbrev pub blank_slot : ℕ → Slot
blank_slot max_payload = record { seq_num = 0; payload_len = 0; payload = replicate max_payload 0 }

-- What a pop gives out.
pub record Message : Type 0 where
  pub seq_num : ℕ
  pub payload : List ℕ

-- The three memcpys: what the slot holds behind the new payload stays.
unfoldable pub write_slot : Slot → List ℕ → ℕ → Slot
write_slot slot payload seq_num = record {
  seq_num = seq_num;
  payload_len = length payload;
  payload = payload ++ drop (length payload) slot.payload;
}

unfoldable pub read_slot : Slot → Message
read_slot slot = record { seq_num = slot.seq_num; payload = take slot.payload_len slot.payload }

module _ (capacity max_payload : ℕ) where
  -- init_as_creator, in a segment of zeros
  unfoldable pub init_as_creator : ShmRing
  init_as_creator = record {
    head = 0;
    tail = 0;
    slots = replicate capacity (blank_slot max_payload);
  }

  unfoldable pub try_push : ShmRing → List ℕ → ℕ → ShmRing × Bool
  try_push r payload seq_num =
      let next = (r.tail + 1) % capacity in
      let old = get_or r.slots r.tail (blank_slot max_payload) in
      if ltb max_payload (length payload)
      then (r, false)
      else if next == r.head
      then (r, false)
      else (
        record r { tail = next; slots = set r.slots r.tail (write_slot old payload seq_num) },
        true,
      )

  -- try_pop, and try_pop_zero_copy, whose callback gets the same payload before `head` moves.
  unfoldable pub try_pop : ShmRing → ShmRing × Option Message
  try_pop r = if r.head == r.tail then (r, none) else (
    record r { head = (r.head + 1) % capacity },
    some (read_slot (get_or r.slots r.head (blank_slot max_payload))),
  )
