-- ===== src/Reassembly.antt =====
-- Splitting an image into chunks and putting it together again: image.hpp and compressed_image.hpp have
-- the same code but for the bytes that a chunk carries and the metadata that a compressed image's chunks
-- repeat. It is written once, over the chunk size and the type of the metadata; Image and
-- CompressedImage say what these are.
pub mod Writes
pub mod Received
pub mod Progress
pub mod Delivery
pub mod AnyOrder
pub mod Wire
pub mod Counted
pub mod Parsed
pub mod Published
pub mod InOrder
pub mod Memory
mod Tests
use relink_com.Base.{
  ℕ, zero, suc, ◌+◌, ◌-◌, ◌*◌, ◌/◌, ◌%◌, min, Bool, true, false, not, ◌||◌, Option, ◌>>=◌, none,
  some, List, [], ◌∷◌, ◌++◌, ltb, leb, ◌==◌, if◌then◌else◌, length, get_or, set, take, drop,
  replicate, u16_mod, tabulate,
}

pub record Chunk (M : Type 0) : Type 0 where
  pub frame_id : ℕ
  pub chunk_index : ℕ
  pub chunk_count : ℕ
  pub chunk_bytes : ℕ
  pub meta : M
  pub payload : List ℕ

-- What `on_complete` is called with.
pub record Complete (M : Type 0) : Type 0 where
  pub frame_id : ℕ
  pub image : List ℕ
  pub meta : M

-- The members of a reassembler.
pub record Reassembler (M : Type 0) : Type 0 where
  pub in_progress : Bool
  pub current_frame_id : ℕ
  pub received : List Bool
  pub buffer : List ℕ
  pub received_count : ℕ
  pub last_chunk_bytes : ℕ
  pub meta : M

-- memcpy of `bytes` into a buffer; `none` where it would write past the end.
unfoldable pub write_at : List ℕ → ℕ → List ℕ → Option (List ℕ)
write_at buf off bytes =
    if ltb (length buf) (off + length bytes)
    then none
    else some (take off buf ++ (bytes ++ drop (off + length bytes) buf))

-- How many chunks an image of `len` bytes takes, at `chunk_data` bytes a chunk.
unfoldable pub chunk_count_of : ℕ → ℕ → ℕ
chunk_count_of chunk_data len =
    let count = (len + chunk_data - 1) / chunk_data % u16_mod in if count == 0 then 1 else count

abbrev pub called : {A : Type 0} → Option A → List A → List A
called none xs = xs
called (some x) xs = x ∷ xs

module _ {M : Type 0} (chunk_data : ℕ) where
  -- Round `i` of the loop. The struct is zeroed before the valid bytes are copied in.
  unfoldable pub chunk_at : ℕ → List ℕ → M → ℕ → Chunk M
  chunk_at frame_id image meta i =
      let offset = i * chunk_data in
      let n = min chunk_data (length image - offset) in
      record {
        frame_id = frame_id;
        chunk_index = i;
        chunk_count = chunk_count_of chunk_data (length image);
        chunk_bytes = n % u16_mod;
        meta = meta;
        payload = take n (drop offset image) ++ replicate (chunk_data - n) 0;
      }

  -- The chunks that `send_chunk` is called with, in order; `none` is `TooLarge`.
  unfoldable pub encode_chunks : ℕ → List ℕ → M → Option (List (Chunk M))
  encode_chunks frame_id image meta =
      if ltb (65535 * chunk_data) (length image)
      then none
      else some (tabulate (chunk_at frame_id image meta) (chunk_count_of chunk_data (length image)))

  -- A chunk of another frame, or the first after a complete one, starts anew.
  unfoldable pub begin_frame : Reassembler M → Chunk M → Reassembler M
  begin_frame r c =
      if not (c.frame_id == r.current_frame_id) || not r.in_progress
      then record r {
        current_frame_id = c.frame_id;
        in_progress = true;
        received = replicate c.chunk_count false;
        buffer = replicate (c.chunk_count * chunk_data) 0;
        received_count = 0;
        meta = c.meta;
      }
      else r

  -- The new chunk is in the buffer: is the image complete? `none` where the image would be read from
  -- past the end of the buffer.
  unfoldable pub finish : Reassembler M → Chunk M → Option (Reassembler M × Option (Complete M))
  finish r c =
      let total =
        if ltb 1 c.chunk_count
        then (c.chunk_count - 1) * chunk_data + r.last_chunk_bytes
        else r.last_chunk_bytes in
      if not (r.received_count == c.chunk_count)
      then some (r, none)
      else if ltb (length r.buffer) total
      then none
      else some (
        record r { in_progress = false },
        some (record { frame_id = r.current_frame_id; image = take total r.buffer; meta = r.meta }),
      )

  -- `none` is undefined behaviour: a read past the end of the chunk's bytes, or a write or read past the
  -- end of the buffer.
  unfoldable pub store : Reassembler M → Chunk M → Option (Reassembler M)
  store r c =
      if ltb (length c.payload) c.chunk_bytes
      then none
      else elim (write_at r.buffer (c.chunk_index * chunk_data) (take c.chunk_bytes c.payload)) [
        | none ↦ none
        | some buffer ↦ some (record r {
          received = set r.received c.chunk_index true;
          buffer = buffer;
          received_count = r.received_count + 1;
          last_chunk_bytes =
              if c.chunk_index + 1 == c.chunk_count then c.chunk_bytes else r.last_chunk_bytes;
        })
      ]

  unfoldable pub on_chunk : Reassembler M → Chunk M → Option (Reassembler M × Option (Complete M))
  on_chunk r0 c =
      let r = begin_frame r0 c in
      if leb (length r.received) c.chunk_index || get_or r.received c.chunk_index false
      then some (r, none)
      else elim (store r c) [ none ↦ none | some r' ↦ finish r' c ]

  -- The chunks of `cs` one after the other, and the calls of `on_complete`.
  unfoldable pub feed : Reassembler M → List (Chunk M) → Option (Reassembler M × List (Complete M))
  feed r [] = some (r, [])
  feed r (c ∷ cs) = do
    (r', done) ← on_chunk r c
    (r'', rest) ← feed r' cs
    some (r'', called done rest)
