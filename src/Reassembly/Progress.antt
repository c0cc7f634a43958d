-- ===== src/Reassembly/Progress.antt =====
-- One chunk of a frame that is being put together.
use relink_com.Base.{
  ℕ, zero, suc, ◌+◌, ◌-◌, ◌*◌, ◌<◌, ◌≤◌, min, ◌≡◌, ap, ◌∙◌, sym, inl, inr, Bool, true, false, some,
  List, ◌++◌, arith, length, get_or, set, take, drop, replicate, length-set, length-append,
  length-take, length-drop, get_or-set_ne, ◌≢◌, subst, get_or-drop, Bool-cases, u16_mod,
  take-append, ==_refl, ==_iff, le→ltb, ◌==◌, if◌then◌else◌,
}
use native.Mathlib.Decide.{dec_lt}
use relink_com.Reassembly.{
  Chunk, Reassembler, write_at, chunk_count_of, chunk_at, begin_frame, store,
}
use relink_com.Reassembly.Writes.{get_or-take, Wrote, write_at-Wrote}
use relink_com.Reassembly.Received.{count_true, count_true-set}

-- What the proofs need of the number of chunks: they are just enough for the bytes of the image.
pub record Sizes (chunk_data len : ℕ) : Type 0 where
  pub small : (0 < chunk_data) × (chunk_data < u16_mod)
  pub some_chunk : 0 < chunk_count_of chunk_data len
  pub enough : len ≤ chunk_count_of chunk_data len * chunk_data
  pub needed : (chunk_count_of chunk_data len - 1) * chunk_data ≤ len

pub mul-le : (m n k : ℕ) → m ≤ n → m * k ≤ n * k
mul-le m n zero h = omega arith
mul-le m n (suc k) h = omega (arith, mul-le m n k h)

pub mul-suc : (m k : ℕ) → suc m * k ≡ m * k + k
mul-suc m k = omega arith

-- What `store` comes to for a chunk whose `n` valid bytes are `bytes`, where they can be written.
pub store_eq :
    {M : Type 0} (chunk_data : ℕ) (r : Reassembler M) (c : Chunk M) (n : ℕ) (bytes buf : List ℕ)
    → c.chunk_bytes ≡ n
    → n ≤ length c.payload
    → take n c.payload ≡ bytes
    → write_at r.buffer (c.chunk_index * chunk_data) bytes ≡ some buf
    → store chunk_data r c
      ≡ some (record r {
        received = set r.received c.chunk_index true;
        buffer = buf;
        received_count = r.received_count + 1;
        last_chunk_bytes = if c.chunk_index + 1 == c.chunk_count then n else r.last_chunk_bytes;
      })
unfolding store
store_eq chunk_data r c n bytes buf valid long cut wrote =
    rw (valid, le→ltb n (length c.payload) long, cut, wrote, valid)

module _ {M : Type 0} (chunk_data : ℕ) (frame_id : ℕ) (image : List ℕ) (meta : M)
    (sizes : Sizes chunk_data (length image)) where
  abbrev pub count : ℕ
  count = chunk_count_of chunk_data (length image)

  abbrev pub chunk : ℕ → Chunk M
  chunk i = chunk_at chunk_data frame_id image meta i

  -- The bytes of the image in chunk `i`.
  abbrev pub part_len : ℕ → ℕ
  part_len i = min chunk_data (length image - i * chunk_data)

  abbrev pub part : ℕ → List ℕ
  part i = take (part_len i) (drop (i * chunk_data) image)

  pub length-part : (i : ℕ) → length (part i) ≡ part_len i
  length-part i = omega (
    arith,
    length-take (part_len i) (drop (i * chunk_data) image),
    length-drop (i * chunk_data) image,
  )

  get_or-part :
      (i p : ℕ) → p < part_len i → get_or (part i) p 0 ≡ get_or image (i * chunk_data + p) 0
  get_or-part i p h =
      get_or-take (part_len i) (drop (i * chunk_data) image) p h
      ∙ get_or-drop (i * chunk_data) p image 0

  -- The array of the chunk is longer than its valid bytes, and starts with them.
  pub chunk-part :
      (i : ℕ)
      → ((chunk i).chunk_bytes ≡ part_len i)
        × (part_len i ≤ length (chunk i).payload)
        × (take (part_len i) (chunk i).payload ≡ part i)
  unfolding chunk_at
  chunk-part i = (
    omega (arith, sizes.small),
    omega (arith, length-part i, length-append (part i) (replicate (chunk_data - part_len i) 0)),
    ap (λ (k : ℕ). take k (part i ++ replicate (chunk_data - part_len i) 0)) (sym (length-part i))
        ∙ take-append (part i) (replicate (chunk_data - part_len i) 0),
  )

  -- Chunk `i` ends within the image, and all but the last are full.
  part-full : (i : ℕ) → i + 1 < count → part_len i ≡ chunk_data
  part-full i h = omega (
    arith,
    mul-le i (count - 2) chunk_data (omega arith),
    mul-suc (count - 2) chunk_data,
    ap (λ (k : ℕ). k * chunk_data) {x = count - 1} {y = suc (count - 2)} (omega arith),
    sizes.needed,
  )

  part-inside : (i : ℕ) → i < count → i * chunk_data + part_len i ≤ count * chunk_data
  part-inside i h =
      omega (arith, mul-le (suc i) count chunk_data (omega arith), mul-suc i chunk_data)

  -- The state `r` when the chunks marked in `flags` are in.
  pub record Stored (r : Reassembler M) (flags : List Bool) : Type 0 where
    pub busy : r.in_progress ≡ true
    pub frame : r.current_frame_id ≡ frame_id
    pub marks : r.received ≡ flags
    pub chunks : length flags ≡ count
    pub room : length r.buffer ≡ count * chunk_data
    pub counter : r.received_count ≡ count_true flags
    pub meta_kept : r.meta ≡ meta
    pub last : get_or flags (count - 1) false ≡ true → r.last_chunk_bytes ≡ part_len (count - 1)
    pub bytes :
        (i p : ℕ)
        → i < count
        → get_or flags i false ≡ true
        → p < part_len i
        → get_or r.buffer (i * chunk_data + p) 0 ≡ get_or image (i * chunk_data + p) 0

  -- `begin_frame` leaves a frame in progress alone, and starts one from any state without one.
  pub begin-Stored :
      (r : Reassembler M) (flags : List Bool) (i : ℕ)
      → Stored r flags
      → begin_frame chunk_data r (chunk i) ≡ r
  unfolding begin_frame chunk_at
  begin-Stored r flags i s = rw (s.frame, s.busy, ==_refl frame_id)

  write-Stored :
      (r : Reassembler M) (flags : List Bool) (i : ℕ)
      → Stored r flags
      → i < count
      → (buf : List ℕ) × (write_at r.buffer (i * chunk_data) (part i) ≡ some buf)
        × Wrote r.buffer (i * chunk_data) (part i) buf
  write-Stored r flags i s h =
      write_at-Wrote r.buffer (i * chunk_data) (part i)
        (omega (arith, part-inside i h, length-part i, s.room))

  -- The bytes that stand in the buffer after the write of chunk `i`.
  bytes-Wrote :
      (r : Reassembler M) (flags : List Bool) (i : ℕ) (buf : List ℕ)
      → Stored r flags
      → Wrote r.buffer (i * chunk_data) (part i) buf
      → i < count
      → (j p : ℕ) → j < count
      → get_or (set flags i true) j false ≡ true
      → p < part_len j
      → get_or buf (j * chunk_data + p) 0 ≡ get_or image (j * chunk_data + p) 0
  bytes-Wrote r flags i buf s w hi j p hj e hp = elim (dec_lt i j) [
    | yes lt ↦
        w.above (j * chunk_data + p)
          (omega (arith, mul-le (suc i) j chunk_data lt, mul-suc i chunk_data, length-part i))
        ∙ s.bytes j p hj (old (λ q. omega arith)) hp
    | no ge ↦ elim (dec_lt j i) [
      | yes gt ↦
          w.below (j * chunk_data + p)
            (omega (arith, mul-le (suc j) i chunk_data gt, mul-suc j chunk_data))
          ∙ s.bytes j p hj (old (λ q. omega arith)) hp
      | no le ↦ same (omega arith)
    ]
  ]
    where
      old : i ≢ j → get_or flags j false ≡ true
      old ne = sym (get_or-set_ne flags i j true false ne) ∙ e

      same : i ≡ j → get_or buf (j * chunk_data + p) 0 ≡ get_or image (j * chunk_data + p) 0
      same q =
          subst
            (λ (k : ℕ).
              p < part_len k
              → get_or buf (k * chunk_data + p) 0 ≡ get_or image (k * chunk_data + p) 0)
            q (λ lt. w.inside p (omega (arith, length-part i)) ∙ get_or-part i p lt) hp

  -- The length of the last chunk, once it is in.
  last-Stored :
      (r : Reassembler M) (flags : List Bool) (i : ℕ)
      → Stored r flags
      → get_or (set flags i true) (count - 1) false ≡ true
      → (if i + 1 == count then part_len i else r.last_chunk_bytes) ≡ part_len (count - 1)
  last-Stored r flags i s e = elim (Bool-cases (i + 1 == count)) [
    | inl same ↦
        rw same (ap part_len {x = i} {y = count - 1} (omega (arith, (==_iff (i + 1) count).0 same)))
    | inr differs ↦
        rw differs (s.last (sym (get_or-set_ne flags i (count - 1) true false (other differs)) ∙ e))
  ]
    where
      other : (i + 1 == count) ≡ false → i ≢ count - 1
      other differs q = ground (arith, sizes.some_chunk)

  pub store-Stored :
      (r : Reassembler M) (flags : List Bool) (i : ℕ)
      → Stored r flags
      → i < count
      → get_or flags i false ≡ false
      → (r' : Reassembler M) × (store chunk_data r (chunk i) ≡ some r')
        × Stored r' (set flags i true)
  unfolding store chunk_at
  store-Stored r flags i s h e =
      let (buf, wrote, w) = write-Stored r flags i s h in
      let (valid, long, cut) = chunk-part i in
      (
        record r {
          received = set r.received i true;
          buffer = buf;
          received_count = r.received_count + 1;
          last_chunk_bytes = if i + 1 == count then part_len i else r.last_chunk_bytes;
        },
        store_eq chunk_data r (chunk i) (part_len i) (part i) buf valid long cut wrote,
        record {
          busy = s.busy;
          frame = s.frame;
          marks = rw (s.marks);
          chunks = length-set flags i true ∙ s.chunks;
          room = w.size ∙ s.room;
          counter = rw (s.counter, count_true-set flags i (omega (arith, s.chunks)) e);
          meta_kept = s.meta_kept;
          last = last-Stored r flags i s;
          bytes = bytes-Wrote r flags i buf s w h;
        },
      )
