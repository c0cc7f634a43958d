-- ===== src/Reassembly/Delivery.antt =====
-- One chunk handed to `on_chunk` while its frame is in progress.
use relink_com.Base.{
  ℕ, zero, suc, ◌+◌, ◌-◌, ◌*◌, ◌<◌, ◌≤◌, ◌≡◌, refl, ap, ◌∙◌, sym, inl, inr, Bool, true, false, not,
  ◌||◌, none, some, List, arith, length, get_or, set, take, length-take, Bool-cases, ==_refl, ◌==◌,
  if◌then◌else◌, min, ltb, leb, le→ltb, lt→ltb,
}
use native.Mathlib.Decide.{dec_lt}
use relink_com.Reassembly.{
  Chunk, Complete, Reassembler, chunk_at, begin_frame, finish, store, on_chunk,
}
use relink_com.Reassembly.Writes.{get_or-take, list_ext}
use relink_com.Reassembly.Received.{count_true, all-count_true}
use relink_com.Reassembly.Progress.{
  Sizes, Stored, count, chunk, mul-suc, begin-Stored, store-Stored,
}

pub leb_lt : (a b : ℕ) → b < a → leb a b ≡ false
leb_lt a b h = ground arith

-- Which chunk, and which of its bytes, is byte `q` of an image.
locate :
    (chunk_data count q : ℕ)
    → q < count * chunk_data
    → (i : ℕ) × (p : ℕ) × (i < count) × (p < chunk_data) × (q ≡ i * chunk_data + p)
locate chunk_data zero q h = absurd (omega arith)
locate chunk_data (suc k) q h = elim (dec_lt q (k * chunk_data)) [
  | yes below ↦ let (i, p, hi, hp, e) = locate chunk_data k q below in (i, p, omega arith, hp, e)
  | no above ↦
      (k, q - k * chunk_data, omega arith, omega (arith, mul-suc k chunk_data), omega arith)
]

rest_eq :
    (front chunk_data last len : ℕ)
    → last ≡ min chunk_data (len - front)
    → front ≤ len
    → len ≤ front + chunk_data
    → front + last ≡ len
rest_eq front chunk_data last len e low high = omega arith

total_eq :
    (chunk_data count last len : ℕ)
    → 0 < count
    → last ≡ min chunk_data (len - (count - 1) * chunk_data)
    → (count - 1) * chunk_data ≤ len
    → len ≤ count * chunk_data
    → (if ltb 1 count then (count - 1) * chunk_data + last else last) ≡ len
total_eq chunk_data zero last len h e low high = absurd (omega arith)
total_eq chunk_data (suc zero) last len h e low high = omega arith
total_eq chunk_data (suc (suc k)) last len h e low high =
    rw (lt→ltb 1 (suc (suc k)) (omega arith)) (
      rest_eq ((suc (suc k) - 1) * chunk_data) chunk_data last len e low (
        omega (
          arith,
          mul-suc (suc k) chunk_data,
          ap (λ (m : ℕ). m * chunk_data) {x = suc (suc k) - 1} {y = suc k} (omega arith),
        )))

pub finish_eq :
    {M : Type 0} (chunk_data : ℕ) (r : Reassembler M) (c : Chunk M) (len : ℕ) (done : Complete M)
    → r.received_count ≡ c.chunk_count
    → (if ltb 1 c.chunk_count
        then (c.chunk_count - 1) * chunk_data + r.last_chunk_bytes
        else r.last_chunk_bytes)
      ≡ len
    → len ≤ length r.buffer
    → record { frame_id = r.current_frame_id; image = take len r.buffer; meta = r.meta } ≡ done
    → finish chunk_data r c ≡ some (record r { in_progress = false }, some done)
unfolding finish
finish_eq chunk_data r c len done all total fits what = rw (
  ap (λ (k : ℕ). k == c.chunk_count) all ∙ ==_refl c.chunk_count,
  total,
  le→ltb len (length r.buffer) fits,
  what,
)

-- `on_chunk` begins with `begin_frame`, so that doing it before makes no difference.
pub on_chunk-begin :
    {M : Type 0} (chunk_data : ℕ) (r : Reassembler M) (c : Chunk M)
    → on_chunk chunk_data (begin_frame chunk_data r c) c ≡ on_chunk chunk_data r c
unfolding on_chunk begin_frame
on_chunk-begin chunk_data r c =
    elim (Bool-cases (not (c.frame_id == r.current_frame_id) || not r.in_progress)) [
      | inl new ↦ rw (new, ==_refl c.frame_id)
      | inr old ↦ rw (old, old)
    ]

pub ne_eq : (a b : ℕ) → a < b → (a == b) ≡ false
ne_eq a b h = ground arith

or_true : (b : Bool) → (b || true) ≡ true
or_true true = refl
or_true false = refl

module _ {M : Type 0} (chunk_data : ℕ) (r : Reassembler M) (c : Chunk M)
    (begun : begin_frame chunk_data r c ≡ r) where
  pub on_chunk_again :
      get_or r.received c.chunk_index false ≡ true → on_chunk chunk_data r c ≡ some (r, none)
  unfolding on_chunk
  on_chunk_again e = rw (begun, e, or_true (leb (length r.received) c.chunk_index))

  pub on_chunk_new :
      (r' : Reassembler M)
      → c.chunk_index < length r.received
      → get_or r.received c.chunk_index false ≡ false
      → store chunk_data r c ≡ some r'
      → on_chunk chunk_data r c ≡ finish chunk_data r' c
  unfolding on_chunk
  on_chunk_new r' h e q = rw (begun, e, leb_lt (length r.received) c.chunk_index h, q)

module _ {M : Type 0} (chunk_data : ℕ) (frame_id : ℕ) (image : List ℕ) (meta : M)
    (sizes : Sizes chunk_data (length image)) where
  abbrev pub n : ℕ
  n = count chunk_data frame_id image meta sizes

  abbrev pub piece : ℕ → Chunk M
  piece i = chunk chunk_data frame_id image meta sizes i

  abbrev pub Holds : Reassembler M → List Bool → Type 0
  Holds r flags = Stored chunk_data frame_id image meta sizes r flags

  abbrev pub whole : Complete M
  whole = record { frame_id = frame_id; image = image; meta = meta }

  pub again :
      (r : Reassembler M) (flags : List Bool) (i : ℕ)
      → Holds r flags
      → get_or flags i false ≡ true
      → on_chunk chunk_data r (piece i) ≡ some (r, none)
  unfolding chunk_at
  again r flags i s e =
      on_chunk_again chunk_data r (piece i)
        (begin-Stored chunk_data frame_id image meta sizes r flags i s) (rw (s.marks, e))

  -- A chunk that is not in yet is stored, and what follows is up to `finish`.
  pub new :
      (r : Reassembler M) (flags : List Bool) (i : ℕ)
      → Holds r flags
      → i < n
      → get_or flags i false ≡ false
      → (r' : Reassembler M) × (on_chunk chunk_data r (piece i) ≡ finish chunk_data r' (piece i))
        × Holds r' (set flags i true)
  unfolding chunk_at
  new r flags i s h e =
      let (r', stored, s') = store-Stored chunk_data frame_id image meta sizes r flags i s h e in
      (
        r',
        on_chunk_new chunk_data r (piece i)
            (begin-Stored chunk_data frame_id image meta sizes r flags i s) r'
            (omega (arith, s.chunks, ap (λ (bs : List Bool). length bs) s.marks)) (rw (s.marks, e))
            stored,
        s',
      )

  -- Fewer chunks than all of them are not complete.
  pub finish-none :
      (r : Reassembler M) (flags : List Bool) (i : ℕ)
      → Holds r flags
      → count_true flags < n
      → finish chunk_data r (piece i) ≡ some (r, none)
  unfolding finish chunk_at
  finish-none r flags i s h = rw (s.counter, ne_eq (count_true flags) n h)

  -- With all of them the buffer starts with the image.
  buffer-image :
      (r : Reassembler M) (flags : List Bool)
      → Holds r flags
      → count_true flags ≡ n
      → take (length image) r.buffer ≡ image
  buffer-image r flags s full = list_ext (take (length image) r.buffer) image size (λ q h.
      get_or-take (length image) r.buffer q (omega (arith, size)) ∙ at q (omega (arith, size)))
    where
      size : length (take (length image) r.buffer) ≡ length image
      size = omega (arith, length-take (length image) r.buffer, s.room, sizes.enough)

      at : (q : ℕ) → q < length image → get_or r.buffer q 0 ≡ get_or image q 0
      at q h =
          let (i, p, hi, hp, e) = locate chunk_data n q (omega (arith, sizes.enough)) in
          ap (λ (k : ℕ). get_or r.buffer k 0) e
          ∙ s.bytes i p hi
              (all-count_true flags i (omega (arith, s.chunks)) (omega (arith, s.chunks)))
              (omega arith)
          ∙ ap (λ (k : ℕ). get_or image k 0) (sym e)

  pub finish-whole :
      (r : Reassembler M) (flags : List Bool) (i : ℕ)
      → Holds r flags
      → count_true flags ≡ n
      → finish chunk_data r (piece i) ≡ some (record r { in_progress = false }, some whole)
  unfolding chunk_at
  finish-whole r flags i s h =
      finish_eq chunk_data r (piece i) (length image) whole (s.counter ∙ h)
        (total_eq chunk_data n r.last_chunk_bytes (length image) sizes.some_chunk
          (s.last (
            all-count_true flags (n - 1) (h ∙ sym s.chunks)
              (omega (arith, s.chunks, sizes.some_chunk))))
          sizes.needed sizes.enough)
        (omega (arith, s.room, sizes.enough)) (rw (s.frame, s.meta_kept, buffer-image r flags s h))
