-- ===== src/Reassembly/Memory.antt =====
-- When `on_chunk_raw` stays inside its buffer, and when it does not.
use relink_com.Base.{
  ℕ, zero, suc, ◌+◌, ◌-◌, ◌*◌, ◌<◌, ◌≤◌, ◌≡◌, ◌∙◌, refl, ap, sym, Bool, true, false, not, ◌||◌,
  Option, none, some, arith, length, get_or, set, take, replicate, inl, inr, ltb, leb, lt→ltb,
  le→ltb, ◌==◌, ==_iff, if◌then◌else◌, length-replicate, length-set, length-take, Bool-cases,
}
use relink_com.Reassembly.{Chunk, Complete, Reassembler, begin_frame, store, finish, on_chunk}
use relink_com.Reassembly.Writes.{write_at-Wrote, write_at-fault}
use relink_com.Reassembly.Received.{get_or-replicate}
use relink_com.Reassembly.Progress.{mul-le, mul-suc, store_eq}
use relink_com.Reassembly.Delivery.{leb_lt, finish_eq}
use relink_com.Reassembly.AnyOrder.{begin_frame_new}

old_busy : (f g : ℕ) (b : Bool) → (not (f == g) || not b) ≡ false → b ≡ true
old_busy f g b e = ground arith

old_frame : (f g : ℕ) (b : Bool) → (not (f == g) || not b) ≡ false → f ≡ g
old_frame f g b e = ground arith

le_split : (a b : ℕ) → leb a b ≡ false → b < a
le_split a b e = ground arith

-- The length of the image that `finish` hands over.
abbrev total_of : ℕ → ℕ → ℕ → ℕ
total_of chunk_data count last = if ltb 1 count then (count - 1) * chunk_data + last else last

total_le :
    (chunk_data count last : ℕ)
    → 0 < count
    → last ≤ chunk_data
    → total_of chunk_data count last ≤ count * chunk_data
total_le chunk_data zero last h k = absurd (omega arith)
total_le chunk_data (suc zero) last h k = omega arith
total_le chunk_data (suc (suc m)) last h k = rw (lt→ltb 1 (suc (suc m)) (omega arith)) (
    omega (
      arith,
      mul-suc (suc m) chunk_data,
      ap (λ (m' : ℕ). m' * chunk_data) {x = suc (suc m) - 1} {y = suc m} (omega arith),
    ))

module _ {M : Type 0} (chunk_data : ℕ) where
  -- The buffer has room for every chunk that `received_` counts, and the last one is no longer than that.
  pub record Room (r : Reassembler M) : Type 0 where
    pub room : length r.buffer ≡ length r.received * chunk_data
    pub last : r.last_chunk_bytes ≤ chunk_data

  -- A chunk of the frame in progress agrees with its first chunk on the number of chunks.
  abbrev pub Agrees : Reassembler M → Chunk M → Type 0
  Agrees r c =
      r.in_progress ≡ true → c.frame_id ≡ r.current_frame_id → c.chunk_count ≡ length r.received

  begin-Room :
      (r : Reassembler M) (c : Chunk M)
      → Room r
      → Agrees r c
      → Room (begin_frame chunk_data r c)
        × (length (begin_frame chunk_data r c).received ≡ c.chunk_count)
  unfolding begin_frame
  begin-Room r c s a =
      elim (Bool-cases (not (c.frame_id == r.current_frame_id) || not r.in_progress)) [
        | inl new ↦ rw new (
          record {
            room =
                length-replicate (c.chunk_count * chunk_data) 0
                ∙ ap (λ (k : ℕ). k * chunk_data) (sym (length-replicate c.chunk_count false));
            last = s.last;
          },
          length-replicate c.chunk_count false,
        )
        | inr old ↦ rw old (
          s,
          sym (
              a (old_busy c.frame_id r.current_frame_id r.in_progress old)
                (old_frame c.frame_id r.current_frame_id r.in_progress old)),
        )
      ]

  -- A buffer with room and a chunk of a legal size: the write stays inside.
  store-Room :
      (r : Reassembler M) (c : Chunk M)
      → Room r
      → c.chunk_index < length r.received
      → c.chunk_bytes ≤ chunk_data
      → c.chunk_bytes ≤ length c.payload
      → (r' : Reassembler M) × (store chunk_data r c ≡ some r')
        × Room r'
        × (length r'.received ≡ length r.received)
  store-Room r c s hi hb hp =
      let (buf, wrote, w) =
        write_at-Wrote r.buffer (c.chunk_index * chunk_data) (take c.chunk_bytes c.payload) (
          omega (
            arith,
            s.room,
            length-take c.chunk_bytes c.payload,
            mul-le (suc c.chunk_index) (length r.received) chunk_data hi,
            mul-suc c.chunk_index chunk_data,
          )) in
      (
        record r {
          received = set r.received c.chunk_index true;
          buffer = buf;
          received_count = r.received_count + 1;
          last_chunk_bytes =
              if c.chunk_index + 1 == c.chunk_count then c.chunk_bytes else r.last_chunk_bytes;
        },
        store_eq chunk_data r c c.chunk_bytes (take c.chunk_bytes c.payload) buf refl hp refl wrote,
        record {
          room =
              w.size
              ∙ s.room
              ∙ ap (λ (k : ℕ). k * chunk_data) (sym (length-set r.received c.chunk_index true));
          last =
              pick (c.chunk_index + 1 == c.chunk_count) c.chunk_bytes r.last_chunk_bytes hb s.last;
        },
        length-set r.received c.chunk_index true,
      )
    where
      pick :
          (b : Bool) (x y : ℕ) → x ≤ chunk_data → y ≤ chunk_data → (if b then x else y) ≤ chunk_data
      pick true x y hx hy = hx
      pick false x y hx hy = hy

  finish-Room :
      (r : Reassembler M) (c : Chunk M)
      → Room r
      → length r.received ≡ c.chunk_count
      → 0 < c.chunk_count
      → (r' : Reassembler M) × (o : Option (Complete M)) × (finish chunk_data r c ≡ some (r', o))
        × Room r'
  unfolding finish
  finish-Room r c s n h = elim (Bool-cases (r.received_count == c.chunk_count)) [
    | inl all ↦ (
      record r { in_progress = false },
      some (record {
        frame_id = r.current_frame_id;
        image = take (total_of chunk_data c.chunk_count r.last_chunk_bytes) r.buffer;
        meta = r.meta;
      }),
      finish_eq chunk_data r c (total_of chunk_data c.chunk_count r.last_chunk_bytes) _
          ((==_iff r.received_count c.chunk_count).0 all) refl
          (omega (
            arith,
            total_le chunk_data c.chunk_count r.last_chunk_bytes h s.last,
            s.room,
            ap (λ (k : ℕ). k * chunk_data) n,
          ))
          refl,
      record { room = s.room; last = s.last },
    )
    | inr few ↦ (r, none, rw few, s)
  ]

  -- A chunk with no more than `chunk_data` valid bytes, all of them received, which agrees with the frame in
  -- progress on the number of chunks, never makes `on_chunk` read or write outside its buffers, and keeps
  -- the buffer large enough for every chunk of the frame.
  pub on_chunk-Room :
      (r : Reassembler M) (c : Chunk M)
      → Room r
      → Agrees r c
      → c.chunk_bytes ≤ chunk_data
      → c.chunk_bytes ≤ length c.payload
      → (r' : Reassembler M) × (o : Option (Complete M)) × (on_chunk chunk_data r c ≡ some (r', o))
        × Room r'
  unfolding on_chunk
  on_chunk-Room r c s a hb hp =
      let (s1, n) = begin-Room r c s a in
      let b = begin_frame chunk_data r c in
      elim (Bool-cases
        (leb (length b.received) c.chunk_index || get_or b.received c.chunk_index false)) [
          | inl ignored ↦ (b, none, rw ignored, s1)
          | inr taken ↦
              let hi =
                or_left (length b.received) c.chunk_index (get_or b.received c.chunk_index false)
                  taken in
              let (r1, stored, s2, n1) = store-Room b c s1 hi hb hp in
              let (r2, o, finished, s3) = finish-Room r1 c s2 (n1 ∙ n) (omega (arith, hi, n)) in
              (r2, o, rw (taken, stored) finished, s3)
        ]
    where
      or_left : (x y : ℕ) (q : Bool) → (leb x y || q) ≡ false → y < x
      or_left x y q e = ground arith

  -- The size of a chunk is not checked: when the reassembler is idle, the last chunk of a new frame with more
  -- than `chunk_data` valid bytes is copied past the end of the buffer.
  pub on_chunk_overrun :
      (r : Reassembler M) (c : Chunk M)
      → r.in_progress ≡ false
      → c.chunk_index + 1 ≡ c.chunk_count
      → chunk_data < c.chunk_bytes
      → c.chunk_bytes ≤ length c.payload
      → on_chunk chunk_data r c ≡ none
  unfolding on_chunk store
  on_chunk_overrun r c idle last hb hp = rw (
    begin_frame_new chunk_data r c (inl idle),
    length-replicate c.chunk_count false,
    leb_lt c.chunk_count c.chunk_index (omega arith),
    get_or-replicate c.chunk_count c.chunk_index,
    le→ltb c.chunk_bytes (length c.payload) hp,
    write_at-fault (replicate (c.chunk_count * chunk_data) 0) (c.chunk_index * chunk_data)
        (take c.chunk_bytes c.payload)
        (omega (
          arith,
          length-replicate {A = ℕ} (c.chunk_count * chunk_data) 0,
          length-take c.chunk_bytes c.payload,
          mul-suc c.chunk_index chunk_data,
          ap (λ (k : ℕ). k * chunk_data) {x = c.chunk_count} {y = suc c.chunk_index} (omega arith),
        )),
  )
