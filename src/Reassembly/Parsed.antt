-- ===== src/Reassembly/Parsed.antt =====
-- The handler of a subscription gets the chunk that the publisher took from the image.
use relink_com.Base.{
  ℕ, ◌+◌, ◌-◌, ◌<◌, ◌≤◌, ◌≡◌, refl, ap, subst, ◌∙◌, sym, List, ◌++◌, arith, length, take, drop,
  le16, le32, u16_at, u32_at, u16_mod, u32_mod, length-append, le→ltb, ◌==◌, ==_refl, drop-append,
  drop-drop, take-length,
}
use relink_com.Reassembly.{
  Chunk, Reassembler, chunk_count_of, chunk_at, begin_frame, store, finish, on_chunk,
}
use relink_com.Reassembly.Progress.{Sizes, count, chunk, part, part_len, length-part, chunk-part}
use relink_com.Reassembly.Wire.{
  MetaWire, fixed_len, header_len, header_bytes, chunk_payload, parse, on_payload,
}

-- What the metadata's bytes have to satisfy.
pub record Laws {M : Type 0} (k : MetaWire M) (Valid : M → Type 0) : Type 0 where
  pub length_write : (m : M) → length (k.write m) ≡ k.meta_len
  pub read_write : (m : M) (rest : List ℕ) → Valid m → k.read (k.write m ++ rest) ≡ m

header_fields :
    (frame_id i count n : ℕ) (more : List ℕ)
    → frame_id < u32_mod
    → i < u16_mod
    → count < u16_mod
    → n < u16_mod
    → (bytes : List ℕ) → bytes ≡ le32 frame_id ++ (le16 i ++ (le16 count ++ (le16 n ++ more)))
    → (u32_at bytes 0 ≡ frame_id)
      × (u16_at bytes 4 ≡ i)
      × (u16_at bytes 6 ≡ count)
      × (u16_at bytes 8 ≡ n)
      × (drop fixed_len bytes ≡ more)
      × (length bytes ≡ fixed_len + length more)
unfolding le32 le16 u32_at u16_at
header_fields frame_id i count n more hf hi hc hn bytes e =
    subst
      (λ (bs : List ℕ).
        (u32_at bs 0 ≡ frame_id)
        × (u16_at bs 4 ≡ i)
        × (u16_at bs 6 ≡ count)
        × (u16_at bs 8 ≡ n)
        × (drop fixed_len bs ≡ more)
        × (length bs ≡ fixed_len + length more))
      (sym e) (omega arith, omega arith, omega arith, omega arith, refl, omega arith)

parse-header_bytes :
    {M : Type 0} (k : MetaWire M) (Valid : M → Type 0) (laws : Laws k Valid) (chunk_data : ℕ)
    (frame_id i count n : ℕ) (meta : M) (bytes : List ℕ)
    → frame_id < u32_mod
    → i < u16_mod
    → count < u16_mod
    → n < u16_mod
    → Valid meta
    → (parse k chunk_data (header_bytes k chunk_data frame_id i count n meta ++ bytes) ≡ record {
      frame_id = frame_id;
      chunk_index = i;
      chunk_count = count;
      chunk_bytes = n;
      meta = meta;
      payload = bytes;
    })
      × (u16_at (header_bytes k chunk_data frame_id i count n meta ++ bytes) 8 ≡ n)
      × (length (header_bytes k chunk_data frame_id i count n meta ++ bytes)
          ≡ header_len k chunk_data + length bytes)
unfolding parse header_bytes le32 le16
parse-header_bytes k Valid laws chunk_data frame_id i count n meta bytes hf hi hc hn hm =
    let whole = header_bytes k chunk_data frame_id i count n meta ++ bytes in
    let (f0, f1, f2, f3, rest, long) =
      header_fields frame_id i count n (k.write meta ++ bytes) hf hi hc hn whole refl in
    (
      rw (
        f0,
        f1,
        f2,
        f3,
        rest,
        laws.read_write meta bytes hm,
        sym (drop-drop fixed_len k.meta_len whole),
        rest,
        sym (laws.length_write meta),
        drop-append (k.write meta) bytes,
      ),
      f3,
      omega (arith, long, length-append (k.write meta) bytes, laws.length_write meta),
    )

on_payload_eq :
    {M : Type 0} (k : MetaWire M) (chunk_data : ℕ) (r : Reassembler M) (payload : List ℕ)
    (c : Chunk M) (n : ℕ)
    → length payload ≡ header_len k chunk_data + n
    → u16_at payload 8 ≡ n
    → parse k chunk_data payload ≡ c
    → on_payload k chunk_data r payload ≡ on_chunk chunk_data r c
unfolding on_payload
on_payload_eq k chunk_data r payload c n long valid parsed = rw (
  le→ltb (header_len k chunk_data) (length payload) (omega (arith, long)),
  valid,
  long,
  ap (λ (d : ℕ). n == d) {x = header_len k chunk_data + n - header_len k chunk_data} {y = n}
      (omega arith),
  ==_refl n,
  parsed,
)

count_lt : (chunk_data len : ℕ) → chunk_count_of chunk_data len < u16_mod
unfolding chunk_count_of
count_lt chunk_data len = ground arith

-- `on_chunk` reads no more of a chunk's bytes than `chunk_bytes` says.
on_chunk_congr :
    {M : Type 0} (chunk_data : ℕ) (r : Reassembler M) (c : Chunk M) (bytes : List ℕ)
    → c.chunk_bytes ≤ length c.payload
    → c.chunk_bytes ≤ length bytes
    → take c.chunk_bytes c.payload ≡ take c.chunk_bytes bytes
    → on_chunk chunk_data r c ≡ on_chunk chunk_data r (record c { payload = bytes })
unfolding on_chunk begin_frame store finish
on_chunk_congr chunk_data r c bytes h k e =
    rw (le→ltb c.chunk_bytes (length c.payload) h, le→ltb c.chunk_bytes (length bytes) k, e)

module _ {M : Type 0} (k : MetaWire M) (Valid : M → Type 0) (laws : Laws k Valid) (chunk_data : ℕ)
    (frame_id : ℕ) (image : List ℕ) (meta : M) (sizes : Sizes chunk_data (length image)) where
  abbrev size : ℕ
  size = count chunk_data frame_id image meta sizes

  abbrev sent : ℕ → Chunk M
  sent i = chunk chunk_data frame_id image meta sizes i

  abbrev payload_of : ℕ → List ℕ
  payload_of i = chunk_payload k chunk_data frame_id image meta i

  -- The chunk as it is parsed: without the padding.
  abbrev bare : ℕ → Chunk M
  bare i = record (sent i) { payload = part chunk_data frame_id image meta sizes i }

  payload-bare :
      (i : ℕ)
      → frame_id < u32_mod
      → Valid meta
      → i < size
      → (parse k chunk_data (payload_of i) ≡ bare i)
        × (u16_at (payload_of i) 8 ≡ length (part chunk_data frame_id image meta sizes i))
        × (length (payload_of i)
            ≡ header_len k chunk_data + length (part chunk_data frame_id image meta sizes i))
  unfolding chunk_payload chunk_at
  payload-bare i hf hm hi =
      let (parsed, valid, long) =
        parse-header_bytes k Valid laws chunk_data frame_id i size ((sent i).chunk_bytes) meta
          (part chunk_data frame_id image meta sizes i) hf
          (omega (arith, count_lt chunk_data (length image))) (count_lt chunk_data (length image))
          (omega arith) hm in
      (
        parsed,
        valid
            ∙ (chunk-part chunk_data frame_id image meta sizes i).0
            ∙ sym (length-part chunk_data frame_id image meta sizes i),
        long,
      )

  -- The handler does with the payload what `on_chunk` does with the chunk.
  pub on_payload-sent :
      (r : Reassembler M) (i : ℕ)
      → frame_id < u32_mod
      → Valid meta
      → i < size
      → on_payload k chunk_data r (payload_of i) ≡ on_chunk chunk_data r (sent i)
  on_payload-sent r i hf hm hi =
      let (parsed, valid, long) = payload-bare i hf hm hi in
      let (n, fits, same) = chunk-part chunk_data frame_id image meta sizes i in
      on_payload_eq k chunk_data r (payload_of i) (bare i)
        (length (part chunk_data frame_id image meta sizes i)) long valid parsed
      ∙ sym (
          on_chunk_congr chunk_data r (sent i) (part chunk_data frame_id image meta sizes i)
            (omega (arith, n, fits))
            (omega (arith, n, length-part chunk_data frame_id image meta sizes i))
            (rw n (
              same
              ∙ sym (
                  take-length (part_len chunk_data frame_id image meta sizes i)
                    (part chunk_data frame_id image meta sizes i)
                    (omega (arith, length-part chunk_data frame_id image meta sizes i))))))
