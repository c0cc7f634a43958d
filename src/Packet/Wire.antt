-- ===== src/Packet/Wire.antt =====
-- Encoding and decoding a list of entries, for any kind of entry whose single entries round trip.
use relink_com.Base.{
  ℕ, zero, suc, ◌+◌, ◌<◌, ◌≤◌, ◌≡◌, refl, ap, ap₂, ◌∙◌, sym, true, some, Option-cases, List, [],
  ◌∷◌, ◌++◌, arith, length, drop, take, All, IsByte, le16, u16_at, u16_mod, length-append,
  append_assoc, append-nil, inl, inr, u16_at-append, u16_at-le16, length-le16, drop-length,
  drop_u16, take-append-drop, length-take,
}
use relink_com.Packet.{
  Entry, magic_len, header_len, encode_loop, encode_entries, decode_loop, decode_entries,
}

-- What the loops need of one entry, for the entries that are `Valid`.
pub record Laws {E : Type 0} (k : Entry E) (Valid : E → Type 0) : Type 0 where
  pub count_fits : (0 < k.max_entries) × (k.max_entries < u16_mod)
  pub small : (e : E) → Valid e → header_len + k.entry_len e ≤ k.max_packet
  pub positive : (e : E) → 0 < k.entry_len e
  pub written : (e : E) → Valid e → k.admissible e ≡ true
  pub sized : (e : E) → Valid e → length (k.entry_bytes e) ≡ k.entry_len e
  pub read_back :
      (pre rest : List ℕ) (e : E)
      → Valid e
      → k.read (pre ++ (k.entry_bytes e ++ rest)) (length pre)
        ≡ some (e, length pre + k.entry_len e)
  pub read_sound :
      (buf : List ℕ) (off : ℕ) (e : E) (off' : ℕ)
      → All IsByte buf
      → k.read buf off ≡ some (e, off')
      → Valid e
        × (drop off buf ≡ k.entry_bytes e ++ drop off' buf)
        × (off' ≡ off + k.entry_len e)
        × (off' ≤ length buf)

module _ {E : Type 0} (k : Entry E) where
  -- The entries one behind the other.
  abbrev pub all_bytes : List E → List ℕ
  all_bytes [] = []
  all_bytes (e ∷ es) = k.entry_bytes e ++ all_bytes es

  abbrev pub total_len : List E → ℕ
  total_len [] = 0
  total_len (e ∷ es) = k.entry_len e + total_len es

  pub total_len-append : (xs ys : List E) → total_len (xs ++ ys) ≡ total_len xs + total_len ys
  total_len-append [] ys = omega arith
  total_len-append (e ∷ xs) ys = omega (arith, total_len-append xs ys)

  abbrev pub packet_bytes : List ℕ → List E → List ℕ
  packet_bytes magic es = (magic ++ le16 (length es)) ++ all_bytes es

module _ {E : Type 0} (k : Entry E) (Valid : E → Type 0) (laws : Laws k Valid) where
  length-all_bytes : (es : List E) → All Valid es → length (all_bytes k es) ≡ total_len k es
  length-all_bytes [] h = refl
  length-all_bytes (e ∷ es) (he, hes) = omega (
    arith,
    length-append (k.entry_bytes e) (all_bytes k es),
    laws.sized e he,
    length-all_bytes es,
  )

  encode_loop-ok :
      (capacity : ℕ) (es : List E) (out : List ℕ)
      → All Valid es
      → length out + total_len k es ≤ capacity
      → encode_loop k capacity es out ≡ some (out ++ all_bytes k es)
  unfolding encode_loop
  encode_loop-ok capacity [] out h fits = rw (append-nil out)
  encode_loop-ok capacity (e ∷ es) out (he, hes) fits = ground (
    arith,
    laws.written e he,
    laws.sized e he,
    length-append out (k.entry_bytes e),
    encode_loop-ok capacity es (out ++ k.entry_bytes e) hes,
    append_assoc out (k.entry_bytes e) (all_bytes k es),
  )

  pub encode_entries-ok :
      (magic : List ℕ) (es : List E) (capacity : ℕ)
      → length magic ≡ magic_len
      → All Valid es
      → length es ≤ k.max_entries
      → header_len + total_len k es ≤ capacity
      → encode_entries k magic es capacity ≡ some (packet_bytes k magic es)
  unfolding encode_entries
  encode_entries-ok magic es capacity hm hes hn fits = ground (
    arith,
    length-append magic (le16 (length es)),
    length-le16 (length es),
    encode_loop-ok capacity es (magic ++ le16 (length es)) hes,
  )

  decode_loop-all_bytes :
      (es : List E) (pre : List ℕ) (done : List E)
      → All Valid es
      → decode_loop k (pre ++ all_bytes k es) (length es) (length pre) done ≡ some (done ++ es)
  unfolding decode_loop
  decode_loop-all_bytes [] pre done h = ground (arith, append-nil pre, append-nil done)
  decode_loop-all_bytes (e ∷ es) pre done (he, hes) =
      rw (laws.read_back pre (all_bytes k es) e he) (
        ap₂ (λ (buf : List ℕ) (off : ℕ). decode_loop k buf (length es) off (done ++ (e ∷ [])))
          (sym (append_assoc pre (k.entry_bytes e) (all_bytes k es)))
          (omega (arith, length-append pre (k.entry_bytes e), laws.sized e he))
        ∙ decode_loop-all_bytes es (pre ++ k.entry_bytes e) (done ++ (e ∷ [])) hes
        ∙ ap some (append_assoc done (e ∷ []) es))

  pub length-packet_bytes :
      (magic : List ℕ) (es : List E)
      → length magic ≡ magic_len
      → All Valid es
      → length (packet_bytes k magic es) ≡ header_len + total_len k es
  length-packet_bytes magic es hm hes = omega (
    arith,
    length-append (magic ++ le16 (length es)) (all_bytes k es),
    length-append magic (le16 (length es)),
    length-le16 (length es),
    length-all_bytes es hes,
  )

  pub decode_entries-packet_bytes :
      (magic : List ℕ) (es : List E)
      → length magic ≡ magic_len
      → All Valid es
      → length es ≤ k.max_entries
      → header_len + total_len k es ≤ k.max_packet
      → decode_entries k (packet_bytes k magic es) ≡ some es
  unfolding decode_entries
  decode_entries-packet_bytes magic es hm hes hn fits = ground (
    arith,
    laws.count_fits,
    length-packet_bytes magic es hm hes,
    count,
    length-append magic (le16 (length es)),
    length-le16 (length es),
    decode_loop-all_bytes es (magic ++ le16 (length es)) [] hes,
  )
    where
      count : u16_at (packet_bytes k magic es) magic_len ≡ length es
      count =
          ap₂ u16_at (append_assoc magic (le16 (length es)) (all_bytes k es)) (omega arith)
          ∙ u16_at-append magic (le16 (length es) ++ all_bytes k es) 0
          ∙ u16_at-le16 (length es) (all_bytes k es) (omega (arith, laws.count_fits))

  -- What one run of the decoding loop has read.
  decode_loop_sound :
      (buf : List ℕ) (n off : ℕ) (done es : List E)
      → All IsByte buf
      → decode_loop k buf n off done ≡ some es
      → (more : List E) × (es ≡ done ++ more)
        × (length more ≡ n)
        × All Valid more
        × (drop off buf ≡ all_bytes k more)
        × (length buf ≡ off + total_len k more)
  unfolding decode_loop
  decode_loop_sound buf zero off done es b h = (
    [],
    ground (arith, append-nil done),
    refl,
    tt,
    drop-length off buf (ground arith),
    ground arith,
  )
  decode_loop_sound buf (suc n) off done es b h = elim (Option-cases (k.read buf off)) [
    | inl e ↦ absurd (cc (rw e at h))
    | inr ((x, off'), e) ↦
        let (more, split, count, valid, bytes, size) =
          decode_loop_sound buf n off' (done ++ (x ∷ [])) es b (rw e at h) in
        let (vx, cut, next, _) = laws.read_sound buf off x off' b e in
        (
          x ∷ more,
          split ∙ append_assoc done (x ∷ []) more,
          omega arith,
          (vx, valid),
          cut ∙ ap (λ (ys : List ℕ). k.entry_bytes x ++ ys) bytes,
          omega arith,
        )
  ]

  decode_entries_guards :
      (buf : List ℕ) (es : List E)
      → decode_entries k buf ≡ some es
      → (header_len ≤ length buf)
        × (length buf ≤ k.max_packet)
        × (u16_at buf magic_len ≤ k.max_entries)
        × (decode_loop k buf (u16_at buf magic_len) header_len [] ≡ some es)
  unfolding decode_entries
  decode_entries_guards buf es h = ground arith

  pub decode_entries_sound :
      (buf : List ℕ) (es : List E)
      → All IsByte buf
      → decode_entries k buf ≡ some es
      → All Valid es
        × (length es ≤ k.max_entries)
        × (length buf ≡ header_len + total_len k es)
        × (length buf ≤ k.max_packet)
        × (buf ≡ packet_bytes k (take magic_len buf) es)
  decode_entries_sound buf es b h =
      let (room, small, few, run) = decode_entries_guards buf es h in
      let (more, split, count, valid, bytes, size) =
        decode_loop_sound buf (u16_at buf magic_len) header_len [] es b run in
      let cut : drop 4 buf ≡ le16 (length es) ++ all_bytes k es =
        ground (arith, drop_u16 4 buf b) in
      (
        rw split valid,
        ground arith,
        ground arith,
        small,
        ground (
          arith,
          take-append-drop 4 buf,
          cut,
          append_assoc (take 4 buf) (le16 (length es)) (all_bytes k es),
        ),
      )

  -- What is decoded encodes to the packet that it came from.
  pub encode_entries-decode_entries :
      (buf : List ℕ) (es : List E)
      → All IsByte buf
      → decode_entries k buf ≡ some es
      → encode_entries k (take magic_len buf) es (length buf) ≡ some buf
  encode_entries-decode_entries buf es b h =
      let (valid, few, size, _, whole) = decode_entries_sound buf es b h in
      encode_entries-ok (take magic_len buf) es (length buf)
        (omega (arith, length-take magic_len buf)) valid few (omega arith)
      ∙ ap some (sym whole)
