-- ===== src/TopicDir/Laws.antt =====
-- The name directory: splitting, round trip, and which packets are accepted.
use relink_com.Base.{
  ℕ, ◌+◌, ◌<◌, ◌≤◌, ◌≡◌, refl, some, List, ◌∷◌, ◌++◌, arith, length, get_or, take, drop, All,
  IsByte, le32, u32_at, u32_mod, length-append, append_assoc, length-le32, u32_at-append,
  get_or-append_right, drop-append_right, take-append, take-length, length-take, length-drop,
  drop_u32, drop_byte, take-append-drop, drop-drop, get_or-All, u32_at-lt,
}
use relink_com.Packet.{magic_len}
use relink_com.Packet.Wire.{Laws, encode_entries-decode_entries}
use relink_com.Packet.Chunks.{concat, chunk_entries-Travels}
use relink_com.TopicDir.{
  TopicDirEntry, announce_magic, reply_magic, topic_entry, topic_entry_bytes, read_topic_entry,
  name_fits, topic_dir_max_packet, encode_topic_dir_entries, chunk_topic_dir_entries,
  decode_topic_dir_entries,
}

-- An entry whose name the one-byte length can carry.
pub record IsValid (e : TopicDirEntry) : Type 0 where
  pub id : e.topic_id < u32_mod
  pub short : length e.name ≤ 255

entry_split :
    (e : TopicDirEntry)
    → IsValid e
    → topic_entry_bytes e ≡ le32 e.topic_id ++ (length e.name ∷ e.name)
unfolding topic_entry_bytes
entry_split e v = ground (arith, v, take-length (length e.name) e.name)

sized : (e : TopicDirEntry) → IsValid e → length (topic_entry_bytes e) ≡ 5 + length e.name
sized e v = rw (entry_split e v) (
    omega (arith, length-append (le32 e.topic_id) (length e.name ∷ e.name), length-le32 e.topic_id))

-- The fields of an entry at the front of a buffer.
entry_fields :
    (e : TopicDirEntry) (rest : List ℕ)
    → IsValid e
    → let xs = topic_entry_bytes e ++ rest in
      (u32_at xs 0 ≡ e.topic_id)
      × (get_or xs 4 0 ≡ length e.name)
      × (drop 5 xs ≡ e.name ++ rest)
      × (length xs ≡ 5 + length e.name + length rest)
entry_fields e rest v =
    rw (entry_split e v) (
      unfold le32 u32_at in
      (omega (arith, v), refl, refl, omega (arith, length-append e.name rest)))

read_back :
    (pre rest : List ℕ) (e : TopicDirEntry)
    → IsValid e
    → read_topic_entry (pre ++ (topic_entry_bytes e ++ rest)) (length pre)
      ≡ some (e, length pre + (4 + 1 + length e.name))
unfolding read_topic_entry
read_back pre rest e v = ground (
  arith,
  entry_fields e rest v,
  length-append pre (topic_entry_bytes e ++ rest),
  u32_at-append pre (topic_entry_bytes e ++ rest) 0,
  get_or-append_right pre (topic_entry_bytes e ++ rest) 4 0,
  drop-append_right pre (topic_entry_bytes e ++ rest) 5,
  take-append e.name rest,
)

read_guards :
    (buf : List ℕ) (off : ℕ) (e : TopicDirEntry) (off' : ℕ)
    → read_topic_entry buf off ≡ some (e, off')
    → (off + 5 + get_or buf (off + 4) 0 ≤ length buf)
      × (off' ≡ off + 5 + get_or buf (off + 4) 0)
      × (e.topic_id ≡ u32_at buf off)
      × (e.name ≡ take (get_or buf (off + 4) 0) (drop (off + 5) buf))
unfolding read_topic_entry
read_guards buf off e off' h = ground arith

read_sound :
    (buf : List ℕ) (off : ℕ) (e : TopicDirEntry) (off' : ℕ)
    → All IsByte buf
    → read_topic_entry buf off ≡ some (e, off')
    → IsValid e
      × (drop off buf ≡ topic_entry_bytes e ++ drop off' buf)
      × (off' ≡ off + (4 + 1 + length e.name))
      × (off' ≤ length buf)
read_sound buf off e off' b h = (valid, cut, omega (arith, size, next), omega (arith, next, room))
  where
    n : ℕ
    n = get_or buf (off + 4) 0

    room : off + 5 + n ≤ length buf
    room = (read_guards buf off e off' h).0

    next : off' ≡ off + 5 + n
    next = (read_guards buf off e off' h).1

    size : length e.name ≡ n
    size = ground (
      arith,
      read_guards buf off e off' h,
      length-take n (drop (off + 5) buf),
      length-drop (off + 5) buf,
    )

    valid : IsValid e
    valid =
        ground (
          arith,
          read_guards buf off e off' h,
          size,
          u32_at-lt buf off b,
          get_or-All buf (off + 4) b,
        )

    name_cut : drop (off + 5) buf ≡ e.name ++ drop off' buf
    name_cut = ground (
      arith,
      read_guards buf off e off' h,
      take-append-drop n (drop (off + 5) buf),
      drop-drop (off + 5) n buf,
    )

    cut : drop off buf ≡ topic_entry_bytes e ++ drop off' buf
    cut =
        rw (entry_split e valid, append_assoc)
          (ground (
            arith,
            read_guards buf off e off' h,
            size,
            name_cut,
            drop_u32 off buf b,
            drop_byte (off + 4) buf,
          ))

pub topic_entry-Laws : Laws topic_entry IsValid
unfolding name_fits
topic_entry-Laws = record {
  count_fits = omega arith;
  small = λ e v. omega (arith, v.short);
  positive = λ e. omega arith;
  written = λ e v. ground (arith, v.short);
  sized = sized;
  read_back = read_back;
  read_sound = read_sound;
}

-- A chunk can be written to a buffer of `capacity` bytes, as one packet that decodes to it.
abbrev pub Delivers : List ℕ → ℕ → List TopicDirEntry → Type 0
Delivers magic capacity c =
    (bytes : List ℕ) × (encode_topic_dir_entries magic c capacity ≡ some bytes)
    × (length bytes ≤ topic_dir_max_packet)
    × (decode_topic_dir_entries bytes ≡ some c)

-- `chunk_topic_dir_entries` splits any list of entries with names of up to 255 bytes into packets that
-- arrive: each chunk encodes, as an announce and as a reply alike, into any buffer of 8192 bytes or more,
-- takes at most 8192 bytes, and decodes to the chunk; and the chunks in order are the whole list.
pub chunk_topic_dir-Delivers :
    (es : List TopicDirEntry) (capacity : ℕ)
    → All IsValid es
    → topic_dir_max_packet ≤ capacity
    → All (Delivers announce_magic capacity) (chunk_topic_dir_entries es)
      × All (Delivers reply_magic capacity) (chunk_topic_dir_entries es)
      × (concat (chunk_topic_dir_entries es) ≡ es)
unfolding chunk_topic_dir_entries encode_topic_dir_entries decode_topic_dir_entries
chunk_topic_dir-Delivers es capacity v room =
    let (ann, whole) =
      chunk_entries-Travels topic_entry IsValid topic_entry-Laws announce_magic capacity es refl
        (omega arith) room v in
    let (rep, _) =
      chunk_entries-Travels topic_entry IsValid topic_entry-Laws reply_magic capacity es refl
        (omega arith) room v in
    (ann, rep, whole)

-- A packet of bytes that `decode_topic_dir_entries` accepts is what the encoder writes for the decoded
-- entries under the packet's own first four bytes: nothing is misread, skipped or left over.
pub encode_topic_dir-decode_topic_dir :
    (buf : List ℕ) (es : List TopicDirEntry)
    → All IsByte buf
    → decode_topic_dir_entries buf ≡ some es
    → encode_topic_dir_entries (take magic_len buf) es (length buf) ≡ some buf
unfolding decode_topic_dir_entries encode_topic_dir_entries
encode_topic_dir-decode_topic_dir buf es b h =
    encode_entries-decode_entries topic_entry IsValid topic_entry-Laws buf es b h
