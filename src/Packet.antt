-- ===== src/Packet.antt =====
-- The packets of cpp/include/relink/topic_directory.hpp that carry a list of entries: a magic of four
-- bytes, a count and the entries. The file has one encoder, decoder and splitter for each kind of
-- entry, all three alike but for the entry: here the loops are written once, over what differs, and
-- TopicDir and Roles give them their entries.
pub mod Wire
pub mod Chunks
use relink_com.Base.{
  ℕ, zero, suc, ◌+◌, Bool, true, false, not, ◌&&◌, ◌||◌, Option, ◌>>=◌, none, some, List, [], ◌∷◌,
  ◌++◌, ltb, leb, ◌==◌, if◌then◌else◌, length, take, le16, u16_at,
}
use mathlib.Core.List.{foldl}

-- What differs between the kinds of entry.
pub record Entry (E : Type 0) : Type 0 where
  -- sanity caps on a packet: entries, and bytes on decoding
  pub max_entries : ℕ
  pub max_packet : ℕ
  -- checked by the encoder before an entry is written (`name_len` has one byte)
  pub admissible : E → Bool
  pub entry_len : E → ℕ
  pub entry_bytes : E → List ℕ
  -- one round of the decoding loop: the entry at an offset and the offset behind it
  pub read : List ℕ → ℕ → Option (E × ℕ)

abbrev pub magic_len : ℕ
magic_len = 4

-- magic and count
abbrev pub header_len : ℕ
header_len = magic_len + 2

module _ {E : Type 0} (k : Entry E) where
  -- `out` is what has been written, so `off` is its length.
  unfoldable pub encode_loop : ℕ → List E → List ℕ → Option (List ℕ)
  encode_loop out_capacity [] out = some out
  encode_loop out_capacity (e ∷ es) out =
      let rest = encode_loop out_capacity es (out ++ k.entry_bytes e) in
      if not (k.admissible e)
      then none
      else if ltb out_capacity (length out + k.entry_len e)
      then none
      else rest

  -- `none` is `false`.
  unfoldable pub encode_entries : List ℕ → List E → ℕ → Option (List ℕ)
  encode_entries magic entries out_capacity =
      if ltb k.max_entries (length entries)
      then none
      else if ltb out_capacity header_len
      then none
      else encode_loop out_capacity entries (magic ++ le16 (length entries))

  unfoldable pub decode_loop : List ℕ → ℕ → ℕ → List E → Option (List E)
  decode_loop buf zero off entries = if not (off == length buf) then none else some entries
  decode_loop buf (suc n) off entries = do
    (e, off') ← k.read buf off
    decode_loop buf n off' (entries ++ (e ∷ []))

  -- `none` is `false`.
  unfoldable pub decode_entries : List ℕ → Option (List E)
  decode_entries buf =
      if ltb (length buf) header_len || ltb k.max_packet (length buf)
      then none
      else if ltb k.max_entries (u16_at buf magic_len)
      then none
      else decode_loop buf (u16_at buf magic_len) header_len []

  -- The variables of the splitting loop.
  pub record Splitting : Type 0 where
    pub chunks : List (List E)
    pub current : List E
    pub current_len : ℕ

  unfoldable pub nonempty : List E → Bool
  nonempty [] = false
  nonempty (e ∷ es) = true

  unfoldable pub split_step : Splitting → E → Splitting
  split_step s e =
      let full =
        nonempty s.current
        && (leb k.max_entries (length s.current)
            || ltb k.max_packet (s.current_len + k.entry_len e)) in
      if full
      then record {
        chunks = s.chunks ++ (s.current ∷ []);
        current = e ∷ [];
        current_len = header_len + k.entry_len e;
      }
      else record {
        chunks = s.chunks;
        current = s.current ++ (e ∷ []);
        current_len = s.current_len + k.entry_len e;
      }

  unfoldable pub split_end : Splitting → List (List E)
  split_end s = if nonempty s.current then s.chunks ++ (s.current ∷ []) else s.chunks

  unfoldable pub chunk_entries : List E → List (List E)
  chunk_entries entries =
      split_end
        (foldl split_step (record { chunks = []; current = []; current_len = header_len }) entries)
