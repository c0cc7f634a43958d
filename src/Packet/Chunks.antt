-- ===== src/Packet/Chunks.antt =====
-- The splitting loop: every chunk is within both caps, and nothing is lost or reordered.
use relink_com.Base.{
  ℕ, ◌+◌, ◌<◌, ◌≤◌, ◌≡◌, refl, ap, ◌∙◌, sym, Bool, true, false, some, List, [], ◌∷◌, ◌++◌, arith,
  length, All, All-append, length-append, append-nil, append_assoc, inl, inr, Bool-cases, ltb, leb,
  ◌&&◌, ◌||◌,
}
use mathlib.Core.List.{foldl}
use relink_com.Packet.{
  Entry, magic_len, header_len, Splitting, nonempty, split_step, split_end, chunk_entries,
  encode_entries, decode_entries,
}
use relink_com.Packet.Wire.{
  Laws, total_len, total_len-append, packet_bytes, length-packet_bytes, encode_entries-ok,
  decode_entries-packet_bytes,
}

abbrev pub concat {ℓ} : {A : Type ℓ} → List (List A) → List A
concat [] = []
concat (xs ∷ xss) = xs ++ concat xss

concat-append {ℓ} :
    {A : Type ℓ} (xss : List (List A)) (ys : List A) → concat (xss ++ (ys ∷ [])) ≡ concat xss ++ ys
concat-append [] ys = append-nil ys
concat-append (xs ∷ xss) ys =
    ap (λ zs. xs ++ zs) (concat-append xss ys) ∙ sym (append_assoc xs (concat xss) ys)

module _ {E : Type 0} (k : Entry E) where
  -- A packet with the chunk can be written, and decodes to it.
  abbrev pub Travels : List ℕ → ℕ → List E → Type 0
  Travels magic capacity c =
      (bytes : List ℕ) × (encode_entries k magic c capacity ≡ some bytes)
      × (length bytes ≤ k.max_packet)
      × (decode_entries k bytes ≡ some c)

module _ {E : Type 0} (k : Entry E) (Valid : E → Type 0) (laws : Laws k Valid) where
  -- A chunk that one packet can carry.
  pub record Packs (c : List E) : Type 0 where
    pub some_entry : 0 < length c
    pub few : length c ≤ k.max_entries
    pub small : header_len + total_len k c ≤ k.max_packet
    pub valid : All Valid c

  record Inv (seen : List E) (s : Splitting k) : Type 0 where
    kept : concat s.chunks ++ s.current ≡ seen
    packed : All Packs s.chunks
    len : s.current_len ≡ header_len + total_len k s.current
    few : length s.current ≤ k.max_entries
    small : s.current_len ≤ k.max_packet
    valid : All Valid s.current

  nonempty-length : (c : List E) → nonempty k c ≡ true → 0 < length c
  unfolding nonempty
  nonempty-length [] h = cc
  nonempty-length (e ∷ c) h = omega arith

  empty-length : (c : List E) → nonempty k c ≡ false → c ≡ []
  unfolding nonempty
  empty-length [] h = refl
  empty-length (e ∷ c) h = cc

  -- The test of the loop.
  abbrev is_cut : Splitting k → E → Bool
  is_cut s e =
      nonempty k s.current
      && (leb k.max_entries (length s.current) || ltb k.max_packet (s.current_len + k.entry_len e))

  step-cut :
      (seen : List E) (s : Splitting k) (e : E)
      → Valid e
      → is_cut s e ≡ true
      → Inv seen s
      → Inv (seen ++ (e ∷ [])) (split_step k s e)
  unfolding split_step
  step-cut seen s e v cut inv = rw cut (record {
    kept = rw (concat-append s.chunks s.current) (ap (λ xs. xs ++ (e ∷ [])) inv.kept);
    packed = All-append Packs s.chunks (s.current ∷ []) inv.packed (
      record {
        some_entry = nonempty-length s.current (ground arith);
        few = inv.few;
        small = omega (arith, inv.len, inv.small);
        valid = inv.valid;
      },
      tt,
    );
    len = omega arith;
    few = omega (arith, laws.count_fits);
    small = laws.small e v;
    valid = (v, tt);
  })

  step-keep :
      (seen : List E) (s : Splitting k) (e : E)
      → Valid e
      → is_cut s e ≡ false
      → Inv seen s
      → Inv (seen ++ (e ∷ [])) (split_step k s e)
  unfolding split_step
  step-keep seen s e v cut inv = rw cut (record {
    kept =
        sym (append_assoc (concat s.chunks) s.current (e ∷ []))
        ∙ ap (λ xs. xs ++ (e ∷ [])) inv.kept;
    packed = inv.packed;
    len = omega (arith, inv.len, total_len-append k s.current (e ∷ []));
    few = ground (arith, laws.count_fits, fits.0, length-append s.current (e ∷ []));
    small = fits.1;
    valid = All-append Valid s.current (e ∷ []) inv.valid (v, tt);
  })
    where
      fits : (length s.current + 1 ≤ k.max_entries) × (s.current_len + k.entry_len e ≤ k.max_packet)
      fits = ground (arith, laws.count_fits, laws.small e v, empty-length s.current, inv)

  split_step-Inv :
      (seen : List E) (s : Splitting k) (e : E)
      → Valid e
      → Inv seen s
      → Inv (seen ++ (e ∷ [])) (split_step k s e)
  split_step-Inv seen s e v inv = elim (Bool-cases (is_cut s e)) [
    | inl cut ↦ step-cut seen s e v cut inv
    | inr keep ↦ step-keep seen s e v keep inv
  ]

  foldl-Inv :
      (es seen : List E) (s : Splitting k)
      → All Valid es
      → Inv seen s
      → Inv (seen ++ es) (foldl (split_step k) s es)
  foldl-Inv [] seen s v inv = rw (append-nil seen) inv
  foldl-Inv (e ∷ es) seen s (ve, ves) inv =
      rw (← append_assoc seen (e ∷ []) es)
        (foldl-Inv es (seen ++ (e ∷ [])) (split_step k s e) ves (split_step-Inv seen s e ve inv))

  split_end-Inv :
      (seen : List E) (s : Splitting k)
      → Inv seen s
      → All Packs (split_end k s) × (concat (split_end k s) ≡ seen)
  unfolding split_end
  split_end-Inv seen s inv = elim (Bool-cases (nonempty k s.current)) [
    | inl e ↦ rw e (
      All-append Packs s.chunks (s.current ∷ []) inv.packed (
        record {
          some_entry = nonempty-length s.current e;
          few = inv.few;
          small = omega (arith, inv.len, inv.small);
          valid = inv.valid;
        },
        tt,
      ),
      concat-append s.chunks s.current ∙ inv.kept,
    )
    | inr e ↦ rw e (
      inv.packed,
      ground (arith, inv.kept, empty-length s.current e, append-nil (concat s.chunks)),
    )
  ]

  pub chunk_entries-Packs :
      (es : List E)
      → All Valid es
      → header_len ≤ k.max_packet
      → All Packs (chunk_entries k es) × (concat (chunk_entries k es) ≡ es)
  unfolding chunk_entries
  chunk_entries-Packs es v room = split_end-Inv es _ (
      foldl-Inv es [] _ v (record {
        kept = refl;
        packed = tt;
        len = omega arith;
        few = omega arith;
        small = room;
        valid = tt;
      }))

  Packs-Travels :
      (magic : List ℕ) (capacity : ℕ) (c : List E)
      → length magic ≡ magic_len
      → k.max_packet ≤ capacity
      → Packs c
      → Travels k magic capacity c
  Packs-Travels magic capacity c hm hc p = (
    packet_bytes k magic c,
    encode_entries-ok k Valid laws magic c capacity hm p.valid p.few (omega (arith, p.small)),
    omega (arith, length-packet_bytes k Valid laws magic c hm p.valid, p.small),
    decode_entries-packet_bytes k Valid laws magic c hm p.valid p.few p.small,
  )

  All-Travels :
      (magic : List ℕ) (capacity : ℕ) (cs : List (List E))
      → length magic ≡ magic_len
      → k.max_packet ≤ capacity
      → All Packs cs
      → All (Travels k magic capacity) cs
  All-Travels magic capacity [] hm hc p = tt
  All-Travels magic capacity (c ∷ cs) hm hc (p, ps) =
      (Packs-Travels magic capacity c hm hc p, All-Travels magic capacity cs hm hc ps)

  -- Splitting loses nothing, and every chunk travels in one packet.
  pub chunk_entries-Travels :
      (magic : List ℕ) (capacity : ℕ) (es : List E)
      → length magic ≡ magic_len
      → header_len ≤ k.max_packet
      → k.max_packet ≤ capacity
      → All Valid es
      → All (Travels k magic capacity) (chunk_entries k es) × (concat (chunk_entries k es) ≡ es)
  chunk_entries-Travels magic capacity es hm room hc v =
      let (packs, whole) = chunk_entries-Packs es v room in
      (All-Travels magic capacity (chunk_entries k es) hm hc packs, whole)
