-- ===== src/Reassembly/InOrder.antt =====
-- The payloads in the order in which they are sent, none lost.
use relink_com.Base.{
  ℕ, zero, suc, ◌-◌, ◌*◌, ◌<◌, ◌≤◌, ◌≡◌, ◌≢◌, ◌∙◌, ◌⊎◌, refl, ap, sym, Bool, true, false, some,
  List, [], ◌∷◌, ◌++◌, map, arith, length, get_or, set, replicate, All, u32_mod, tabulate,
  tabulate-last, le→ltb, length-replicate, length-set, get_or-set_ne,
}
use relink_com.Reassembly.{Chunk, Reassembler, chunk_count_of, chunk_at, encode_chunks, feed}
use relink_com.Reassembly.AnyOrder.{any_order}
use relink_com.Reassembly.Received.{
  count_true, count_true-replicate, count_true-set, get_or-replicate, mark,
}
use relink_com.Reassembly.Progress.{Sizes}
use relink_com.Reassembly.Wire.{MetaWire, chunk_payload, receive, publish}
use relink_com.Reassembly.Parsed.{Laws}
use relink_com.Reassembly.Published.{receive_any_order}

mark-append :
    (bs : List Bool) (is : List ℕ) (j : ℕ) → mark bs (is ++ (j ∷ [])) ≡ set (mark bs is) j true
unfolding mark
mark-append bs [] j = refl
mark-append bs (i ∷ is) j = mark-append (set bs i true) is j

length-mark : (bs : List Bool) (is : List ℕ) → length (mark bs is) ≡ length bs
unfolding mark
length-mark bs [] = refl
length-mark bs (i ∷ is) = length-mark (set bs i true) is ∙ length-set bs i true

abbrev indices : ℕ → List ℕ
indices n = tabulate (λ (i : ℕ). i) n

-- The flags after the first `m` chunks of `n`.
first_marks : ℕ → ℕ → List Bool
first_marks n m = mark (replicate n false) (indices m)

first_marks-suc : (n m : ℕ) → first_marks n (suc m) ≡ set (first_marks n m) m true
unfolding first_marks
first_marks-suc n m =
    ap (mark (replicate n false)) (tabulate-last (λ (i : ℕ). i) m)
    ∙ mark-append (replicate n false) (indices m) m

first_marks_lem :
    (n m : ℕ)
    → m ≤ n
    → (count_true (first_marks n m) ≡ m)
      × (length (first_marks n m) ≡ n)
      × ((j : ℕ) → m ≤ j → get_or (first_marks n m) j false ≡ false)
unfolding first_marks mark
first_marks_lem n zero h =
    (count_true-replicate n, length-replicate n false, λ j p. get_or-replicate n j)
first_marks_lem n (suc m) h =
    let (counted, long, clear) = first_marks_lem n m (omega arith) in
    (
      rw (first_marks-suc n m) (
          omega (
            arith,
            counted,
            count_true-set (first_marks n m) m (omega (arith, long)) (clear m (omega arith)),
          )),
      rw (first_marks-suc n m) (length-set (first_marks n m) m true ∙ long),
      λ j p. rw (first_marks-suc n m) (
          get_or-set_ne (first_marks n m) m j true false (λ e. omega arith)
          ∙ clear j (omega arith)),
    )

map-tabulate :
    {A B : Type 0} (g : A → B) (f : ℕ → A) (n : ℕ)
    → map g (tabulate f n) ≡ tabulate (λ (i : ℕ). g (f i)) n
map-tabulate g f zero = refl
map-tabulate g f (suc n) = ap (λ t. g (f 0) ∷ t) (map-tabulate g (λ (i : ℕ). f (suc i)) n)

All-tabulate :
    (f : ℕ → ℕ) (bound n : ℕ)
    → ((i : ℕ) → i < n → f i < bound)
    → All (λ (i : ℕ). i < bound) (tabulate f n)
All-tabulate f bound zero h = tt
All-tabulate f bound (suc n) h = (
  h 0 (omega arith),
  All-tabulate (λ (i : ℕ). f (suc i)) bound n (λ i p. h (suc i) (omega arith)),
)

module _ {M : Type 0} (k : MetaWire M) (chunk_data : ℕ) (frame_id : ℕ) (image : List ℕ) (meta : M)
    (sizes : Sizes chunk_data (length image)) where
  abbrev n : ℕ
  n = chunk_count_of chunk_data (length image)

  abbrev m : ℕ
  m = n - 1

  abbrev payload_of : ℕ → List ℕ
  payload_of i = chunk_payload k chunk_data frame_id image meta i

  last : n ≡ suc m
  last = omega (arith, sizes.some_chunk)

  in_order : {B : Type 0} → (f : ℕ → B) → map f (indices m ++ (m ∷ [])) ≡ tabulate f n
  in_order f =
      ap (map f) (sym (tabulate-last (λ (i : ℕ). i) m))
      ∙ map-tabulate f (λ (i : ℕ). i) (suc m)
      ∙ ap (tabulate f) (sym last)

  -- A subscriber that loses nothing gets every image that is published, byte for byte, in one call of its
  -- callback.
  pub publish-receive :
      (Valid : M → Type 0) (laws : Laws k Valid) (r : Reassembler M)
      → length image ≤ 65535 * chunk_data
      → frame_id < u32_mod
      → Valid meta
      → (r.in_progress ≡ false) ⊎ (frame_id ≢ r.current_frame_id)
      → (payloads : List (List ℕ)) × (r' : Reassembler M) × (publish k chunk_data frame_id image
            meta
          ≡ some payloads)
        × (receive k chunk_data r payloads
            ≡ some (r', record { frame_id = frame_id; image = image; meta = meta } ∷ []))
        × (r'.in_progress ≡ false)
  unfolding publish mark first_marks
  publish-receive Valid laws r small hf hm idle =
      let (counted, _, clear) = first_marks_lem n m (omega (arith, last)) in
      let (r', got, done) =
        receive_any_order k Valid laws chunk_data frame_id image meta sizes r (indices m) m hf hm
          idle (All-tabulate (λ (i : ℕ). i) n m (λ i p. omega (arith, last))) (omega (arith, last))
          (clear m (omega arith)) (omega (arith, counted, last)) in
      (
        tabulate payload_of n,
        r',
        rw (le→ltb (length image) (65535 * chunk_data) small),
        ap (receive k chunk_data r) (sym (in_order payload_of)) ∙ got,
        done,
      )

  -- The same for the chunks themselves, as `on_chunk` takes them.
  pub encode_chunks-feed :
      (r : Reassembler M)
      → length image ≤ 65535 * chunk_data
      → (r.in_progress ≡ false) ⊎ (frame_id ≢ r.current_frame_id)
      → (chunks : List (Chunk M)) × (r' : Reassembler M) × (encode_chunks chunk_data frame_id image
            meta
          ≡ some chunks)
        × (feed chunk_data r chunks
            ≡ some (r', record { frame_id = frame_id; image = image; meta = meta } ∷ []))
        × (r'.in_progress ≡ false)
  unfolding encode_chunks mark first_marks
  encode_chunks-feed r small idle =
      let (counted, _, clear) = first_marks_lem n m (omega (arith, last)) in
      let (r', got, done) =
        any_order chunk_data frame_id image meta sizes r (indices m) m idle
          (All-tabulate (λ (i : ℕ). i) n m (λ i p. omega (arith, last))) (omega (arith, last))
          (clear m (omega arith)) (omega (arith, counted, last)) in
      (
        tabulate (chunk_at chunk_data frame_id image meta) n,
        r',
        rw (le→ltb (length image) (65535 * chunk_data) small),
        ap (feed chunk_data r) (sym (in_order (chunk_at chunk_data frame_id image meta))) ∙ got,
        done,
      )
