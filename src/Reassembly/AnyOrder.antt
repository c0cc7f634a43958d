-- ===== src/Reassembly/AnyOrder.antt =====
-- The chunks of an image in any order, and repeated, deliver the image once.
use relink_com.Base.{
  ℕ, ◌+◌, ◌-◌, ◌*◌, ◌<◌, ◌≡◌, ◌≢◌, refl, ◌∙◌, sym, ◌⊎◌, inl, inr, Bool, true, false, not, ◌||◌,
  some, List, [], ◌∷◌, ◌++◌, map, arith, length, get_or, set, replicate, subst, All,
  length-replicate, Bool-cases, ◌==◌,
}
use relink_com.Reassembly.{Chunk, Complete, Reassembler, chunk_at, begin_frame, on_chunk, feed}
use relink_com.Reassembly.Received.{
  count_true, count_true-replicate, get_or-replicate, count_true-set, mark, set_again,
  count_true-le-mark,
}
use relink_com.Reassembly.Progress.{Sizes}
use relink_com.Reassembly.Delivery.{
  on_chunk-begin, n, piece, Holds, whole, again, new, finish-none, finish-whole,
}

pub begin_frame_new :
    {M : Type 0} (chunk_data : ℕ) (r : Reassembler M) (c : Chunk M)
    → (r.in_progress ≡ false) ⊎ (c.frame_id ≢ r.current_frame_id)
    → begin_frame chunk_data r c ≡ record r {
      current_frame_id = c.frame_id;
      in_progress = true;
      received = replicate c.chunk_count false;
      buffer = replicate (c.chunk_count * chunk_data) 0;
      received_count = 0;
      meta = c.meta;
    }
unfolding begin_frame
begin_frame_new chunk_data r c idle = rw (fresh idle)
  where
    free_eq : (a b : Bool) → b ≡ false → (a || not b) ≡ true
    free_eq a b e = ground arith

    other_eq : (a b : ℕ) (c : Bool) → a ≢ b → (not (a == b) || not c) ≡ true
    other_eq a b c ne = ground arith

    fresh :
        (r.in_progress ≡ false) ⊎ (c.frame_id ≢ r.current_frame_id)
        → (not (c.frame_id == r.current_frame_id) || not r.in_progress) ≡ true
    fresh (inl free) = free_eq (not (c.frame_id == r.current_frame_id)) r.in_progress free
    fresh (inr other) = other_eq c.frame_id r.current_frame_id r.in_progress other

module _ {M : Type 0} (chunk_data : ℕ) (frame_id : ℕ) (image : List ℕ) (meta : M)
    (sizes : Sizes chunk_data (length image)) where
  abbrev size : ℕ
  size = n chunk_data frame_id image meta sizes

  abbrev sent : ℕ → Chunk M
  sent i = piece chunk_data frame_id image meta sizes i

  abbrev In : Reassembler M → List Bool → Type 0
  In r flags = Holds chunk_data frame_id image meta sizes r flags

  abbrev delivered : Complete M
  delivered = whole chunk_data frame_id image meta sizes

  -- The last missing chunk delivers the image.
  feed-whole :
      (r : Reassembler M) (flags : List Bool) (i : ℕ)
      → In r flags
      → i < size
      → get_or flags i false ≡ false
      → count_true flags + 1 ≡ size
      → (r' : Reassembler M) × (on_chunk chunk_data r (sent i) ≡ some (r', some delivered))
        × (r'.in_progress ≡ false)
  feed-whole r flags i s h e c =
      let (r', taken, s') = new chunk_data frame_id image meta sizes r flags i s h e in
      (
        record r' { in_progress = false },
        taken
            ∙ finish-whole chunk_data frame_id image meta sizes r' (set flags i true) i s'
                (omega (arith, count_true-set flags i (omega (arith, s.chunks)) e)),
        refl,
      )

  -- From a frame in progress.
  feed-In :
      (r : Reassembler M) (flags : List Bool) (is : List ℕ) (j : ℕ)
      → In r flags
      → All (λ (i : ℕ). i < size) is
      → j < size
      → get_or (mark flags is) j false ≡ false
      → count_true (mark flags is) + 1 ≡ size
      → (r' : Reassembler M) × (feed chunk_data r (map sent (is ++ (j ∷ [])))
          ≡ some (r', delivered ∷ []))
        × (r'.in_progress ≡ false)
  unfolding feed mark
  feed-In r flags [] j s h hj e c =
      let (r', done, idle) = feed-whole r flags j s hj e c in (r', rw done, idle)
  feed-In r flags (i ∷ is) j s (hi, h) hj e c = elim (Bool-cases (get_or flags i false)) [
    | inl dup ↦
        let (r', fed, idle) =
          feed-In r flags is j s h hj (rw (sym (set_again flags i dup)) e)
            (rw (sym (set_again flags i dup)) c) in
        (r', rw (again chunk_data frame_id image meta sizes r flags i s dup, fed), idle)
    | inr fresh ↦
        let (r', taken, s') = new chunk_data frame_id image meta sizes r flags i s hi fresh in
        let (r'', fed, idle) = feed-In r' (set flags i true) is j s' h hj e c in
        (
          r'',
          rw (
            taken,
            finish-none chunk_data frame_id image meta sizes r' (set flags i true) i s'
                (omega (arith, c, count_true-le-mark (set flags i true) is)),
            fed,
          ),
          idle,
        )
  ]

  -- Doing `begin_frame` for the first chunk before makes no difference to the sequence.
  feed-begin :
      (r : Reassembler M) (i : ℕ) (cs : List (Chunk M))
      → feed chunk_data (begin_frame chunk_data r (sent i)) (sent i ∷ cs)
        ≡ feed chunk_data r (sent i ∷ cs)
  unfolding feed
  feed-begin r i cs = rw (on_chunk-begin chunk_data r (sent i))

  -- What the first chunk starts, when no frame or another frame is in progress.
  begin-In :
      (r : Reassembler M) (i : ℕ)
      → (r.in_progress ≡ false) ⊎ (frame_id ≢ r.current_frame_id)
      → In (begin_frame chunk_data r (sent i)) (replicate size false)
  unfolding chunk_at
  begin-In r i idle =
      subst (λ (r' : Reassembler M). In r' (replicate size false))
        (sym (begin_frame_new chunk_data r (sent i) idle))
        (record {
          busy = refl;
          frame = refl;
          marks = refl;
          chunks = length-replicate size false;
          room = length-replicate (size * chunk_data) 0;
          counter = sym (count_true-replicate size);
          meta_kept = refl;
          last = λ e. unmarked (size - 1) e;
          bytes = λ j p h e k. unmarked j e;
        })
    where
      unmarked : {P : Type 0} → (j : ℕ) → get_or (replicate size false) j false ≡ true → P
      unmarked j e = ground (arith, get_or-replicate size j)

  -- Any sequence of chunks of the image, repeats included, that leaves just chunk `j` missing delivers
  -- nothing, and chunk `j` then delivers the image: exactly once, byte for byte.
  pub any_order :
      (r : Reassembler M) (is : List ℕ) (j : ℕ)
      → (r.in_progress ≡ false) ⊎ (frame_id ≢ r.current_frame_id)
      → All (λ (i : ℕ). i < size) is
      → j < size
      → get_or (mark (replicate size false) is) j false ≡ false
      → count_true (mark (replicate size false) is) + 1 ≡ size
      → (r' : Reassembler M) × (feed chunk_data r (map sent (is ++ (j ∷ [])))
          ≡ some (r', delivered ∷ []))
        × (r'.in_progress ≡ false)
  any_order r [] j idle h hj missing one =
      let (r', fed, done) =
        feed-In (begin_frame chunk_data r (sent j)) (replicate size false) [] j (begin-In r j idle)
          h hj missing one in
      (r', sym (feed-begin r j []) ∙ fed, done)
  any_order r (i ∷ is) j idle h hj missing one =
      let (r', fed, done) =
        feed-In (begin_frame chunk_data r (sent i)) (replicate size false) (i ∷ is) j
          (begin-In r i idle) h hj missing one in
      (r', sym (feed-begin r i (map sent (is ++ (j ∷ [])))) ∙ fed, done)
