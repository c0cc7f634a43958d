-- ===== src/StdMsgs/Texts.antt =====
-- The text fields of cpp/include/relink/standard_msgs.hpp: what a getter answers for what a setter has stored.
use relink_com.Base.{
  ℕ, zero, suc, ◌+◌, ◌-◌, ◌<◌, ◌≡◌, ◌≢◌, refl, arith, List, [], ◌∷◌, ◌++◌, take, length, replicate,
  All, length-append, length-replicate, take-length, length-take, append_assoc,
}
use relink_com.StdMsgs.{up_to_zero, set_text, text_str}

abbrev pub NonZero : ℕ → Type 0
NonZero c = c ≢ 0

up_to_zero-take : (n : ℕ) (s : List ℕ) → All NonZero s → up_to_zero n s ≡ take n s
unfolding up_to_zero
up_to_zero-take zero s all = refl
up_to_zero-take (suc n) [] all = refl
up_to_zero-take (suc n) (c ∷ s) (ne, all) = ground (arith, up_to_zero-take n s all)

up_to_zero-stops :
    (n : ℕ) (s rest : List ℕ) → All NonZero s → length s < n → up_to_zero n (s ++ (0 ∷ rest)) ≡ s
unfolding up_to_zero
up_to_zero-stops zero s rest all lt = absurd (omega arith)
up_to_zero-stops (suc n) [] rest all lt = refl
up_to_zero-stops (suc n) (c ∷ s) rest (ne, all) lt =
    ground (arith, up_to_zero-stops n s rest all (omega arith))

take-NonZero : (n : ℕ) (s : List ℕ) → All NonZero s → All NonZero (take n s)
take-NonZero zero s all = tt
take-NonZero (suc n) [] all = tt
take-NonZero (suc n) (c ∷ s) (ne, all) = (ne, take-NonZero n s all)

replicate-zero : (n : ℕ) → 0 < n → replicate {A = ℕ} n 0 ≡ 0 ∷ replicate (n - 1) 0
replicate-zero zero lt = absurd (omega arith)
replicate-zero (suc n) lt = rw (the_same) refl
  where
    the_same : suc n - 1 ≡ n
    the_same = omega arith

-- A text is stored with zero bytes behind it, and at least one.
set_text-take :
    (size : ℕ) (s : List ℕ)
    → 0 < size
    → All NonZero s
    → set_text size s
      ≡ take (size - 1) s ++ (0 ∷ replicate (size - length (take (size - 1) s) - 1) 0)
unfolding set_text
set_text-take size s pos all =
    rw
      (
        up_to_zero-take (size - 1) s all,
        replicate-zero (size - length (take (size - 1) s)) some_left,
      )
      refl
  where
    some_left : 0 < size - length (take (size - 1) s)
    some_left = omega (arith, length-take (size - 1) s)

-- What set_frame_id, String::set or another setter stores in a field of `size` bytes, frame_id_str, str or the other
-- getters answer, cut to size - 1 bytes if it is longer. The field takes up exactly its `size` bytes. The text has no
-- zero byte, as in C.
pub text_str-set_text :
    (size : ℕ) (s : List ℕ)
    → 0 < size
    → All NonZero s
    → (length (set_text size s) ≡ size) × (text_str size (set_text size s) ≡ take (size - 1) s)
unfolding text_str
text_str-set_text size s pos all = (full, ends)
  where
    full : length (set_text size s) ≡ size
    full =
        rw
          (
            set_text-take size s pos all,
            length-append (take (size - 1) s)
                (0 ∷ replicate (size - length (take (size - 1) s) - 1) 0),
            length-replicate {A = ℕ} (size - length (take (size - 1) s) - 1) 0,
          )
          (omega (arith, length-take (size - 1) s))

    kept : List ℕ
    kept = take (size - 1) s

    ends : up_to_zero (size + 1) (take size (set_text size s) ++ (0 ∷ [])) ≡ kept
    ends =
        rw
          (
            take-length size (set_text size s) (omega (arith, full)),
            set_text-take size s pos all,
            append_assoc kept (0 ∷ replicate (size - length kept - 1) 0) (0 ∷ []),
          )
          (up_to_zero-stops (size + 1) kept _ (take-NonZero (size - 1) s all)
            (omega (arith, length-take (size - 1) s)))
