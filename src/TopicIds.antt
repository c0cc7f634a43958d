-- ===== src/TopicIds.antt =====
-- The trailing `topic_ids` array of a beacon (beacon.hpp) and of a RegisterRequest (register.hpp):
-- the loops that write it, and the reads of one element by `beacon_topic_at` and
-- `register_request_topic_at`.
use relink_com.Base.{
  ℕ, suc, ◌*◌, ◌<◌, ◌≡◌, refl, ap, ap₂, ◌∙◌, List, [], ◌∷◌, ◌++◌, arith, length, All, IsByte, le32,
  u32_at, u32_mod, length-append, length-le32, le32-IsByte, u32_at-append, u32_at-le32, All-append,
  tabulate, tabulate_congr, append_assoc,
}

-- The loop that copies the ids one by one behind what is there.
unfoldable pub write_ids : List ℕ → List ℕ
write_ids [] = []
write_ids (t ∷ ts) = le32 t ++ write_ids ts

-- The element `i` of the array that starts the buffer.
unfoldable pub id_at : List ℕ → ℕ → ℕ
id_at raw i = u32_at raw (i * 4)

abbrev pub IsId : ℕ → Type 0
IsId t = t < u32_mod

pub length-write_ids : (ts : List ℕ) → length (write_ids ts) ≡ 4 * length ts
unfolding write_ids
length-write_ids [] = refl
length-write_ids (t ∷ ts) =
    omega (arith, length-append (le32 t) (write_ids ts), length-le32 t, length-write_ids ts)

pub write_ids-IsByte : (ts : List ℕ) → All IsByte (write_ids ts)
unfolding write_ids
write_ids-IsByte [] = tt
write_ids-IsByte (t ∷ ts) =
    All-append IsByte (le32 t) (write_ids ts) (le32-IsByte t) (write_ids-IsByte ts)

-- Reading the elements one after the other gives back the ids, whatever follows the array.
pub ids-write_ids :
    (ts rest : List ℕ) → All IsId ts → tabulate (id_at (write_ids ts ++ rest)) (length ts) ≡ ts
unfolding write_ids id_at
ids-write_ids [] rest h = refl
ids-write_ids (t ∷ ts) rest (ht, hts) =
    ap₂ ◌∷◌ first (tabulate_congr _ _ (length ts) later ∙ ids-write_ids ts rest hts)
  where
    split : (le32 t ++ write_ids ts) ++ rest ≡ le32 t ++ (write_ids ts ++ rest)
    split = append_assoc (le32 t) (write_ids ts) rest

    first : u32_at ((le32 t ++ write_ids ts) ++ rest) 0 ≡ t
    first = ap (λ (xs : List ℕ). u32_at xs 0) split ∙ u32_at-le32 t _ ht

    later :
        (i : ℕ)
        → i < length ts
        → u32_at ((le32 t ++ write_ids ts) ++ rest) (suc i * 4)
          ≡ u32_at (write_ids ts ++ rest) (i * 4)
    later i _ =
        ap₂ u32_at split (omega (arith, length-le32 t))
        ∙ u32_at-append (le32 t) (write_ids ts ++ rest) (i * 4)
