-- ===== src/Base/Cuts.antt =====
-- A buffer of bytes cut into the fields that are read from it.
use Prim.Native.Nat.{ℕ, zero, suc, ◌+◌, ◌≤◌}
use mathlib.Core.Path.{◌≡◌, refl}
use mathlib.Core.List.{List, [], ◌∷◌, ◌++◌}
use native.Mathlib.Omega.{arith}
use relink_com.Base.Lists.{length, get_or, drop, All}
use relink_com.Base.Bytes.{IsByte, le16, le32, u16_at, u32_at}

pub drop_byte :
    (k : ℕ) (buf : List ℕ) → k + 1 ≤ length buf → drop k buf ≡ get_or buf k 0 ∷ drop (k + 1) buf
drop_byte k [] h = absurd (omega arith)
drop_byte zero (x ∷ xs) h = refl
drop_byte (suc k) (x ∷ xs) h = ground (arith, drop_byte k xs)

u16_at-suc : (k x : ℕ) (xs : List ℕ) → u16_at (x ∷ xs) (suc k) ≡ u16_at xs k
unfolding u16_at
u16_at-suc k x xs = ground arith

u32_at-suc : (k x : ℕ) (xs : List ℕ) → u32_at (x ∷ xs) (suc k) ≡ u32_at xs k
unfolding u32_at
u32_at-suc k x xs = ground arith

first_u16 :
    (buf : List ℕ) → All IsByte buf → 2 ≤ length buf → buf ≡ le16 (u16_at buf 0) ++ drop 2 buf
unfolding u16_at le16
first_u16 [] b h = absurd (omega arith)
first_u16 (x ∷ []) b h = absurd (omega arith)
first_u16 (x ∷ y ∷ xs) b h = ground arith

first_u32 :
    (buf : List ℕ) → All IsByte buf → 4 ≤ length buf → buf ≡ le32 (u32_at buf 0) ++ drop 4 buf
unfolding u32_at le32
first_u32 [] b h = absurd (omega arith)
first_u32 (x ∷ []) b h = absurd (omega arith)
first_u32 (x ∷ y ∷ []) b h = absurd (omega arith)
first_u32 (x ∷ y ∷ z ∷ []) b h = absurd (omega arith)
first_u32 (x ∷ y ∷ z ∷ w ∷ xs) b h = ground arith

pub drop_u16 :
    (k : ℕ) (buf : List ℕ)
    → All IsByte buf
    → k + 2 ≤ length buf
    → drop k buf ≡ le16 (u16_at buf k) ++ drop (k + 2) buf
drop_u16 zero buf b h = first_u16 buf b h
drop_u16 (suc k) [] b h = absurd (omega arith)
drop_u16 (suc k) (x ∷ xs) b h = ground (arith, drop_u16 k xs b.1, u16_at-suc k x xs)

pub drop_u32 :
    (k : ℕ) (buf : List ℕ)
    → All IsByte buf
    → k + 4 ≤ length buf
    → drop k buf ≡ le32 (u32_at buf k) ++ drop (k + 4) buf
drop_u32 zero buf b h = first_u32 buf b h
drop_u32 (suc k) [] b h = absurd (omega arith)
drop_u32 (suc k) (x ∷ xs) b h = ground (arith, drop_u32 k xs b.1, u32_at-suc k x xs)
