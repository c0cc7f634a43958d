-- ===== src/Base/Bytes.antt =====
-- Bytes and little-endian fields: `memcpy` of an integer to or from a byte buffer (wire.hpp).
-- A buffer is the list of its bytes; the hosts that the code is built for are little-endian.
use Prim.Native.Nat.{ℕ, zero, suc, ◌+◌, ◌*◌, ◌/◌, ◌%◌, ◌<◌}
use mathlib.Core.Path.{◌≡◌, refl, ap}
use mathlib.Core.List.{List, [], ◌∷◌, ◌++◌}
use mathlib.Core.Bool.{Bool, true, false, ◌&&◌}
use native.Mathlib.Omega.{arith}
use relink_com.Base.Tests.{◌==◌}
use relink_com.Base.Lists.{length, get_or, All, get_or-append_right}

abbrev pub IsByte : ℕ → Type 0
IsByte b = b < 256

abbrev pub u16_mod : ℕ
u16_mod = 65536

abbrev pub u32_mod : ℕ
u32_mod = 4294967296

abbrev pub u64_mod : ℕ
u64_mod = 18446744073709551616

-- The two, four and eight bytes of an integer, lowest first.
unfoldable pub le16 : ℕ → List ℕ
le16 v = v % 256 ∷ v / 256 % 256 ∷ []

unfoldable pub le32 : ℕ → List ℕ
le32 v = v % 256 ∷ v / 256 % 256 ∷ v / 65536 % 256 ∷ v / 16777216 % 256 ∷ []

-- The integer whose bytes stand at an offset. Past the end a byte reads as 0: the decoders check
-- the length first, and their theorems hold for every such value.
unfoldable pub u16_at : List ℕ → ℕ → ℕ
u16_at buf off = get_or buf off 0 + 256 * get_or buf (off + 1) 0

unfoldable pub u32_at : List ℕ → ℕ → ℕ
u32_at buf off =
    get_or buf off 0
    + 256 * get_or buf (off + 1) 0
    + 65536 * get_or buf (off + 2) 0
    + 16777216 * get_or buf (off + 3) 0

pub length-le16 : (v : ℕ) → length (le16 v) ≡ 2
unfolding le16
length-le16 v = refl

pub length-le32 : (v : ℕ) → length (le32 v) ≡ 4
unfolding le32
length-le32 v = refl

pub le16-IsByte : (v : ℕ) → All IsByte (le16 v)
unfolding le16
le16-IsByte v = omega arith

pub le32-IsByte : (v : ℕ) → All IsByte (le32 v)
unfolding le32
le32-IsByte v = omega arith

pub get_or-All : (xs : List ℕ) (i : ℕ) → All IsByte xs → get_or xs i 0 < 256
get_or-All [] i h = omega arith
get_or-All (x ∷ xs) zero h = h.0
get_or-All (x ∷ xs) (suc i) h = get_or-All xs i h.1

-- A field is read from the part of the buffer behind a prefix.
pub u16_at-append : (pre xs : List ℕ) (i : ℕ) → u16_at (pre ++ xs) (length pre + i) ≡ u16_at xs i
unfolding u16_at
u16_at-append pre xs i = omega (
  arith,
  get_or-append_right pre xs i 0,
  ap (λ (k : ℕ). get_or (pre ++ xs) k 0) (sum 1),
  get_or-append_right pre xs (i + 1) 0,
)
  where
    sum : (n : ℕ) → length pre + i + n ≡ length pre + (i + n)
    sum n = omega arith

pub u32_at-append : (pre xs : List ℕ) (i : ℕ) → u32_at (pre ++ xs) (length pre + i) ≡ u32_at xs i
unfolding u32_at
u32_at-append pre xs i = omega (
  arith,
  get_or-append_right pre xs i 0,
  ap (λ (k : ℕ). get_or (pre ++ xs) k 0) (sum 1),
  get_or-append_right pre xs (i + 1) 0,
  ap (λ (k : ℕ). get_or (pre ++ xs) k 0) (sum 2),
  get_or-append_right pre xs (i + 2) 0,
  ap (λ (k : ℕ). get_or (pre ++ xs) k 0) (sum 3),
  get_or-append_right pre xs (i + 3) 0,
)
  where
    sum : (n : ℕ) → length pre + i + n ≡ length pre + (i + n)
    sum n = omega arith

-- What was written is read back.
pub u16_at-le16 : (v : ℕ) (rest : List ℕ) → v < u16_mod → u16_at (le16 v ++ rest) 0 ≡ v
unfolding u16_at le16
u16_at-le16 v rest h = ground arith

pub u32_at-le32 : (v : ℕ) (rest : List ℕ) → v < u32_mod → u32_at (le32 v ++ rest) 0 ≡ v
unfolding u32_at le32
u32_at-le32 v rest h = omega arith

-- memcmp(…) == 0 over buffers of the same length.
unfoldable pub bytes_eq : List ℕ → List ℕ → Bool
bytes_eq [] [] = true
bytes_eq (x ∷ xs) (y ∷ ys) = (x == y) && bytes_eq xs ys
bytes_eq _ _ = false

pub bytes_eq_sound : (xs ys : List ℕ) → bytes_eq xs ys ≡ true → xs ≡ ys
unfolding bytes_eq
bytes_eq_sound [] [] h = refl
bytes_eq_sound [] (y ∷ ys) h = cc
bytes_eq_sound (x ∷ xs) [] h = cc
bytes_eq_sound (x ∷ xs) (y ∷ ys) h = ground (arith, bytes_eq_sound xs ys)

pub bytes_eq_refl : (xs : List ℕ) → bytes_eq xs xs ≡ true
unfolding bytes_eq
bytes_eq_refl [] = refl
bytes_eq_refl (x ∷ xs) = ground (arith, bytes_eq_refl xs)

pub u32_at-lt : (buf : List ℕ) (off : ℕ) → All IsByte buf → u32_at buf off < u32_mod
unfolding u32_at
u32_at-lt buf off b = omega (
  arith,
  get_or-All buf off b,
  get_or-All buf (off + 1) b,
  get_or-All buf (off + 2) b,
  get_or-All buf (off + 3) b,
)

pub u16_at-lt : (buf : List ℕ) (off : ℕ) → All IsByte buf → u16_at buf off < u16_mod
unfolding u16_at
u16_at-lt buf off b = omega (arith, get_or-All buf off b, get_or-All buf (off + 1) b)

-- Eight bytes, as two halves.
unfoldable pub le64 : ℕ → List ℕ
le64 v = le32 (v % u32_mod) ++ le32 (v / u32_mod)

unfoldable pub u64_at : List ℕ → ℕ → ℕ
u64_at buf off = u32_at buf off + u32_mod * u32_at buf (off + 4)

pub length-le64 : (v : ℕ) → length (le64 v) ≡ 8
unfolding le64 le32
length-le64 v = refl

pub u64_at-le64 : (v : ℕ) (rest : List ℕ) → v < u64_mod → u64_at (le64 v ++ rest) 0 ≡ v
unfolding u64_at le64 u32_at le32
u64_at-le64 v rest h = omega arith
