-- ===== src/Keys.antt =====
-- Keys as hexadecimal text: key32_to_hex and hex_to_key32 of cpp/include/relink/crypto.hpp.
-- A string is the list of its characters' codes.
mod Laws
mod Tests
use Prim.Native.Nat.{bit_and, bit_or}
use relink_com.Base.{
  ℕ, ◌+◌, ◌-◌, ◌*◌, ◌/◌, Option, none, some, ◌>>=◌, List, [], ◌∷◌, not, ◌&&◌, ◌==◌, leb,
  if◌then◌else◌, length, get_or,
}

abbrev pub hex_chars : List ℕ
hex_chars = 48 ∷ 49 ∷ 50 ∷ 51 ∷ 52 ∷ 53 ∷ 54 ∷ 55 ∷ 56 ∷ 57 ∷ 97 ∷ 98 ∷ 99 ∷ 100 ∷ 101 ∷ 102 ∷ []

unfoldable pub key32_to_hex : List ℕ → List ℕ
key32_to_hex [] = []
key32_to_hex (b ∷ bs) =
    get_or hex_chars (b / 16) 0 ∷ get_or hex_chars (bit_and b 0x0f) 0 ∷ key32_to_hex bs

-- The digit of a character; the code has -1 where there is none.
unfoldable pub nibble : ℕ → Option ℕ
nibble c =
    if leb 48 c && leb c 57
    then some (c - 48)
    else if leb 97 c && leb c 102
    then some (c - 97 + 10)
    else if leb 65 c && leb c 70
    then some (c - 65 + 10)
    else none

-- The loop over the pairs of characters.
unfoldable pub hex_bytes : List ℕ → Option (List ℕ)
hex_bytes (c ∷ c' ∷ cs) = do
  hi ← nibble c
  lo ← nibble c'
  bs ← hex_bytes cs
  some (bit_or (hi * 16) lo ∷ bs)
hex_bytes _ = some []

unfoldable pub hex_to_key32 : List ℕ → Option (List ℕ)
hex_to_key32 hex = if not (length hex == 64) then none else hex_bytes hex
