-- ===== src/Keys/Tests.antt =====
-- The examples at which the theorems on keys are applied.
use relink_com.Base.{ℕ, ◌≡◌, refl, List, ◌∷◌, some, replicate}
use relink_com.Keys.{hex_to_key32, hex_bytes, nibble}

-- 64 characters: aF, and as many zeros.
abbrev text : List ℕ
text = 97 ∷ 70 ∷ replicate 62 48

abbrev read_key : List ℕ
read_key = 0xaf ∷ replicate 31 0

accepted : hex_to_key32 text ≡ some read_key
unfolding hex_to_key32 hex_bytes nibble
accepted = refl
