-- ===== src/Keys/Laws.antt =====
-- key32_to_hex and hex_to_key32 of cpp/include/relink/crypto.hpp undo each other.
use Prim.Native.Nat.{bit_and, bit_or}
use relink_com.Base.{
  ℕ, zero, suc, ◌+◌, ◌*◌, ◌/◌, ◌%◌, ◌<◌, ◌≡◌, refl, sym, ap, ap₂, ◌∙◌, Bool, true, false, Option,
  none, bind_inverse, subst, some, List, [], ◌∷◌, map, not, ◌&&◌, arith, ◌==◌, ==_iff, leb,
  if◌then◌else◌, length, get_or, All, IsByte, passes, passes_sound,
}
use relink_com.Keys.{hex_chars, key32_to_hex, nibble, hex_bytes, hex_to_key32}

-- A digit's character, the way the code picks it, and back.
is_digit : Option ℕ → ℕ → Bool
is_digit none n = false
is_digit (some m) n = m == n

is_digit_sound : (d : Option ℕ) (n : ℕ) → is_digit d n ≡ true → d ≡ some n
unfolding is_digit
is_digit_sound none n h = cc
is_digit_sound (some m) n h = ap some ((==_iff m n).0 h)

byte_table :
    passes
      (λ b.
        is_digit (nibble (get_or hex_chars (b / 16) 0)) (b / 16)
        && is_digit (nibble (get_or hex_chars (bit_and b 0x0f) 0)) (b % 16)
        && (bit_or (b / 16 * 16) (b % 16) == b)
        && (bit_and b 0x0f == b % 16))
      256
    ≡ true
unfolding passes is_digit nibble
byte_table = refl

-- An upper-case letter's lower-case one; any other character is kept.
unfoldable pub lower : ℕ → ℕ
lower c = if leb 65 c && leb c 90 then c + 32 else c

entry :
    (b : ℕ)
    → b < 256
    → (nibble (get_or hex_chars (b / 16) 0) ≡ some (b / 16))
      × (nibble (get_or hex_chars (bit_and b 0x0f) 0) ≡ some (b % 16))
      × (bit_or (b / 16 * 16) (b % 16) ≡ b)
      × (bit_and b 0x0f ≡ b % 16)
entry b h = parts (passes_sound _ 256 byte_table b h)
  where
    both : (s t : Bool) → s && t ≡ true → (s ≡ true) × (t ≡ true)
    both s t e = ground arith

    parts :
        is_digit (nibble (get_or hex_chars (b / 16) 0)) (b / 16)
            && is_digit (nibble (get_or hex_chars (bit_and b 0x0f) 0)) (b % 16)
            && (bit_or (b / 16 * 16) (b % 16) == b)
            && (bit_and b 0x0f == b % 16)
          ≡ true
        → (nibble (get_or hex_chars (b / 16) 0) ≡ some (b / 16))
          × (nibble (get_or hex_chars (bit_and b 0x0f) 0) ≡ some (b % 16))
          × (bit_or (b / 16 * 16) (b % 16) ≡ b)
          × (bit_and b 0x0f ≡ b % 16)
    parts e =
        let e1 = both _ _ e in
        let e2 = both _ _ e1.0 in
        let e3 = both _ _ e2.0 in
        (is_digit_sound _ _ e3.0, is_digit_sound _ _ e3.1, (==_iff _ _).0 e2.1, (==_iff _ _).0 e1.1)

hex_bytes-key32_to_hex : (k : List ℕ) → All IsByte k → hex_bytes (key32_to_hex k) ≡ some k
unfolding hex_bytes key32_to_hex
hex_bytes-key32_to_hex [] h = refl
hex_bytes-key32_to_hex (b ∷ bs) h =
    let t = entry b h.0 in rw (t.0, t.1, hex_bytes-key32_to_hex bs h.1, t.2) refl

length-key32_to_hex : (k : List ℕ) → length (key32_to_hex k) ≡ 2 * length k
unfolding key32_to_hex
length-key32_to_hex [] = refl
length-key32_to_hex (b ∷ bs) = omega (arith, length-key32_to_hex bs)

-- hex_to_key32 reads every key of 32 bytes back from the text that key32_to_hex prints for it.
pub key32_to_hex-hex_to_key32 :
    (key : List ℕ) → All IsByte key → length key ≡ 32 → hex_to_key32 (key32_to_hex key) ≡ some key
unfolding hex_to_key32
key32_to_hex-hex_to_key32 key b h =
    rw (length-key32_to_hex key, h, hex_bytes-key32_to_hex key b) refl

printed : ℕ → Option ℕ → Bool
printed c none = true
printed c (some n) = (get_or hex_chars n 0 == lower c) && leb n 15

digit_table : passes (λ c. printed c (nibble c)) 256 ≡ true
unfolding passes printed nibble lower
digit_table = refl

digit : (c : ℕ) (n : ℕ) → c < 256 → nibble c ≡ some n → (get_or hex_chars n 0 ≡ lower c) × (n < 16)
unfolding printed
digit c n h e = of_test (ap (printed c) (sym e) ∙ passes_sound _ 256 digit_table c h)
  where
    of_test :
        (get_or hex_chars n 0 == lower c) && leb n 15 ≡ true
        → (get_or hex_chars n 0 ≡ lower c) × (n < 16)
    of_test t = (ground arith, ground arith)

pair_entry :
    (hi lo : ℕ)
    → hi < 16
    → lo < 16
    → (bit_or (hi * 16) lo / 16 ≡ hi) × (bit_and (bit_or (hi * 16) lo) 0x0f ≡ lo)
pair_entry hi lo p q =
    let t = entry (hi * 16 + lo) (omega arith) in
    let whole : bit_or (hi * 16) lo ≡ hi * 16 + lo =
      ap₂ (λ (a b : ℕ). bit_or (a * 16) b) {x = hi} (omega arith) (low hi lo q) ∙ t.2 in
    rw whole (omega arith, omega (arith, t.3))
  where
    low : (hi lo : ℕ) → lo < 16 → lo ≡ (hi * 16 + lo) % 16
    low hi lo q = omega arith

-- What is read from text, if anything is, is printed as that text in lower case.
hex_bytes_sound :
    (n : ℕ) (hex key : List ℕ)
    → All IsByte hex
    → length hex ≡ 2 * n
    → hex_bytes hex ≡ some key
    → (key32_to_hex key ≡ map lower hex) × (length key ≡ n)
unfolding hex_bytes key32_to_hex
hex_bytes_sound zero [] [] b l e = (refl, refl)
hex_bytes_sound zero [] (x ∷ key) b l e = cc
hex_bytes_sound zero (c ∷ cs) key b l e = absurd (omega arith)
hex_bytes_sound (suc n) [] key b l e = absurd (omega arith)
hex_bytes_sound (suc n) (c ∷ []) key b l e = absurd (omega arith)
hex_bytes_sound (suc n) (c ∷ c' ∷ cs) key b l e =
    let first = bind_inverse (nibble c) _ key e in
    let second = bind_inverse (nibble c') _ key first.2 in
    let rest = bind_inverse (hex_bytes cs) _ key second.2 in
    let d = digit c first.0 b.0 first.1 in
    let d' = digit c' second.0 b.1.0 second.1 in
    let v = pair_entry first.0 second.0 d.1 d'.1 in
    let ih = hex_bytes_sound n cs rest.0 b.1.1 (omega arith) rest.1 in
    subst (λ k. (key32_to_hex k ≡ map lower (c ∷ c' ∷ cs)) × (length k ≡ suc n))
      (some_injective rest.2) (rw (v.0, v.1, d.0, d'.0, ih.0) refl, ap suc ih.1)
  where
    some_injective : {xs ys : List ℕ} → some xs ≡ some ys → xs ≡ ys
    some_injective e = cc

-- What hex_to_key32 accepts has 64 characters and gives a key of 32 bytes, which key32_to_hex prints as the
-- text itself with its upper-case letters in lower case.
pub hex_to_key32-key32_to_hex :
    (hex key : List ℕ)
    → All IsByte hex
    → hex_to_key32 hex ≡ some key
    → (length hex ≡ 64) × (length key ≡ 32) × (key32_to_hex key ≡ map lower hex)
unfolding hex_to_key32
hex_to_key32-key32_to_hex hex key b e =
    let t = long_enough (length hex == 64) (hex_bytes hex) e in
    let n = (==_iff (length hex) 64).0 t.0 in
    let r = hex_bytes_sound 32 hex key b (omega arith) t.1 in (n, r.1, r.0)
  where
    long_enough :
        (t : Bool) (o : Option (List ℕ))
        → (if not t then none else o) ≡ some key
        → (t ≡ true) × (o ≡ some key)
    long_enough true o e = (refl, e)
    long_enough false o e = cc
