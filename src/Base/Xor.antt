-- ===== src/Base/Xor.antt =====
-- Exclusive or, on numbers and on buffers: the operators `^` and `|` of crypto.hpp.
use Prim.Native.Nat.{
  ℕ, zero, suc, ◌+◌, ◌*◌, ◌/◌, ◌%◌, ◌≤◌, ◌<◌, min, max, differ, digits, bit_or, bit_xor,
  bit_or-bitwise, bit_xor-bitwise,
}
use mathlib.Core.Path.{◌≡◌, refl, sym, ap, ap₂, ◌∙◌}
use mathlib.Core.Bool.{Bool, true, false}
use mathlib.Core.List.{List, [], ◌∷◌}
use native.Mathlib.Omega.{arith}
use native.Mathlib.Decide.{dec_lt}
use relink_com.Base.Tests.{if◌then◌else◌}
use relink_com.Base.Lists.{length, All}
use relink_com.Base.Bytes.{IsByte}

-- Both operations are `digits` with a function on two digits; more fuel than digits changes nothing.
module _ (on_digits : ℕ → ℕ → ℕ) where
  abbrev run : ℕ → ℕ → ℕ → ℕ
  run = digits (λ rest. rest) on_digits

  exhausted : (fuel b : ℕ) → run fuel 0 b ≡ b
  exhausted zero b = refl
  exhausted (suc fuel) b = refl

  settled : (fuel a b : ℕ) → a ≤ fuel → (fuel' : ℕ) → a ≤ fuel' → run fuel a b ≡ run fuel' a b
  settled fuel zero b le fuel' le' = exhausted fuel b ∙ sym (exhausted fuel' b)
  settled (suc fuel) (suc a) b le (suc fuel') le' =
      ap (λ upper. upper * 2 + on_digits (suc a % 2) (b % 2))
        (settled fuel (suc a / 2) (b / 2) (omega arith) fuel' (omega arith))
  settled zero (suc a) b le fuel' le' = absurd (omega arith)
  settled fuel (suc a) b le zero le' = absurd (omega arith)

zero-bit_xor : (b : ℕ) → bit_xor 0 b ≡ b
zero-bit_xor b = bit_xor-bitwise 0 b

zero-bit_or : (b : ℕ) → bit_or 0 b ≡ b
zero-bit_or b = bit_or-bitwise 0 b

bit_differ : (x y : ℕ) → x < 2 → y < 2 → differ x y ≡ (x + y) % 2
bit_differ zero y p q = omega arith
bit_differ (suc zero) zero p q = refl
bit_differ (suc zero) (suc zero) p q = refl
bit_differ (suc zero) (suc (suc y)) p q = absurd (omega arith)
bit_differ (suc (suc x)) y p q = absurd (omega arith)

-- The law for the lowest digit.
bit_xor-step : (a b : ℕ) → bit_xor a b ≡ bit_xor (a / 2) (b / 2) * 2 + (a + b) % 2
bit_xor-step zero b = omega (arith, zero-bit_xor b, zero-bit_xor (b / 2))
bit_xor-step (suc a) b = omega (
  arith,
  bit_xor-bitwise (suc a) b,
  bit_xor-bitwise (suc a / 2) (b / 2),
  settled differ a (suc a / 2) (b / 2) (omega arith) (suc a / 2) (omega arith),
  bit_differ (suc a % 2) (b % 2) (omega arith) (omega arith),
)

bit_or-step : (a b : ℕ) → bit_or a b ≡ bit_or (a / 2) (b / 2) * 2 + max (a % 2) (b % 2)
bit_or-step zero b = omega (arith, zero-bit_or b, zero-bit_or (b / 2))
bit_or-step (suc a) b = omega (
  arith,
  bit_or-bitwise (suc a) b,
  bit_or-bitwise (suc a / 2) (b / 2),
  settled max a (suc a / 2) (b / 2) (omega arith) (suc a / 2) (omega arith),
)

-- A second exclusive or with the same number undoes the first.
xor_twice_fuel : (n a b : ℕ) → a ≤ n → b ≤ n → bit_xor (bit_xor a b) b ≡ a
xor_twice_fuel zero zero zero p q = refl
xor_twice_fuel zero zero (suc b) p q = absurd (omega arith)
xor_twice_fuel zero (suc a) b p q = absurd (omega arith)
xor_twice_fuel (suc n) a b p q = omega (
  arith,
  bit_xor-step (bit_xor a b) b,
  bit_xor-step a b,
  ap (λ (k : ℕ). bit_xor k (b / 2)) {x = bit_xor a b / 2} {y = bit_xor (a / 2) (b / 2)}
      (halved a b),
  xor_twice_fuel n (a / 2) (b / 2) (omega arith) (omega arith),
)
  where
    halved : (a b : ℕ) → bit_xor a b / 2 ≡ bit_xor (a / 2) (b / 2)
    halved a b = omega (arith, bit_xor-step a b)

pub bit_xor_twice : (a b : ℕ) → bit_xor (bit_xor a b) b ≡ a
bit_xor_twice a b = xor_twice_fuel (a + b) a b (omega arith) (omega arith)

-- The exclusive or of two numbers is 0 only if they are equal.
xor_zero_fuel : (n a b : ℕ) → a ≤ n → b ≤ n → bit_xor a b ≡ 0 → a ≡ b
xor_zero_fuel zero a b p q e = omega arith
xor_zero_fuel (suc n) a b p q e = omega (
  arith,
  xor_zero_fuel n (a / 2) (b / 2) (omega arith) (omega arith) (omega (arith, bit_xor-step a b)),
  bit_xor-step a b,
)

pub bit_xor_zero : (a b : ℕ) → bit_xor a b ≡ 0 → a ≡ b
bit_xor_zero a b e = xor_zero_fuel (a + b) a b (omega arith) (omega arith) e

pub bit_xor_self : (a : ℕ) → bit_xor a a ≡ 0
bit_xor_self a = ap (λ (k : ℕ). bit_xor k a) (sym (zero-bit_xor a)) ∙ bit_xor_twice 0 a

or_zero_fuel : (n a b : ℕ) → a ≤ n → b ≤ n → bit_or a b ≡ 0 → (a ≡ 0) × (b ≡ 0)
or_zero_fuel zero a b p q e = (omega arith, omega arith)
or_zero_fuel (suc n) a b p q e =
    let half =
      or_zero_fuel n (a / 2) (b / 2) (omega arith) (omega arith) (omega (arith, bit_or-step a b)) in
    (omega (arith, half.0, bit_or-step a b), omega (arith, half.1, bit_or-step a b))

-- An or is 0 only if both numbers are.
pub bit_or_zero : (a b : ℕ) → bit_or a b ≡ 0 → (a ≡ 0) × (b ≡ 0)
bit_or_zero a b e = or_zero_fuel (a + b) a b (omega arith) (omega arith) e

xor_half_bound : (n a b : ℕ) → bit_xor (a / 2) (b / 2) < n → bit_xor a b < 2 * n
xor_half_bound n a b h = omega (arith, bit_xor-step a b)

pub bit_xor-lt : (a b : ℕ) → a < 256 → b < 256 → bit_xor a b < 256
bit_xor-lt a b p q = levels
  where
    none_left : (c : ℕ) → c < 256 → c / 2 / 2 / 2 / 2 / 2 / 2 / 2 / 2 ≡ 0
    none_left c h = omega arith

    eighth : bit_xor (a / 2 / 2 / 2 / 2 / 2 / 2 / 2 / 2) (b / 2 / 2 / 2 / 2 / 2 / 2 / 2 / 2) < 1
    eighth = omega (arith, ap₂ bit_xor (none_left a p) (none_left b q) ∙ zero-bit_xor 0)

    levels : bit_xor a b < 256
    levels = xor_half_bound 128 a b (
        xor_half_bound 64 _ _ (
          xor_half_bound 32 _ _ (
            xor_half_bound 16 _ _ (
              xor_half_bound 8 _ _
                (xor_half_bound 4 _ _ (xor_half_bound 2 _ _ (xor_half_bound 1 _ _ eighth)))))))

-- Two buffers, byte by byte, up to the end of the shorter one.
unfoldable pub xor_bytes : List ℕ → List ℕ → List ℕ
xor_bytes (x ∷ xs) (y ∷ ys) = bit_xor x y ∷ xor_bytes xs ys
xor_bytes _ _ = []

pub length-xor_bytes : (xs ys : List ℕ) → length (xor_bytes xs ys) ≡ min (length xs) (length ys)
unfolding xor_bytes
length-xor_bytes [] ys = omega arith
length-xor_bytes (x ∷ xs) [] = omega arith
length-xor_bytes (x ∷ xs) (y ∷ ys) = omega (arith, length-xor_bytes xs ys)

pub xor_bytes_twice : (xs ys : List ℕ) → length xs ≤ length ys → xor_bytes (xor_bytes xs ys) ys ≡ xs
unfolding xor_bytes
xor_bytes_twice [] ys h = refl
xor_bytes_twice (x ∷ xs) [] h = absurd (omega arith)
xor_bytes_twice (x ∷ xs) (y ∷ ys) h =
    ap₂ ◌∷◌ (bit_xor_twice x y) (xor_bytes_twice xs ys (omega arith))

pub xor_bytes-IsByte :
    (xs ys : List ℕ) → All IsByte xs → All IsByte ys → All IsByte (xor_bytes xs ys)
unfolding xor_bytes
xor_bytes-IsByte [] ys p q = tt
xor_bytes-IsByte (x ∷ xs) [] p q = tt
xor_bytes-IsByte (x ∷ xs) (y ∷ ys) p q = (bit_xor-lt x y p.0 q.0, xor_bytes-IsByte xs ys p.1 q.1)

-- `diff |= a[i] ^ b[i]` over two buffers, and the test `diff != 0`.
unfoldable pub difference : ℕ → List ℕ → List ℕ → ℕ
difference diff (x ∷ xs) (y ∷ ys) = difference (bit_or diff (bit_xor x y)) xs ys
difference diff _ _ = diff

difference_zero :
    (diff : ℕ) (xs ys : List ℕ)
    → difference diff xs ys ≡ 0
    → length xs ≡ length ys
    → (diff ≡ 0) × (xs ≡ ys)
unfolding difference
difference_zero diff [] [] e l = (e, refl)
difference_zero diff [] (y ∷ ys) e l = absurd (omega arith)
difference_zero diff (x ∷ xs) [] e l = absurd (omega arith)
difference_zero diff (x ∷ xs) (y ∷ ys) e l =
    let rest = difference_zero (bit_or diff (bit_xor x y)) xs ys e (omega arith) in
    let here = bit_or_zero diff (bit_xor x y) rest.0 in
    (here.0, ap₂ ◌∷◌ (bit_xor_zero x y here.1) rest.1)

pub difference_sound : (xs ys : List ℕ) → length xs ≡ length ys → difference 0 xs ys ≡ 0 → xs ≡ ys
difference_sound xs ys l e = (difference_zero 0 xs ys e l).1

pub difference_self : (xs : List ℕ) → difference 0 xs xs ≡ 0
unfolding difference
difference_self [] = refl
difference_self (x ∷ xs) =
    ap (λ (k : ℕ). difference k xs xs) (zero-bit_or (bit_xor x x) ∙ bit_xor_self x)
    ∙ difference_self xs

-- A test of every byte, by evaluation: the numbers below `bound`, from the largest down.
unfoldable pub passes : (ℕ → Bool) → ℕ → Bool
passes test zero = true
passes test (suc bound) = if test bound then passes test bound else false

passes_pred :
    (test : ℕ → Bool) (bound : ℕ)
    → passes test (suc bound) ≡ true
    → (test bound ≡ true) × (passes test bound ≡ true)
unfolding passes
passes_pred test bound = by_first (test bound)
  where
    by_first :
        (first : Bool)
        → (if first then passes test bound else false) ≡ true
        → (first ≡ true) × (passes test bound ≡ true)
    by_first true e = (refl, e)
    by_first false e = cc

pub passes_sound :
    (test : ℕ → Bool) (bound : ℕ) → passes test bound ≡ true → (k : ℕ) → k < bound → test k ≡ true
passes_sound test zero e k h = absurd (omega arith)
passes_sound test (suc bound) e k h =
    let (first, others) = passes_pred test bound e in
    elim (dec_lt k bound) [
      | yes below ↦ passes_sound test bound others k below
      | no last ↦ ap test {x = k} (omega arith) ∙ first
    ]
