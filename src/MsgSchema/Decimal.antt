-- ===== src/MsgSchema/Decimal.antt =====
-- The decimal texts that cpp/tools/msg_schema.hpp prints for whole numbers.
use native.Mathlib.Nat.{pow-succ'}
use relink_com.Base.{
  ℕ, zero, suc, ◌+◌, ◌-◌, ◌*◌, ◌/◌, ◌%◌, ◌^◌, ◌≤◌, ◌<◌, ◌≡◌, refl, arith, List, [], ◌∷◌, ◌++◌, ltb,
  Bool-cases, inl, inr, All, All-append,
}
use relink_com.MsgSchema.{digits, decimal}

-- The number that a text of digits stands for, read from the left.
unfoldable pub read_digits : ℕ → List ℕ → ℕ
read_digits acc [] = acc
read_digits acc (c ∷ cs) = read_digits (10 * acc + (c - b'0')) cs

abbrev pub IsDigit : ℕ → Type 0
IsDigit c = (b'0' ≤ c) × (c ≤ b'9')

read_digits-append :
    (acc : ℕ) (cs : List ℕ) (c : ℕ)
    → read_digits acc (cs ++ (c ∷ [])) ≡ 10 * read_digits acc cs + (c - b'0')
unfolding read_digits
read_digits-append acc [] c = refl
read_digits-append acc (d ∷ cs) c = read_digits-append (10 * acc + (d - b'0')) cs c

tenth-lt : (n p : ℕ) → n < 10 * p → n / 10 < p
tenth-lt n p lt = omega arith

read_digits-digits : (fuel n : ℕ) → n < 10 ^ suc fuel → read_digits 0 (digits fuel n) ≡ n
unfolding digits read_digits
read_digits-digits zero n lt = omega arith
read_digits-digits (suc fuel) n lt = elim (Bool-cases (ltb n 10)) [
  | inl small ↦ rw small (omega arith)
  | inr large ↦
      rw
        (
          large,
          read_digits-append 0 (digits fuel (n / 10)) (b'0' + n % 10),
          read_digits-digits fuel (n / 10)
              (tenth-lt n (10 ^ suc fuel) (rw (pow-succ' 10 (suc fuel)) at lt)),
        )
        (omega arith)
]

digits-IsDigit : (fuel n : ℕ) → All IsDigit (digits fuel n)
unfolding digits
digits-IsDigit zero n = ((omega arith, omega arith), tt)
digits-IsDigit (suc fuel) n = elim (Bool-cases (ltb n 10)) [
  | inl small ↦ rw small ((omega arith, ground arith), tt)
  | inr large ↦ rw large (
      All-append IsDigit (digits fuel (n / 10)) ((b'0' + n % 10) ∷ [])
        (digits-IsDigit fuel (n / 10)) ((omega arith, omega arith), tt))
]

-- std::to_string of a number below 2^64 is a text of digits that, read from the left, is that number.
pub read_digits-decimal :
    (n : ℕ) → n < 2 ^ 64 → All IsDigit (decimal n) × (read_digits 0 (decimal n) ≡ n)
unfolding decimal
read_digits-decimal n lt = (digits-IsDigit 19 n, read_digits-digits 19 n (omega arith))
