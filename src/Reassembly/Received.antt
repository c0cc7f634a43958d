-- ===== src/Reassembly/Received.antt =====
-- `std::vector<bool> received_` with its counter.
use relink_com.Base.{
  ℕ, zero, suc, ◌+◌, ◌<◌, ◌≤◌, ◌≡◌, refl, sym, ap, Bool, true, false, List, [], ◌∷◌, arith, length,
  get_or, set, replicate,
}

-- How many are set.
unfoldable pub count_true : List Bool → ℕ
count_true [] = 0
count_true (true ∷ bs) = suc (count_true bs)
count_true (false ∷ bs) = count_true bs

pub count_true-le : (bs : List Bool) → count_true bs ≤ length bs
unfolding count_true
count_true-le [] = omega arith
count_true-le (true ∷ bs) = omega (arith, count_true-le bs)
count_true-le (false ∷ bs) = omega (arith, count_true-le bs)

pub count_true-replicate : (n : ℕ) → count_true (replicate n false) ≡ 0
unfolding count_true
count_true-replicate zero = refl
count_true-replicate (suc n) = count_true-replicate n

pub get_or-replicate : (n i : ℕ) → get_or (replicate n false) i false ≡ false
get_or-replicate zero i = refl
get_or-replicate (suc n) zero = refl
get_or-replicate (suc n) (suc i) = get_or-replicate n i

pub count_true-set :
    (bs : List Bool) (i : ℕ)
    → i < length bs
    → get_or bs i false ≡ false
    → count_true (set bs i true) ≡ count_true bs + 1
unfolding count_true
count_true-set [] i h e = absurd (omega arith)
count_true-set (true ∷ bs) zero h e = cc
count_true-set (false ∷ bs) zero h e = omega arith
count_true-set (true ∷ bs) (suc i) h e = omega (arith, count_true-set bs i (omega arith) e)
count_true-set (false ∷ bs) (suc i) h e = omega (arith, count_true-set bs i (omega arith) e)

-- All are set when the counter has reached the length.
pub all-count_true :
    (bs : List Bool) (i : ℕ) → count_true bs ≡ length bs → i < length bs → get_or bs i false ≡ true
unfolding count_true
all-count_true [] i e h = absurd (omega arith)
all-count_true (true ∷ bs) zero e h = refl
all-count_true (true ∷ bs) (suc i) e h = all-count_true bs i (omega arith) (omega arith)
all-count_true (false ∷ bs) i e h = absurd (omega (arith, count_true-le bs))

-- One is not set as long as the counter has not.
pub count_true-lt :
    (bs : List Bool) (i : ℕ) → i < length bs → get_or bs i false ≡ false → count_true bs < length bs
unfolding count_true
count_true-lt [] i h e = absurd (omega arith)
count_true-lt (true ∷ bs) zero h e = cc
count_true-lt (false ∷ bs) zero h e = omega (arith, count_true-le bs)
count_true-lt (true ∷ bs) (suc i) h e = omega (arith, count_true-lt bs i (omega arith) e)
count_true-lt (false ∷ bs) (suc i) h e = omega (arith, count_true-lt bs i (omega arith) e)

-- The flags after the chunks with these indices.
unfoldable pub mark : List Bool → List ℕ → List Bool
mark bs [] = bs
mark bs (i ∷ is) = mark (set bs i true) is

pub set_again : (bs : List Bool) (i : ℕ) → get_or bs i false ≡ true → set bs i true ≡ bs
set_again [] i e = refl
set_again (b ∷ bs) zero e = ap (λ (x : Bool). x ∷ bs) (sym e)
set_again (b ∷ bs) (suc i) e = ap (λ (xs : List Bool). b ∷ xs) (set_again bs i e)

count_true-le-set : (bs : List Bool) (i : ℕ) → count_true bs ≤ count_true (set bs i true)
unfolding count_true
count_true-le-set [] i = omega arith
count_true-le-set (true ∷ bs) zero = omega arith
count_true-le-set (false ∷ bs) zero = omega arith
count_true-le-set (true ∷ bs) (suc i) = omega (arith, count_true-le-set bs i)
count_true-le-set (false ∷ bs) (suc i) = omega (arith, count_true-le-set bs i)

pub count_true-le-mark : (bs : List Bool) (is : List ℕ) → count_true bs ≤ count_true (mark bs is)
unfolding mark
count_true-le-mark bs [] = omega arith
count_true-le-mark bs (i ∷ is) =
    omega (arith, count_true-le-set bs i, count_true-le-mark (set bs i true) is)
