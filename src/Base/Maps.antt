-- ===== src/Base/Maps.antt =====
-- Ordered maps (`std::map`, and `std::unordered_map` where the order of its entries does not show):
-- an association list that insertion keeps in the order of the keys. The keys are an interface.
use mathlib.Core.Path.{◌≡◌, refl}
use mathlib.Core.Logic.{◌↔◌, inl, inr}
use mathlib.Core.Bool.{Bool, true, false, ◌&&◌, ◌||◌}
use mathlib.Core.Option.{Option, none, some}
use mathlib.Core.List.{List, [], ◌∷◌}
use native.Mathlib.Omega.{arith}
use Prim.Native.Nat.{ℕ}
use relink_com.Base.Tests.{ltb, ◌==◌, ==_iff, if◌then◌else◌, Bool-cases}
use relink_com.Base.Lists.{All}

-- Keys with an equality test and an order (`operator<`).
pub record Key (K : Type 0) : Type 0 where
  pub same : K → K → Bool
  pub before : K → K → Bool
  pub same_iff : (a b : K) → (same a b ≡ true) ↔ (a ≡ b)

pub pair_iff :
    {K L : Type 0} (k : Key K) (l : Key L) (a b : K × L)
    → ((k.same a.0 b.0 && l.same a.1 b.1) ≡ true) ↔ (a ≡ b)
pair_iff k l a b = ground (arith, k.same_iff a.0 b.0, l.same_iff a.1 b.1)

-- Pairs are compared lexicographically, as `std::pair` and `std::tie` do.
instance abbrev pub pair_key : {K L : Type 0} → ⦃k : Key K⦄ → ⦃l : Key L⦄ → Key (K × L)
pair_key ⦃k⦄ ⦃l⦄ = record {
  same = λ a b. k.same a.0 b.0 && l.same a.1 b.1;
  before = λ a b. k.before a.0 b.0 || (k.same a.0 b.0 && l.before a.1 b.1);
  same_iff = pair_iff k l;
}

instance abbrev pub nat_key : Key ℕ
nat_key = record { same = ◌==◌; before = ltb; same_iff = ==_iff }

module _ {K : Type 0} {V : Type 0} ⦃o : Key K⦄ where
  unfoldable pub find : K → List (K × V) → Option V
  find k [] = none
  find k ((j, v) ∷ m) = if o.same j k then some v else find k m

  unfoldable pub put : K → V → List (K × V) → List (K × V)
  put k v [] = (k, v) ∷ []
  put k v ((j, w) ∷ m) =
      if o.same j k
      then (k, v) ∷ m
      else if o.before k j
      then (k, v) ∷ (j, w) ∷ m
      else (j, w) ∷ put k v m

  -- erase(k)
  unfoldable pub erase : K → List (K × V) → List (K × V)
  erase k [] = []
  erase k ((j, v) ∷ m) = let rest = erase k m in if o.same j k then rest else (j, v) ∷ rest

  pub find-erase :
      (k j : K) (m : List (K × V)) → find j (erase k m) ≡ (if o.same k j then none else find j m)
  unfolding find erase
  find-erase k j [] = ground arith
  find-erase k j ((i, w) ∷ m) =
      ground (arith, o.same_iff i k, o.same_iff i j, o.same_iff k j, find-erase k j m)

  pub find-put :
      (k j : K) (v : V) (m : List (K × V))
      → find j (put k v m) ≡ (if o.same k j then some v else find j m)
  unfolding find put
  find-put k j v [] = refl
  find-put k j v ((i, w) ∷ m) =
      ground (arith, o.same_iff i k, o.same_iff i j, o.same_iff k j, find-put k j v m)

  pub find-put_self : (k : K) (v : V) (m : List (K × V)) → find k (put k v m) ≡ some v
  find-put_self k v m = ground (arith, find-put k k v m, o.same_iff k k)

module _ {A : Type 0} where
  -- erase(remove_if(…)): what the test holds of is kept.
  unfoldable pub keep : (A → Bool) → List A → List A
  keep p [] = []
  keep p (x ∷ xs) = let rest = keep p xs in if p x then x ∷ rest else rest

  pub keep-All {κ} : (P : A → Type κ) (p : A → Bool) (xs : List A) → All P xs → All P (keep p xs)
  unfolding keep
  keep-All P p [] h = tt
  keep-All P p (x ∷ xs) (hx, h) = elim (Bool-cases (p x)) [
    | inl e ↦ rw e (hx, keep-All P p xs h)
    | inr e ↦ rw e (keep-All P p xs h)
  ]

  pub keep-holds : (p : A → Bool) (xs : List A) → All (λ x. p x ≡ true) (keep p xs)
  unfolding keep
  keep-holds p [] = tt
  keep-holds p (x ∷ xs) = elim (Bool-cases (p x)) [
    | inl e ↦ rw e (e, keep-holds p xs)
    | inr e ↦ rw e (keep-holds p xs)
  ]

-- Is a number in a list?
unfoldable pub is_in : ℕ → List ℕ → Bool
is_in t [] = false
is_in t (x ∷ xs) = (x == t) || is_in t xs
