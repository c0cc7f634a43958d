-- ===== src/Base/Circular.antt =====
-- Indices that go round at a capacity, and lists given by their elements.
use Prim.Native.Nat.{ℕ, zero, suc, ◌+◌, ◌%◌, ◌<◌, ◌≤◌, ◌-◌}
use mathlib.Core.Path.{◌≡◌, refl, sym, ◌∙◌, ap, ap₂}
use mathlib.Core.Logic.{◌≢◌, ◌⊎◌, inl, inr}
use mathlib.Core.List.{List, [], ◌∷◌, ◌++◌}
use native.Mathlib.Omega.{arith}
use native.Mathlib.Decide.{dec_lt}
use native.Mathlib.Nat.{mod-eq_of_lt, mod-eq-sub-mod, mod-add-mod}
use relink_com.Base.Lists.{length, get_or, set, get_or-set_self, get_or-set_ne}

pub wrap_cases :
    {c h k : ℕ}
    → h < c
    → k ≤ c
    → (h + k < c) × ((h + k) % c ≡ h + k) ⊎ (c ≤ h + k) × ((h + k) % c + c ≡ h + k)
wrap_cases {c} {h} {k} p q = elim (dec_lt (h + k) c) [
  | yes l ↦ inl (l, mod-eq_of_lt l)
  | no l ↦ inr (
    omega arith,
    omega (
      arith,
      mod-eq-sub-mod {n = h + k} {m = c} (omega arith),
      mod-eq_of_lt {n = h + k - c} {m = c} (omega arith),
    ),
  )
]

pub wrap-lt : {c h k : ℕ} → h < c → k ≤ c → (h + k) % c < c
wrap-lt p q = omega (arith, wrap_cases p q)

-- Two steps of less than a round from one index never meet.
pub wrap-ne : {c h i j : ℕ} → h < c → i < j → j < c → (h + j) % c ≢ (h + i) % c
wrap-ne {c} {h} {i} {j} p q r e = omega (
  arith,
  wrap_cases {c = c} {h = h} {k = j} p (omega arith),
  wrap_cases {c = c} {h = h} {k = i} p (omega arith),
)

-- One step, then `i` more.
pub wrap-suc : (c h i : ℕ) → ((h + 1) % c + i) % c ≡ (h + suc i) % c
wrap-suc c h i = mod-add-mod (h + 1) c i ∙ ap (λ (k : ℕ). k % c) (omega arith)

module _ {ℓ} {A : Type ℓ} where
  -- f 0, …, f (n - 1)
  abbrev pub tabulate : (ℕ → A) → ℕ → List A
  tabulate f zero = []
  tabulate f (suc n) = f 0 ∷ tabulate (λ i. f (suc i)) n

  pub length-tabulate : (f : ℕ → A) (n : ℕ) → length (tabulate f n) ≡ n
  length-tabulate f zero = refl
  length-tabulate f (suc n) = ap suc (length-tabulate (λ i. f (suc i)) n)

  pub tabulate-last : (f : ℕ → A) (n : ℕ) → tabulate f (suc n) ≡ tabulate f n ++ (f n ∷ [])
  tabulate-last f zero = refl
  tabulate-last f (suc n) = ap (λ t. f 0 ∷ t) (tabulate-last (λ i. f (suc i)) n)

  pub tabulate_congr :
      (f g : ℕ → A) (n : ℕ) → ((i : ℕ) → i < n → f i ≡ g i) → tabulate f n ≡ tabulate g n
  tabulate_congr f g zero h = refl
  tabulate_congr f g (suc n) h =
      ap₂ ◌∷◌ (h 0 (omega arith))
        (tabulate_congr (λ i. f (suc i)) (λ i. g (suc i)) n (λ i p. h (suc i) (omega arith)))

module _ {T : Type 0} (blank : T) (capacity : ℕ) where
  -- The element `i` places behind `head`.
  abbrev pub slot : List T → ℕ → ℕ → T
  slot items head i = get_or items ((head + i) % capacity) blank

  slot-suc :
      (items : List T) (head i : ℕ) → slot items ((head + 1) % capacity) i ≡ slot items head (suc i)
  slot-suc items head i = ap (λ (k : ℕ). get_or items k blank) (wrap-suc capacity head i)

  -- A write at `tail` leaves the elements in front of it alone.
  slot-set :
      (items : List T) (head n i : ℕ) (v : T)
      → head < capacity
      → n < capacity
      → i < n
      → slot (set items ((head + n) % capacity) v) head i ≡ slot items head i
  slot-set items head n i v h hn hi = get_or-set_ne items _ _ v blank (wrap-ne h hi hn)

  slot-set_self :
      (items : List T) (head n : ℕ) (v : T)
      → length items ≡ capacity
      → head < capacity
      → n < capacity
      → slot (set items ((head + n) % capacity) v) head n ≡ v
  slot-set_self items head n v len h hn =
      get_or-set_self items _ v blank
        (omega (arith, wrap-lt {c = capacity} {h = head} {k = n} h (omega arith)))

  -- Writing behind `n` elements appends to them.
  pub contents-store :
      (items : List T) (head n : ℕ) (v : T)
      → length items ≡ capacity
      → head < capacity
      → n < capacity
      → tabulate (slot (set items ((head + n) % capacity) v) head) (suc n)
        ≡ tabulate (slot items head) n ++ (v ∷ [])
  contents-store items head n v len h hn =
      tabulate-last (slot (set items ((head + n) % capacity) v) head) n
      ∙ ap₂ (λ (xs : List T) x. xs ++ (x ∷ []))
          (tabulate_congr _ _ n (λ i hi. slot-set items head n i v h hn hi))
          (slot-set_self items head n v len h hn)

  pub contents-next :
      (items : List T) (head n : ℕ)
      → head < capacity
      → n ≢ 0
      → tabulate (slot items head) n
        ≡ get_or items head blank ∷ tabulate (slot items ((head + 1) % capacity)) (n - 1)
  contents-next items head zero h ne = absurd (ne refl)
  contents-next items head (suc n) h ne = ap₂ ◌∷◌ (ap (λ (k : ℕ). get_or items k blank) at_head) (
      tabulate_congr _ _ n (λ i _. sym (slot-suc items head i))
      ∙ ap (λ (k : ℕ). tabulate (slot items ((head + 1) % capacity)) k) {x = n} (omega arith))
    where
      at_head : (head + 0) % capacity ≡ head
      at_head = omega (arith, wrap_cases {c = capacity} {h = head} {k = 0} h (omega arith))
