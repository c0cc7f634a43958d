-- ===== src/Discovery/Domains.antt =====
-- derive_multicast_group and derive_multicast_port of multicast_discovery.hpp: networks with different ids are apart.
use relink_com.Base.{
  ℕ, ◌+◌, ◌-◌, ◌*◌, ◌%◌, ◌≤◌, ◌<◌, ◌≡◌, ◌≢◌, refl, sym, ap, ap₂, ◌∙◌, inl, inr, Bool, true, false,
  Bool-cases, List, [], ◌∷◌, ◌++◌, arith, ◌==◌, if◌then◌else◌, u16_mod, not, ◌&&◌, ◌↔◌, ==_iff,
  passes, passes_sound, drop,
}
use relink_com.Discovery.{decimal, multicast_group, derive_multicast_group, derive_multicast_port}

-- The port of a network, without the wrap-around of the cast, which never happens.
port_lem : (n : ℕ) → derive_multicast_port n ≡ (if n == 0 then 7400 else 7400 + (n % 58135 + 1))
unfolding derive_multicast_port
port_lem n = ground arith

-- Digits read as a number, behind those that have been read.
value : ℕ → List ℕ → ℕ
value n [] = n
value n (c ∷ cs) = value (n * 10 + (c - 48)) cs

no_dot : List ℕ → Bool
no_dot [] = true
no_dot (c ∷ cs) = not (c == 46) && no_dot cs

-- Reading text back: the number in front of a dot, and what is behind it.
scan : ℕ → List ℕ → ℕ × List ℕ
scan n [] = (n, [])
scan n (c ∷ cs) = let rest = scan (n * 10 + (c - 48)) cs in if c == 46 then (n, cs) else rest

scan-value :
    (ds xs : List ℕ) (n : ℕ) → no_dot ds ≡ true → scan n (ds ++ (46 ∷ xs)) ≡ (value n ds, xs)
unfolding scan value no_dot
scan-value [] xs n h = refl
scan-value (c ∷ ds) xs n h =
    rw (other (c == 46) (no_dot ds) h)
      (scan-value ds xs (n * 10 + (c - 48)) (rest (c == 46) (no_dot ds) h))
  where
    other : (b r : Bool) → not b && r ≡ true → b ≡ false
    other b r h = ground arith

    rest : (b r : Bool) → not b && r ≡ true → r ≡ true
    rest b r h = ground arith

decimal_table : passes (λ b. no_dot (decimal b) && (value 0 (decimal b) == b)) 256 ≡ true
unfolding passes no_dot value decimal
decimal_table = refl

scan-decimal : (b : ℕ) (xs : List ℕ) → b < 256 → scan 0 (decimal b ++ (46 ∷ xs)) ≡ (b, xs)
scan-decimal b xs h =
    let t = both _ _ (passes_sound _ 256 decimal_table b h) in
    scan-value (decimal b) xs 0 t.0 ∙ ap (λ (n : ℕ). (n, xs)) ((==_iff _ b).0 t.1)
  where
    both : (s t : Bool) → s && t ≡ true → (s ≡ true) × (t ≡ true)
    both s t e = ground arith

decimal_injective :
    (a b : ℕ) (xs ys : List ℕ)
    → a < 256
    → b < 256
    → decimal a ++ (46 ∷ xs) ≡ decimal b ++ (46 ∷ ys)
    → (a ≡ b) × (xs ≡ ys)
decimal_injective a b xs ys p q e =
    let same = sym (scan-decimal a xs p) ∙ ap (scan 0) e ∙ scan-decimal b ys q in
    (ap (λ (r : ℕ × List ℕ). r.0) same, ap (λ (r : ℕ × List ℕ). r.1) same)

group_bytes : (n : ℕ) → ((multicast_group n).0 < 256) × ((multicast_group n).1 < 256)
unfolding multicast_group
group_bytes n = elim (Bool-cases (n == 0)) [
  | inl e ↦ rw e (omega arith)
  | inr e ↦ rw e (omega arith)
]

-- The id of a group's network.
group_back :
    (n : ℕ)
    → n < u16_mod
    → ((multicast_group n).0 * 256 + (multicast_group n).1 + 65535) % 65536 ≡ n
unfolding multicast_group
group_back n h = elim (Bool-cases (n == 0)) [
  | inl e ↦ rw e (zero_id n e)
  | inr e ↦ rw e (omega arith)
]
  where
    zero_id : (n : ℕ) → (n == 0) ≡ true → 0 ≡ n
    zero_id n h = ground arith

group_injective :
    (m n : ℕ)
    → m < u16_mod
    → n < u16_mod
    → derive_multicast_group m ≡ derive_multicast_group n
    → m ≡ n
unfolding derive_multicast_group
group_injective m n p q e =
    let (hm, lm) = group_bytes m in
    let (hn, ln) = group_bytes n in
    let (his, rest) =
      decimal_injective (multicast_group m).0 (multicast_group n).0 (decimal (multicast_group m).1)
        (decimal (multicast_group n).1) hm hn (ap (drop 8) e) in
    let (los, _) =
      decimal_injective (multicast_group m).1 (multicast_group n).1 [] [] lm ln
        (ap (λ (t : List ℕ). t ++ (46 ∷ [])) rest) in
    sym (group_back m p) ∙ ap₂ (λ (x y : ℕ). (x * 256 + y + 65535) % 65536) his los ∙ group_back n q

-- Two nodes with different network ids listen at different multicast group addresses. Their ports differ too where
-- both ids are at most 58135. Every port lies between 7400 and 65535, and only the id 0 has the port 7400.
pub network_ids_apart :
    (m n : ℕ)
    → m < u16_mod
    → n < u16_mod
    → m ≢ n
    → (derive_multicast_group m ≢ derive_multicast_group n)
      × (m ≤ 58135 → n ≤ 58135 → derive_multicast_port m ≢ derive_multicast_port n)
      × (7400 ≤ derive_multicast_port m)
      × (derive_multicast_port m ≤ 65535)
      × ((derive_multicast_port m ≡ 7400) ↔ (m ≡ 0))
network_ids_apart m n p q ne = (
  λ e. ne (group_injective m n p q e),
  λ hm hn e. ne (ground (arith, port_lem m, port_lem n)),
  ground (arith, port_lem m),
  ground (arith, port_lem m),
  ground (arith, port_lem m),
)
