-- ===== src/Node/Groups.antt =====
-- The groups of topics that a RelinkNode starts with (ensure_started of relink.hpp): which topics are in them.
use relink_com.Base.{
  ℕ, ◌≡◌, refl, arith, Bool, true, false, ◌||◌, List, [], ◌∷◌, ◌++◌, ◌==◌, find, put, nat_key,
  is_in, Bool-cases, inl, inr,
}
use relink_com.Node.Start.{Groups, topics_at}

-- Is a topic in one of the groups?
unfoldable pub any_in : ℕ → Groups → Bool
any_in t [] = false
any_in t ((key, ts) ∷ gs) = is_in t ts || any_in t gs

pub is_in-append : (t : ℕ) (xs ys : List ℕ) → is_in t (xs ++ ys) ≡ (is_in t xs || is_in t ys)
unfolding is_in
is_in-append t [] ys = refl
is_in-append t (x ∷ xs) ys = ground (arith, is_in-append t xs ys)

pub topics_at_here :
    (key j : ℕ) (us : List ℕ) (gs : Groups) → (j == key) ≡ true → topics_at key ((j, us) ∷ gs) ≡ us
unfolding topics_at find
topics_at_here key j us gs same = rw (topics_at, find, same) refl

pub topics_at_there :
    (key j : ℕ) (us : List ℕ) (gs : Groups)
    → (j == key) ≡ false
    → topics_at key ((j, us) ∷ gs) ≡ topics_at key gs
unfolding topics_at find
topics_at_there key j us gs other = rw (topics_at, find, other) refl

-- A group that takes the place of one keeps its topics.
pub any_in-put :
    (t key : ℕ) (ts : List ℕ) (gs : Groups)
    → (is_in t (topics_at key gs) ≡ true → is_in t ts ≡ true)
    → any_in t (put key ts gs) ≡ (is_in t ts || any_in t gs)
unfolding any_in put topics_at find
any_in-put t key ts [] more = refl
any_in-put t key ts ((j, us) ∷ gs) more = elim (Bool-cases (j == key)) [
  | inl same ↦ let grows = rw (topics_at_here key j us gs same) at more in rw same (ground arith)
  | inr other ↦
      let ih = any_in-put t key ts gs (rw (topics_at_there key j us gs other) at more) in
      rw other (ground (arith, ih))
]

pub topics_at-any_in :
    (t key : ℕ) (gs : Groups) → is_in t (topics_at key gs) ≡ true → any_in t gs ≡ true
unfolding any_in topics_at find is_in
topics_at-any_in t key [] h = h
topics_at-any_in t key ((j, us) ∷ gs) h = elim (Bool-cases (j == key)) [
  | inl same ↦ let here = rw (topics_at_here key j us gs same) at h in ground arith
  | inr other ↦
      let ih = topics_at-any_in t key gs (rw (topics_at_there key j us gs other) at h) in
      ground arith
]
