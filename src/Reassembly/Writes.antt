-- ===== src/Reassembly/Writes.antt =====
-- `memcpy` into the image buffer, element by element, and lists that agree everywhere.
use relink_com.Base.{
  ℕ, zero, suc, ◌+◌, ◌-◌, ◌<◌, ◌≤◌, ◌≡◌, refl, ap, ap₂, ◌∙◌, sym, none, some, List, [], ◌∷◌, ◌++◌,
  arith, length, get_or, take, drop, length-append, length-take, length-drop, get_or-append_left,
  get_or-append_right, get_or-drop,
}
use relink_com.Reassembly.{write_at}

pub get_or-take : (n : ℕ) (xs : List ℕ) (i : ℕ) → i < n → get_or (take n xs) i 0 ≡ get_or xs i 0
get_or-take zero xs i h = absurd (omega arith)
get_or-take (suc n) [] i h = refl
get_or-take (suc n) (x ∷ xs) zero h = refl
get_or-take (suc n) (x ∷ xs) (suc i) h = get_or-take n xs i (omega arith)

-- Lists of one length that agree at every index are equal.
pub list_ext :
    (xs ys : List ℕ)
    → length xs ≡ length ys
    → ((i : ℕ) → i < length xs → get_or xs i 0 ≡ get_or ys i 0)
    → xs ≡ ys
list_ext [] [] e h = refl
list_ext [] (y ∷ ys) e h = absurd (omega arith)
list_ext (x ∷ xs) [] e h = absurd (omega arith)
list_ext (x ∷ xs) (y ∷ ys) e h =
    ap₂ ◌∷◌ (h 0 (omega arith)) (list_ext xs ys (omega arith) (λ i p. h (suc i) (omega arith)))

-- What a write that fits does: inside it the new bytes stand, and outside the old ones.
pub record Wrote (buf : List ℕ) (off : ℕ) (bytes buf' : List ℕ) : Type 0 where
  pub size : length buf' ≡ length buf
  pub inside : (i : ℕ) → i < length bytes → get_or buf' (off + i) 0 ≡ get_or bytes i 0
  pub below : (p : ℕ) → p < off → get_or buf' p 0 ≡ get_or buf p 0
  pub above : (p : ℕ) → off + length bytes ≤ p → get_or buf' p 0 ≡ get_or buf p 0

pub write_at-Wrote :
    (buf : List ℕ) (off : ℕ) (bytes : List ℕ)
    → off + length bytes ≤ length buf
    → (buf' : List ℕ) × (write_at buf off bytes ≡ some buf') × Wrote buf off bytes buf'
unfolding write_at
write_at-Wrote buf off bytes h = (
  take off buf ++ (bytes ++ drop (off + length bytes) buf),
  ground arith,
  record {
    size = omega (
      arith,
      length-append (take off buf) (bytes ++ drop (off + length bytes) buf),
      length-append bytes (drop (off + length bytes) buf),
      front,
      length-drop (off + length bytes) buf,
    );
    inside = λ i p.
        ap (λ (k : ℕ). get_or (take off buf ++ (bytes ++ drop (off + length bytes) buf)) (k + i) 0)
          (sym front)
        ∙ get_or-append_right (take off buf) (bytes ++ drop (off + length bytes) buf) i 0
        ∙ get_or-append_left bytes (drop (off + length bytes) buf) i 0 p;
    below = λ p q.
        get_or-append_left (take off buf) (bytes ++ drop (off + length bytes) buf) p 0
          (omega (arith, front))
        ∙ get_or-take off buf p q;
    above = λ p q.
        ap (λ (k : ℕ). get_or (take off buf ++ (bytes ++ drop (off + length bytes) buf)) k 0)
          {y = length (take off buf) + (length bytes + (p - off - length bytes))}
          (omega (arith, front))
        ∙ get_or-append_right (take off buf) (bytes ++ drop (off + length bytes) buf)
            (length bytes + (p - off - length bytes)) 0
        ∙ get_or-append_right bytes (drop (off + length bytes) buf) (p - off - length bytes) 0
        ∙ get_or-drop (off + length bytes) (p - off - length bytes) buf 0
        ∙ ap (λ (k : ℕ). get_or buf k 0) (omega arith);
  },
)
  where
    front : length (take off buf) ≡ off
    front = omega (arith, length-take off buf)

pub write_at-fault :
    (buf : List ℕ) (off : ℕ) (bytes : List ℕ)
    → length buf < off + length bytes
    → write_at buf off bytes ≡ none
unfolding write_at
write_at-fault buf off bytes h = ground arith
