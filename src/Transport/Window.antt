-- ===== src/Transport/Window.antt =====
-- The window of recent sequence numbers of a topic.
use relink_com.Base.{
  ℕ, zero, suc, ◌+◌, ◌%◌, ◌<◌, ◌≤◌, ◌≡◌, ◌≢◌, refl, sym, ◌∙◌, inl, inr, Bool, true, false, ◌||◌,
  List, [], ◌∷◌, arith, ◌==◌, length, get_or, set, length-set, get_or-set_self, get_or-set_ne,
  Bool-cases,
}
use relink_com.Transport.{SeqWindow, window_size, new_window, scan, remember, check_window}

pub record IsWindow (w : SeqWindow) : Type 0 where
  pub slots : length w.seen ≡ window_size
  pub flags : length w.valid ≡ window_size
  pub inside : w.next < window_size

pub new_window-IsWindow : IsWindow new_window
new_window-IsWindow = record { slots = refl; flags = refl; inside = omega arith }

pub remember-IsWindow : (seq : ℕ) (w : SeqWindow) → IsWindow w → IsWindow (remember seq w)
unfolding remember
remember-IsWindow seq w h = record {
  slots = length-set w.seen w.next seq ∙ h.slots;
  flags = length-set w.valid w.next true ∙ h.flags;
  inside = omega arith;
}

-- Number `seq` stands in slot `p`.
pub record Holds (seq p : ℕ) (w : SeqWindow) : Type 0 where
  pub number : get_or w.seen p 0 ≡ seq
  pub flag : get_or w.valid p false ≡ true

scan_hit :
    (seq p : ℕ) (seen : List ℕ) (valid : List Bool)
    → p < length seen
    → get_or seen p 0 ≡ seq
    → get_or valid p false ≡ true
    → scan seq seen valid ≡ true
unfolding scan
scan_hit seq p [] valid h e f = absurd (omega arith)
scan_hit seq p (s ∷ seen) [] h e f = cc
scan_hit seq zero (s ∷ seen) (v ∷ valid) h e f = ground (arith, e, f)
scan_hit seq (suc p) (s ∷ seen) (v ∷ valid) h e f =
    rw (scan_hit seq p seen valid (omega arith) e f) (ground arith)

-- The numbers of a topic's frames, in the order in which they come.
unfoldable pub arrive : List ℕ → SeqWindow → SeqWindow
arrive [] w = w
arrive (s ∷ ss) w = arrive ss (check_window s w).0

remember-Holds :
    (seq p x : ℕ) (w : SeqWindow) → Holds seq p w → w.next ≢ p → Holds seq p (remember x w)
unfolding remember
remember-Holds seq p x w s ne = record {
  number = get_or-set_ne w.seen w.next p x 0 ne ∙ s.number;
  flag = get_or-set_ne w.valid w.next p true false ne ∙ s.flag;
}

remember_here : (seq : ℕ) (w : SeqWindow) → IsWindow w → Holds seq w.next (remember seq w)
unfolding remember
remember_here seq w h = record {
  number = get_or-set_self w.seen w.next seq 0 (omega (arith, h.slots, h.inside));
  flag = get_or-set_self w.valid w.next true false (omega (arith, h.flags, h.inside));
}

remember_first : (seq : ℕ) (w : SeqWindow) → (remember seq w).next ≡ (w.next + 1) % window_size
unfolding remember
remember_first seq w = refl

remember-next :
    (p k x : ℕ) (w : SeqWindow)
    → w.next ≡ (p + k) % window_size
    → (remember x w).next ≡ (p + suc k) % window_size
unfolding remember
remember-next p k x w e = omega arith

-- `seq` was entered `k` steps ago: it is still there after fewer than `window_size` arrivals.
arrive-Holds :
    (seq p k : ℕ) (ss : List ℕ) (w : SeqWindow)
    → IsWindow w
    → Holds seq p w
    → p < window_size
    → w.next ≡ (p + k) % window_size
    → 0 < k
    → k + length ss ≤ window_size
    → IsWindow (arrive ss w) × Holds seq p (arrive ss w)
unfolding arrive check_window
arrive-Holds seq p k [] w h s hp e hk hl = (h, s)
arrive-Holds seq p k (x ∷ xs) w h s hp e hk hl = elim (Bool-cases (scan x w.seen w.valid)) [
  | inl dup ↦ rw dup (arrive-Holds seq p k xs w h s hp e hk (omega arith))
  | inr fresh ↦ rw fresh (
      arrive-Holds seq p (suc k) xs (remember x w) (remember-IsWindow x w h)
        (remember-Holds seq p x w s other) hp (remember-next p k x w e) (omega arith) (omega arith))
]
  where
    other : w.next ≢ p
    other q = omega arith

-- In a well-formed window, a sequence number that was taken for new is taken for a duplicate as long as no
-- more than seven further frames of the topic have come, whatever their numbers.
pub check_window_again :
    (seq : ℕ) (ss : List ℕ) (w : SeqWindow)
    → IsWindow w
    → (check_window seq w).1 ≡ false
    → length ss ≤ 7
    → (check_window seq (arrive ss (check_window seq w).0)).1 ≡ true
unfolding check_window
check_window_again seq ss w h new hl = elim (Bool-cases (scan seq w.seen w.valid)) [
  | inl dup ↦ absurd (differ (sym new ∙ rw dup))
  | inr fresh ↦ rw fresh (
      let (h', s) =
        arrive-Holds seq w.next 1 ss (remember seq w) (remember-IsWindow seq w h)
          (remember_here seq w h) h.inside (remember_first seq w) (omega arith) (omega arith) in
      rw (
        scan_hit seq w.next (arrive ss (remember seq w)).seen (arrive ss (remember seq w)).valid
          (omega (arith, h'.slots)) s.number s.flag))
]
  where
    differ : false ≡ true → ⊥
    differ e = cc

-- Numbers that never came are not found.
scan-set :
    (seq x p : ℕ) (seen : List ℕ) (valid : List Bool)
    → x ≢ seq
    → scan seq seen valid ≡ false
    → scan seq (set seen p x) (set valid p true) ≡ false
unfolding scan
scan-set seq x p [] valid ne e = refl
scan-set seq x zero (s ∷ seen) [] ne e = refl
scan-set seq x (suc p) (s ∷ seen) [] ne e = refl
scan-set seq x zero (s ∷ seen) (v ∷ valid) ne e = ground (arith, e)
scan-set seq x (suc p) (s ∷ seen) (v ∷ valid) ne e =
    ground (arith, e, scan-set seq x p seen valid ne)

unfoldable pub came : ℕ → List ℕ → Bool
came seq [] = false
came seq (s ∷ ss) = (s == seq) || came seq ss

scan-remember :
    (seq x : ℕ) (w : SeqWindow)
    → x ≢ seq
    → scan seq w.seen w.valid ≡ false
    → scan seq (remember x w).seen (remember x w).valid ≡ false
unfolding remember
scan-remember seq x w ne e = scan-set seq x w.next w.seen w.valid ne e

-- One arrival leaves the window alone or enters the number.
check_window_cases :
    (P : SeqWindow → Type 0) (x : ℕ) (w : SeqWindow)
    → P w
    → P (remember x w)
    → P (check_window x w).0
unfolding check_window
check_window_cases P x w h k = elim (Bool-cases (scan x w.seen w.valid)) [
  | inl e ↦ rw e h
  | inr e ↦ rw e k
]

arrive-scan :
    (seq : ℕ) (ss : List ℕ) (w : SeqWindow)
    → came seq ss ≡ false
    → scan seq w.seen w.valid ≡ false
    → scan seq (arrive ss w).seen (arrive ss w).valid ≡ false
unfolding arrive came
arrive-scan seq [] w n e = e
arrive-scan seq (x ∷ xs) w n e =
    arrive-scan seq xs (check_window x w).0 (or_right (x == seq) (came seq xs) n) (
      check_window_cases (λ (v : SeqWindow). scan seq v.seen v.valid ≡ false) x w e
        (scan-remember seq x w (or_ne x (came seq xs) n) e))
  where
    or_right : (a b : Bool) → (a || b) ≡ false → b ≡ false
    or_right a b h = ground arith

    or_ne : (y : ℕ) (b : Bool) → ((y == seq) || b) ≡ false → y ≢ seq
    or_ne y b h = ground arith

scan_new : (seq : ℕ) → scan seq new_window.seen new_window.valid ≡ false
unfolding scan
scan_new seq = refl

-- A sequence number that has not come since the topic's window was made is never taken for a duplicate.
pub check_window_first :
    (seq : ℕ) (ss : List ℕ)
    → came seq ss ≡ false
    → (check_window seq (arrive ss new_window)).1 ≡ false
unfolding check_window
check_window_first seq ss n = rw (arrive-scan seq ss new_window n (scan_new seq))
