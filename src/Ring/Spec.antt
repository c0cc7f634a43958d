-- ===== src/Ring/Spec.antt =====
-- What ring_buffer.hpp promises: a queue of at most `capacity` elements that forgets the oldest.
use relink_com.Base.{
  ℕ, Bool, true, false, Option, none, some, List, [], ◌∷◌, ◌++◌, ◌==◌, if◌then◌else◌, length, drop,
}
use relink_com.Ring.{RingBuffer}
use relink_com.Ring

-- The calls of a client, and what it sees of each.
pub data Op {ℓ} (T : Type ℓ) : Type ℓ where
  push : T → Op T
  pop size is_empty is_full clear : Op T

pub data Reply {ℓ} (T : Type ℓ) : Type ℓ where
  flag : Bool → Reply T
  item : Option T → Reply T
  number : ℕ → Reply T
  done : Reply T

module _ {ℓ} {T : Type ℓ} (capacity : ℕ) where
  unfoldable pub spec_push : List T → T → List T × Bool
  spec_push q v =
      if length q == capacity then (drop 1 q ++ (v ∷ []), true) else (q ++ (v ∷ []), false)

  unfoldable pub spec_step : List T → Op T → List T × Reply T
  spec_step q (push v) = let (q', dropped) = spec_push q v in (q', flag dropped)
  spec_step [] pop = ([], item none)
  spec_step (x ∷ q) pop = (q, item (some x))
  spec_step q size = (q, number (length q))
  spec_step q is_empty = (q, flag (length q == 0))
  spec_step q is_full = (q, flag (length q == capacity))
  spec_step q clear = ([], done)

  unfoldable pub spec_run : List T → List (Op T) → List (Reply T)
  spec_run q [] = []
  spec_run q (o ∷ os) = let (q', r) = spec_step q o in r ∷ spec_run q' os

module _ {ℓ} {T : Type ℓ} (blank : T) (capacity : ℕ) where
  unfoldable pub step : RingBuffer T → Op T → RingBuffer T × Reply T
  step r (push v) = let (r', dropped) = Ring.push capacity r v in (r', flag dropped)
  step r pop = let (r', out) = Ring.pop blank capacity r in (r', item out)
  step r size = (r, number (Ring.size r))
  step r is_empty = (r, flag (Ring.is_empty r))
  step r is_full = (r, flag (Ring.is_full capacity r))
  step r clear = (Ring.clear r, done)

  unfoldable pub run : RingBuffer T → List (Op T) → List (Reply T)
  run r [] = []
  run r (o ∷ os) = let (r', x) = step r o in x ∷ run r' os
