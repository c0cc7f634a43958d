-- ===== src/Shm/Spec.antt =====
-- What the shared ring promises: a bounded queue that refuses what it has no room for.
use relink_com.Base.{
  ℕ, ◌+◌, Bool, true, false, Option, none, some, List, [], ◌∷◌, ◌++◌, length, ltb, ◌==◌,
  if◌then◌else◌,
}
use relink_com.Shm.{ShmRing, Message, try_push, try_pop}

-- The calls of the two processes, in the order in which they take effect.
pub data Call : Type 0 where
  push : List ℕ → ℕ → Call
  pop : Call

pub data Answer : Type 0 where
  pushed : Bool → Answer
  popped : Option Message → Answer

module _ (capacity max_payload : ℕ) where
  unfoldable pub call : ShmRing → Call → ShmRing × Answer
  call r (push payload seq) =
      let (r', ok) = try_push capacity max_payload r payload seq in (r', pushed ok)
  call r pop = let (r', m) = try_pop capacity max_payload r in (r', popped m)

  unfoldable pub calls : ShmRing → List Call → List Answer
  calls r [] = []
  calls r (c ∷ cs) = let (r', a) = call r c in a ∷ calls r' cs

  -- The queue: at most `capacity - 1` messages, of at most `max_payload` bytes.
  unfoldable pub spec_call : List Message → Call → List Message × Answer
  spec_call q (push payload seq) =
      if ltb max_payload (length payload)
      then (q, pushed false)
      else if length q + 1 == capacity
      then (q, pushed false)
      else (q ++ (record { seq_num = seq; payload = payload } ∷ []), pushed true)
  spec_call [] pop = ([], popped none)
  spec_call (m ∷ q) pop = (q, popped (some m))

  unfoldable pub spec_calls : List Message → List Call → List Answer
  spec_calls q [] = []
  spec_calls q (c ∷ cs) = let (q', a) = spec_call q c in a ∷ spec_calls q' cs
