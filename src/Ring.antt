-- ===== src/Ring.antt =====
-- cpp/include/relink/ring_buffer.hpp: `RingBuffer<T, Capacity>`, which drops the oldest on overflow.
pub mod Spec
pub mod Refine
mod Tests
use relink_com.Base.{
  ℕ, ◌+◌, ◌-◌, ◌%◌, Bool, true, false, Option, none, some, List, ◌==◌, if◌then◌else◌, get_or, set,
  replicate,
}

-- The members of a `RingBuffer<T, Capacity>`.
pub record RingBuffer {ℓ} (T : Type ℓ) : Type ℓ where
  pub items : List T
  pub head : ℕ
  pub tail : ℕ
  pub count : ℕ

-- `blank` is the `T{}` that fills the fresh array.
module _ {ℓ} {T : Type ℓ} where
  unfoldable pub size : RingBuffer T → ℕ
  size r = r.count

  unfoldable pub is_empty : RingBuffer T → Bool
  is_empty r = r.count == 0

  unfoldable pub clear : RingBuffer T → RingBuffer T
  clear r = record r { head = 0; tail = 0; count = 0 }

  unfoldable pub is_full : ℕ → RingBuffer T → Bool
  is_full capacity r = r.count == capacity

  -- Returns whether an element was dropped.
  unfoldable pub push : ℕ → RingBuffer T → T → RingBuffer T × Bool
  push capacity r value =
      let store = λ (s : RingBuffer T). record s {
        items = set s.items s.tail value;
        tail = (s.tail + 1) % capacity;
      } in
      if r.count == capacity
      then (store (record r { head = (r.head + 1) % capacity }), true)
      else (store (record r { count = r.count + 1 }), false)

  unfoldable pub pop : T → ℕ → RingBuffer T → RingBuffer T × Option T
  pop blank capacity r = if r.count == 0 then (r, none) else (
    record r { head = (r.head + 1) % capacity; count = r.count - 1 },
    some (get_or r.items r.head blank),
  )

  unfoldable pub init : T → ℕ → RingBuffer T
  init blank capacity = record { items = replicate capacity blank; head = 0; tail = 0; count = 0 }
