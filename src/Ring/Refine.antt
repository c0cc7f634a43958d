-- ===== src/Ring/Refine.antt =====
-- `RingBuffer` is the queue of ring_buffer.hpp's contract, for every capacity above 0.
use relink_com.Base.{
  ℕ, ◌+◌, ◌-◌, ◌%◌, ◌<◌, ◌≤◌, ◌≡◌, refl, ap, ◌∙◌, List, [], ◌∷◌, arith, length, tabulate,
  length-tabulate, slot, contents-store, contents-next, wrap_cases, wrap-lt, wrap-suc, length-set,
  length-replicate,
}
use native.Mathlib.Decide.{ℕ_discrete}
use native.Mathlib.Nat.{mod-add-mod, add_assoc}
use relink_com.Ring.{RingBuffer, init}
use relink_com.Ring
use relink_com.Ring.Spec.{
  Op, item, push, pop, size, is_empty, is_full, clear, spec_push, spec_step, spec_run, step, run,
}

-- The indices are within the array, and `tail` is `count` places behind `head`.
pub record IsValid {ℓ} {T : Type ℓ} (capacity : ℕ) (r : RingBuffer T) : Type 0 where
  pub room : length r.items ≡ capacity
  pub head_in : r.head < capacity
  pub count_in : r.count ≤ capacity
  pub tail_at : r.tail ≡ (r.head + r.count) % capacity

module _ {T : Type 0} (blank : T) (capacity : ℕ) where
  -- The elements that the buffer holds, oldest first.
  abbrev pub contents : RingBuffer T → List T
  contents r = tabulate (slot blank capacity r.items r.head) r.count

  pub push-IsValid :
      (r : RingBuffer T) (v : T) → IsValid capacity r → IsValid capacity (Ring.push capacity r v).0
  unfolding Ring.push
  push-IsValid r v w = ground (
    arith,
    length-set r.items r.tail v,
    wrap_cases {c = capacity} {h = r.head} {k = r.count} w.head_in w.count_in,
    wrap_cases {c = capacity} {h = r.head} {k = 1} w.head_in (omega arith),
    wrap-suc capacity r.head r.count,
    mod-add-mod (r.head + r.count) capacity 1,
    add_assoc r.head r.count 1,
  )

  pub pop-IsValid :
      (r : RingBuffer T) → IsValid capacity r → IsValid capacity (Ring.pop blank capacity r).0
  unfolding Ring.pop
  pop-IsValid r w = ground (
    arith,
    wrap-suc capacity r.head (r.count - 1),
    wrap-lt {c = capacity} {h = r.head} {k = 1} w.head_in (omega arith),
  )

  pub init-IsValid :
      0 < capacity → IsValid capacity (init blank capacity) × (contents (init blank capacity) ≡ [])
  unfolding init
  init-IsValid h = (
    record {
      room = length-replicate capacity blank;
      head_in = h;
      count_in = omega arith;
      tail_at = ground (arith, wrap_cases {c = capacity} {h = 0} {k = 0} h (omega arith));
    },
    refl,
  )

  pub clear-IsValid : (r : RingBuffer T) → IsValid capacity r → IsValid capacity (Ring.clear r)
  unfolding Ring.clear
  clear-IsValid r w =
      ground (arith, wrap_cases {c = capacity} {h = 0} {k = 0} (omega arith) (omega arith))

  push_refines :
      (r : RingBuffer T) (v : T)
      → IsValid capacity r
      → let (r', dropped) = Ring.push capacity r v in
        (contents r', dropped) ≡ spec_push capacity (contents r) v
  unfolding Ring.push spec_push
  push_refines r v w = elim (ℕ_discrete r.count capacity) [
    | yes full ↦ ground (
      arith,
      length-tabulate (slot blank capacity r.items r.head) r.count,
      wrap-suc capacity r.head (capacity - 1),
      contents-store blank capacity r.items ((r.head + 1) % capacity) (capacity - 1) v w.room
          (wrap-lt {c = capacity} {h = r.head} {k = 1} w.head_in (omega arith)) (omega arith),
      contents-next blank capacity r.items r.head r.count w.head_in (omega arith),
    )
    | no ne ↦ ground (
      arith,
      length-tabulate (slot blank capacity r.items r.head) r.count,
      contents-store blank capacity r.items r.head r.count v w.room w.head_in (omega arith),
    )
  ]

  pop_refines :
      (r : RingBuffer T)
      → IsValid capacity r
      → let (r', out) = Ring.pop blank capacity r in
        (contents r', item out) ≡ spec_step capacity (contents r) pop
  unfolding Ring.pop spec_step
  pop_refines r w = elim (ℕ_discrete r.count 0) [
    | yes e ↦ ground arith
    | no ne ↦ ground (arith, contents-next blank capacity r.items r.head r.count w.head_in ne)
  ]

  -- Every operation keeps the array's length, and `head`, `tail` and `count` within it and consistent:
  -- `tail` stays `count` places behind `head`.
  pub step-IsValid :
      (r : RingBuffer T) (o : Op T)
      → IsValid capacity r
      → IsValid capacity (step blank capacity r o).0
  unfolding step
  step-IsValid r (push v) w = push-IsValid r v w
  step-IsValid r pop w = pop-IsValid r w
  step-IsValid r size w = w
  step-IsValid r is_empty w = w
  step-IsValid r is_full w = w
  step-IsValid r clear w = clear-IsValid r w

  step_refines :
      (r : RingBuffer T) (o : Op T)
      → IsValid capacity r
      → let (r', reply) = step blank capacity r o in
        (contents r', reply) ≡ spec_step capacity (contents r) o
  unfolding step spec_step Ring.size Ring.is_empty Ring.is_full Ring.clear
  step_refines r (push v) w = ground (arith, push_refines r v w)
  step_refines r pop w = pop_refines r w
  step_refines r size w =
      ground (arith, length-tabulate (slot blank capacity r.items r.head) r.count)
  step_refines r is_empty w =
      ground (arith, length-tabulate (slot blank capacity r.items r.head) r.count)
  step_refines r is_full w =
      ground (arith, length-tabulate (slot blank capacity r.items r.head) r.count)
  step_refines r clear w = refl

  run_refines :
      (os : List (Op T)) (r : RingBuffer T)
      → IsValid capacity r
      → run blank capacity r os ≡ spec_run capacity (contents r) os
  unfolding run spec_run
  run_refines [] r w = refl
  run_refines (o ∷ os) r w =
      rw (← step_refines r o w, run_refines os (step blank capacity r o).0 (step-IsValid r o w))

  -- From a fresh buffer of any capacity above 0, no sequence of pushes, pops, clears and size
  -- queries tells `RingBuffer` from a queue that holds the latest `capacity` elements: a push that
  -- finds the queue full forgets the oldest and answers true, any other push answers false, and a
  -- pop answers the oldest, or nothing at all.
  pub run-init_refines :
      (os : List (Op T))
      → 0 < capacity
      → run blank capacity (init blank capacity) os ≡ spec_run capacity [] os
  run-init_refines os h =
      let (w, e) = init-IsValid h in
      run_refines os (init blank capacity) w ∙ ap (λ (q : List T). spec_run capacity q os) e
