-- ===== src/Ring/Tests.antt =====
-- Runs of the ring buffer, and its theorems at concrete inputs.
use relink_com.Base.{ℕ, ◌≡◌, refl, arith, List, [], ◌∷◌, true, false, none, some}
use relink_com.Ring.{RingBuffer, init}
use relink_com.Ring
use relink_com.Ring.Spec.{Op, flag, item, number, push, pop, size, run, spec_run, step}
use relink_com.Ring.Refine.{run-init_refines}

abbrev calls : List (Op ℕ)
calls = push 1 ∷ push 2 ∷ push 3 ∷ size ∷ pop ∷ pop ∷ pop ∷ []

overflow_run :
    run 0 2 (init 0 2) calls
    ≡ flag false
      ∷ flag false
      ∷ flag true
      ∷ number 2
      ∷ item (some 2)
      ∷ item (some 3)
      ∷ item none
      ∷ []
unfolding run step init Ring.push Ring.pop Ring.size
overflow_run = refl

run-init_refines_example : run 0 2 (init 0 2) calls ≡ spec_run 2 [] calls
run-init_refines_example = run-init_refines 0 2 calls (omega arith)

-- A full buffer of two, whose oldest element stands at index 1.
abbrev full : RingBuffer ℕ
full = record { items = 3 ∷ 2 ∷ []; head = 1; tail = 1; count = 2 }
