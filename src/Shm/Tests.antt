-- ===== src/Shm/Tests.antt =====
-- A ring for two messages.
use relink_com.Base.{◌≡◌, arith, List, [], ◌∷◌}
use relink_com.Shm.{init_as_creator}
use relink_com.Shm.Spec.{Call, push, pop, calls, spec_calls}
use relink_com.Shm.Fifo.{calls-init_as_creator}

abbrev traffic : List Call
traffic = push (1 ∷ []) 0 ∷ push (2 ∷ []) 1 ∷ push (3 ∷ []) 2 ∷ pop ∷ pop ∷ pop ∷ []

calls-init_as_creator_example : calls 3 4 (init_as_creator 3 4) traffic ≡ spec_calls 3 4 [] traffic
calls-init_as_creator_example = calls-init_as_creator 3 4 traffic (omega arith)
