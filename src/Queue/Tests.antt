-- ===== src/Queue/Tests.antt =====
-- Runs of frameset_server/src/queue.c, and the theorems about it at a queue of one slot.
use hand_motion_capture.Queue.Memory.{
  Heap, Owner, Call, put, take, init_owner, make_calls, cleanup_queue,
}
use hand_motion_capture.Queue.Freed.{make_calls-cleanup_queue}
use hand_motion_capture.Prelude.{List, ◌≡◌, refl, arith, none, some, [], ◌∷◌, ◌++◌, inr}
use hand_motion_capture.SpscQueue.Window.{window}
use hand_motion_capture.Queue.{Queue, returns, enqueue, dequeue}
use hand_motion_capture.Queue.Refinement.{Holds, enqueue-Holds, dequeue-Holds}

abbrev full : Queue
full = record {
  slots = λ i. 7;
  allocated = 8;
  type_size = 8;
  capacity = 1;
  size = 1;
  head = 0;
  tail = 0;
}

full-Holds : Holds full (7 ∷ [])
unfolding window
full-Holds = record {
  some_room = omega arith;
  head_in = omega arith;
  tail_in = omega arith;
  size_in = omega arith;
  ring = inr refl;
  holds = refl;
  no_wrap = omega arith;
  capacity_in = omega arith;
  buffer = refl;
}

enqueue-Holds_example :
    (r : Queue) × (enqueue (some (λ i. 0)) 5 full ≡ returns r) × Holds r ((7 ∷ []) ++ 5 ∷ [])
enqueue-Holds_example =
    enqueue-Holds (λ i. 0) 5 full (7 ∷ []) full-Holds (omega arith) (omega arith)

dequeue-Holds_example : (r : Queue) × (dequeue full ≡ returns (7, r)) × Holds r []
dequeue-Holds_example = dequeue-Holds full (7 ∷ []) full-Holds

-- Another one's block is there, and the queue of one slot grows once, fails to grow, and gives a value.
abbrev before : Heap
before = record { next = 4; live = 3 ∷ [] }

abbrev growing : List Call
growing = put none 5 ∷ put (some (λ i. 0)) 6 ∷ put none 7 ∷ take ∷ []

make_calls-cleanup_queue_example :
    (o p : Owner) × (h : Heap) × (init_owner (some (λ i. 0)) 8 1 before ≡ returns o)
    × (make_calls growing o ≡ returns p)
    × (cleanup_queue p ≡ returns h)
    × (h.live ≡ 3 ∷ [])
make_calls-cleanup_queue_example =
    make_calls-cleanup_queue before (λ i. 0) 8 1 growing (omega arith) (omega arith) (omega arith)
