-- ===== src/SpscQueue/Tests.antt =====
-- Runs of the queue of frameset_server/include/spsc_queue.h, and the theorems about it at them.
use hand_motion_capture.Prelude.{ℕ, ◌+◌, ◌<◌, ◌≡◌, refl, arith, List, ◌++◌, length}
use hand_motion_capture.SpscQueue.{
  SpscQueue, spsc_queue_init, begin_enqueue, producer_turn, begin_dequeue, consumer_turn, next_slot,
  enqueue, produce, dequeue, Reach, here, next,
}
use hand_motion_capture.SpscQueue.Fifo.{got_in_order, refuses_only_full, null_only_empty}

-- A queue of two slots, which holds one value at most.
abbrev empty : SpscQueue
empty = spsc_queue_init (λ i. 0) 2

abbrev turns : SpscQueue → SpscQueue
turns q = producer_turn (producer_turn q.producer q).producer (producer_turn q.producer q)

-- After a whole `spsc_enqueue` of 5.
abbrev filled : SpscQueue
filled = turns (begin_enqueue 5 empty)

filled_path : Reach empty filled
unfolding spsc_queue_init begin_enqueue producer_turn
filled_path = next (next (next here (enqueue 5 refl)) produce) produce

got_in_order_example : (left : List ℕ) × (filled.put ≡ filled.got ++ left) × (length left < 2)
got_in_order_example = got_in_order (λ i. 0) 2 (omega arith) filled filled_path

refused_path : Reach empty (begin_enqueue 6 filled)
unfolding spsc_queue_init begin_enqueue producer_turn next_slot
refused_path = next filled_path (enqueue 6 refl)

refuses_only_full_example :
    length (begin_enqueue 6 filled).put + 1 ≡ length (begin_enqueue 6 filled).got + 2
unfolding spsc_queue_init begin_enqueue producer_turn next_slot
refuses_only_full_example =
    refuses_only_full (λ i. 0) 2 (omega arith) (begin_enqueue 6 filled) refused_path 6 refl refl

null_path : Reach empty (begin_dequeue empty)
unfolding spsc_queue_init
null_path = next here (dequeue refl)

null_only_empty_example : (begin_dequeue empty).put ≡ (begin_dequeue empty).got
unfolding spsc_queue_init begin_dequeue consumer_turn
null_only_empty_example =
    null_only_empty (λ i. 0) 2 (omega arith) (begin_dequeue empty) null_path refl refl
