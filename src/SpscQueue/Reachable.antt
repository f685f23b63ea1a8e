-- ===== src/SpscQueue/Reachable.antt =====
-- The invariant of frameset_server/include/spsc_queue.h along the interleavings of its two
-- threads.
use hand_motion_capture.Prelude.{◌≡◌, refl, ◌∙◌, arith}
use hand_motion_capture.SpscQueue.{
  ProducerPoint, writing, publishing, ConsumerPoint, reading, leaving, SpscQueue, begin_enqueue,
  producer_turn, begin_dequeue, consumer_turn, Step, enqueue, produce, dequeue, consume, Reach,
  here, next,
}
use hand_motion_capture.SpscQueue.Invariant.{IsFifo, begin_enqueue-IsFifo, begin_dequeue-IsFifo}
use hand_motion_capture.SpscQueue.ProducerTurn.{producer_turn-IsFifo}
use hand_motion_capture.SpscQueue.ConsumerTurn.{consumer_turn-IsFifo}

Step-IsFifo : (q r : SpscQueue) → Step q r → IsFifo q → IsFifo r
Step-IsFifo q _ (enqueue value e) f = begin_enqueue-IsFifo value q f
Step-IsFifo q _ produce f = producer_turn-IsFifo q.producer q refl f
Step-IsFifo q _ (dequeue e) f = begin_dequeue-IsFifo q f
Step-IsFifo q _ consume f = consumer_turn-IsFifo q.consumer q refl f

pub Reach-IsFifo : {q r : SpscQueue} → Reach q r → IsFifo q → IsFifo r
Reach-IsFifo here f = f
Reach-IsFifo (next {s} {t} path step) f = Step-IsFifo s t step (Reach-IsFifo path f)

-- No interleaving changes the capacity.
Step-cap : (q r : SpscQueue) → Step q r → r.cap ≡ q.cap
unfolding begin_enqueue begin_dequeue producer_turn consumer_turn
Step-cap q _ (enqueue value e) = ground arith
Step-cap q _ produce = producer_turn-cap q.producer
  where
    producer_turn-cap : (p : ProducerPoint) → (producer_turn p q).cap ≡ q.cap
    producer_turn-cap ProducerPoint.ready = refl
    producer_turn-cap (ProducerPoint.checking value) = ground arith
    producer_turn-cap (writing value) = refl
    producer_turn-cap (publishing value) = refl
Step-cap q _ (dequeue e) = ground arith
Step-cap q _ consume = consumer_turn-cap q.consumer
  where
    consumer_turn-cap : (c : ConsumerPoint) → (consumer_turn c q).cap ≡ q.cap
    consumer_turn-cap ConsumerPoint.ready = refl
    consumer_turn-cap ConsumerPoint.checking = ground arith
    consumer_turn-cap reading = refl
    consumer_turn-cap (leaving value) = refl

pub Reach-cap : {q r : SpscQueue} → Reach q r → r.cap ≡ q.cap
Reach-cap here = refl
Reach-cap (next {s} {t} path step) = Step-cap s t step ∙ Reach-cap path
