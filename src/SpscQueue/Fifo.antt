-- ===== src/SpscQueue/Fifo.antt =====
-- The order of the values in the queue of frameset_server/include/spsc_queue.h, and its tests for
-- a full and an empty queue.
use hand_motion_capture.Prelude.{
  ℕ, ◌+◌, ◌≤◌, ◌<◌, ◌≡◌, refl, ◌∙◌, List, ◌++◌, arith, length, length-append, append-nil,
}
use hand_motion_capture.SpscQueue.{
  ProducerPoint, ConsumerPoint, SpscQueue, spsc_queue_init, next_slot, producer_turn, consumer_turn,
  Reach,
}
use hand_motion_capture.SpscQueue.Window.{window, length-window, next_slot-full, same_slot-empty}
use hand_motion_capture.SpscQueue.Invariant.{IsFifo, spsc_queue_init-IsFifo}
use hand_motion_capture.SpscQueue.Reachable.{Reach-IsFifo, Reach-cap}

module _ (buf : ℕ → ℕ) (size : ℕ) (positive : 1 ≤ size) (q : SpscQueue)
    (path : Reach (spsc_queue_init buf size) q) where
  size-cap : q.cap ≡ size
  unfolding spsc_queue_init
  size-cap = Reach-cap path

  fifo : IsFifo q
  fifo = Reach-IsFifo path (spsc_queue_init-IsFifo buf size positive)

  -- Whatever the interleaving of the two threads, the values that were got are the first ones of those
  -- that were put, in that order, and those in between are at most one fewer than the slots.
  pub got_in_order : (left : List ℕ) × (q.put ≡ q.got ++ left) × (length left < size)
  got_in_order =
      let a = fifo.agrees in
      (
        window q.cap q.buf q.tail fifo.used,
        a.in_order,
        omega (arith, length-window q.cap q.buf q.tail fifo.used, a.head_at.below, size-cap),
      )

  -- `spsc_enqueue` returns -EAGAIN only where, at its load of the tail, the queue holds as many values
  -- as there are slots but one.
  pub refuses_only_full :
      (value : ℕ)
      → q.producer ≡ ProducerPoint.checking value
      → (producer_turn q.producer q).producer ≡ ProducerPoint.ready
      → length q.put + 1 ≡ length q.got + size
  unfolding producer_turn
  refuses_only_full value e r =
      let a = fifo.agrees in
      let full : next_slot q.cap q.head ≡ q.tail = ground (arith, e, r) in
      let count : length q.put ≡ length q.got + fifo.used =
        rw (a.in_order, length-append q.got (window q.cap q.buf q.tail fifo.used), length-window)
          refl in
      omega (arith, count, next_slot-full q.cap q.tail fifo.used q.head a.head_at full, size-cap)

  -- `spsc_dequeue` returns NULL without reading a slot only where, at its load of the head, all that
  -- was put has been got.
  pub null_only_empty :
      q.consumer ≡ ConsumerPoint.checking
      → (consumer_turn q.consumer q).consumer ≡ ConsumerPoint.ready
      → q.put ≡ q.got
  unfolding consumer_turn
  null_only_empty e r =
      let a = fifo.agrees in
      let empty : q.tail ≡ q.head = ground (arith, e, r) in
      let none_used : fifo.used ≡ 0 =
        same_slot-empty q.cap q.tail fifo.used q.head a.head_at empty in
      a.in_order ∙ rw none_used (unfold window in append-nil q.got)
