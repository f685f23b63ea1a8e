-- ===== src/SpscQueue/Invariant.antt =====
-- The invariant of the queue of frameset_server/include/spsc_queue.h between any two accesses of
-- its threads.
use hand_motion_capture.Prelude.{
  ℕ, suc, ◌≤◌, ◌<◌, ◌≡◌, refl, List, ◌++◌, arith, ◌==◌, Bool-cases, inl, inr,
}
use hand_motion_capture.SpscQueue.{
  ProducerPoint, writing, publishing, ConsumerPoint, reading, leaving, SpscQueue, spsc_queue_init,
  next_slot, begin_enqueue, begin_dequeue,
}
use hand_motion_capture.SpscQueue.Window.{window, Ahead, next_slot-room, some_left}

-- The slot that is written is the producer's own: it is not full in the producer's view.
abbrev pub ProducerOwns : ProducerPoint → ℕ → ℕ → ℕ → Type 0
ProducerOwns ProducerPoint.ready seen cap held = Unit {0}
ProducerOwns (ProducerPoint.checking value) seen cap held = Unit {0}
ProducerOwns (writing value) seen cap held = suc seen < cap
ProducerOwns (publishing value) seen cap held = (suc seen < cap) × (held ≡ value)

-- The slot that is read holds a value, and the value that was read is still in it.
abbrev pub ConsumerOwns : ConsumerPoint → ℕ → ℕ → Type 0
ConsumerOwns ConsumerPoint.ready seen held = Unit {0}
ConsumerOwns ConsumerPoint.checking seen held = Unit {0}
ConsumerOwns reading seen held = 1 ≤ seen
ConsumerOwns (leaving value) seen held = (1 ≤ seen) × (held ≡ value)

-- `used` slots hold the values that are put and not yet got. The producer counts at least as many,
-- and the consumer at most as many.
pub record Agrees (cap head cached_tail tail cached_head : ℕ) (buf : ℕ → ℕ) (put got : List ℕ)
    (used producer_view consumer_view : ℕ) : Type 0 where
  pub head_at : Ahead cap tail used head
  pub cached_tail_at : Ahead cap cached_tail producer_view head
  pub cached_head_at : Ahead cap tail consumer_view cached_head
  pub at_least : used ≤ producer_view
  pub at_most : consumer_view ≤ used
  pub in_order : put ≡ got ++ window cap buf tail used

pub record IsFifo (q : SpscQueue) : Type 0 where
  pub used : ℕ
  pub producer_view : ℕ
  pub consumer_view : ℕ
  pub agrees :
      Agrees q.cap q.head q.cached_tail q.tail q.cached_head q.buf q.put q.got used producer_view
        consumer_view
  pub producer_owns : ProducerOwns q.producer producer_view q.cap (q.buf q.head)
  pub consumer_owns : ConsumerOwns q.consumer consumer_view (q.buf q.tail)

pub spsc_queue_init-IsFifo : (buf : ℕ → ℕ) (size : ℕ) → 1 ≤ size → IsFifo (spsc_queue_init buf size)
unfolding spsc_queue_init window
spsc_queue_init-IsFifo buf size h = record {
  used = 0;
  producer_view = 0;
  consumer_view = 0;
  agrees = record {
    head_at = ground arith;
    cached_tail_at = ground arith;
    cached_head_at = ground arith;
    at_least = omega arith;
    at_most = omega arith;
    in_order = refl;
  };
  producer_owns = tt;
  consumer_owns = tt;
}

pub begin_enqueue-IsFifo : (value : ℕ) (q : SpscQueue) → IsFifo q → IsFifo (begin_enqueue value q)
unfolding begin_enqueue
begin_enqueue-IsFifo value q f = elim (Bool-cases (next_slot q.cap q.head == q.cached_tail)) [
  | inl full ↦ rw full (record {
    used = f.used;
    producer_view = f.producer_view;
    consumer_view = f.consumer_view;
    agrees = f.agrees;
    producer_owns = tt;
    consumer_owns = f.consumer_owns;
  })
  | inr room ↦ rw room (record {
    used = f.used;
    producer_view = f.producer_view;
    consumer_view = f.consumer_view;
    agrees = f.agrees;
    producer_owns =
        next_slot-room q.cap q.cached_tail f.producer_view q.head f.agrees.cached_tail_at room;
    consumer_owns = f.consumer_owns;
  })
]

pub begin_dequeue-IsFifo : (q : SpscQueue) → IsFifo q → IsFifo (begin_dequeue q)
unfolding begin_dequeue
begin_dequeue-IsFifo q f = elim (Bool-cases (q.tail == q.cached_head)) [
  | inl empty ↦ rw empty (record {
    used = f.used;
    producer_view = f.producer_view;
    consumer_view = f.consumer_view;
    agrees = f.agrees;
    producer_owns = f.producer_owns;
    consumer_owns = tt;
  })
  | inr left ↦ rw left (record {
    used = f.used;
    producer_view = f.producer_view;
    consumer_view = f.consumer_view;
    agrees = f.agrees;
    producer_owns = f.producer_owns;
    consumer_owns =
        some_left q.cap q.tail f.consumer_view q.cached_head f.agrees.cached_head_at left;
  })
]
