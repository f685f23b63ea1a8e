-- ===== src/SpscQueue.antt =====
-- frameset_server/include/spsc_queue.h: the queue between one producer thread and one consumer thread.
-- Each call is cut at its accesses of what the other thread writes or reads. The model is sequentially
-- consistent.
pub mod Window
pub mod Invariant
pub mod ProducerTurn
pub mod ConsumerTurn
pub mod Reachable
pub mod Fifo
mod Tests
use hand_motion_capture.Prelude.{ℕ, suc, List, [], ◌∷◌, ◌++◌, ◌==◌, if◌then◌else◌, ◌≡◌}

-- Where the producer stands in `spsc_enqueue`: outside of it, before the load of the other's tail,
-- before the write of the slot, and before the store of the head.
pub data ProducerPoint : Type 0 where
  ready : ProducerPoint
  checking writing publishing : ℕ → ProducerPoint

-- Where the consumer stands in `spsc_dequeue`: outside, before the load of the other's head, before the
-- read of the slot, and before the store of the tail.
pub data ConsumerPoint : Type 0 where
  ready checking reading : ConsumerPoint
  leaving : ℕ → ConsumerPoint

-- Both structs, with the buffer that they share. A pointer to data is a number. `put` holds the values
-- of the calls of `spsc_enqueue` that returned 0, `got` those that `spsc_dequeue` returned, oldest
-- first.
pub record SpscQueue : Type 0 where
  pub head : ℕ
  pub cached_tail : ℕ
  pub tail : ℕ
  pub cached_head : ℕ
  pub cap : ℕ
  pub buf : ℕ → ℕ
  pub producer : ProducerPoint
  pub consumer : ConsumerPoint
  pub put : List ℕ
  pub got : List ℕ

-- `spsc_queue_init` on an aligned buffer of any content.
unfoldable pub spsc_queue_init : (ℕ → ℕ) → ℕ → SpscQueue
spsc_queue_init buf size = record {
  head = 0;
  cached_tail = 0;
  tail = 0;
  cached_head = 0;
  cap = size;
  buf = buf;
  producer = ProducerPoint.ready;
  consumer = ConsumerPoint.ready;
  put = [];
  got = [];
}

unfoldable pub next_slot : ℕ → ℕ → ℕ
next_slot cap i = if suc i == cap then 0 else suc i

unfoldable pub write_slot : ℕ → ℕ → (ℕ → ℕ) → ℕ → ℕ
write_slot i value buf j = if j == i then value else buf j

-- `spsc_enqueue` up to `next == q->cached_tail`, on what the producer alone writes.
unfoldable pub begin_enqueue : ℕ → SpscQueue → SpscQueue
begin_enqueue value q =
    if next_slot q.cap q.head == q.cached_tail
    then record q { producer = ProducerPoint.checking value }
    else record q { producer = ProducerPoint.writing value }

-- The rest of `spsc_enqueue`, an access at a time. From `checking` to `ready` it returns -EAGAIN.
unfoldable pub producer_turn : ProducerPoint → SpscQueue → SpscQueue
producer_turn ProducerPoint.ready q = q
producer_turn (ProducerPoint.checking value) q =
    if next_slot q.cap q.head == q.tail
    then record q { cached_tail = q.tail; producer = ProducerPoint.ready }
    else record q { cached_tail = q.tail; producer = ProducerPoint.writing value }
producer_turn (writing value) q = record q {
  buf = write_slot q.head value q.buf;
  producer = ProducerPoint.publishing value;
}
producer_turn (publishing value) q = record q {
  head = next_slot q.cap q.head;
  producer = ProducerPoint.ready;
  put = q.put ++ value ∷ [];
}

-- `spsc_dequeue` up to `tail == q->cached_head`.
unfoldable pub begin_dequeue : SpscQueue → SpscQueue
begin_dequeue q =
    if q.tail == q.cached_head
    then record q { consumer = ConsumerPoint.checking }
    else record q { consumer = ConsumerPoint.reading }

-- The rest of `spsc_dequeue`. From `checking` to `ready` it returns NULL.
unfoldable pub consumer_turn : ConsumerPoint → SpscQueue → SpscQueue
consumer_turn ConsumerPoint.ready q = q
consumer_turn ConsumerPoint.checking q =
    if q.tail == q.head
    then record q { cached_head = q.head; consumer = ConsumerPoint.ready }
    else record q { cached_head = q.head; consumer = ConsumerPoint.reading }
consumer_turn reading q = record q { consumer = ConsumerPoint.leaving (q.buf q.tail) }
consumer_turn (leaving value) q = record q {
  tail = next_slot q.cap q.tail;
  consumer = ConsumerPoint.ready;
  got = q.got ++ value ∷ [];
}

-- A step of either thread. Any interleaving is a sequence of these.
pub data Step (q : SpscQueue) : SpscQueue → Type 0 where
  enqueue : (value : ℕ) → q.producer ≡ ProducerPoint.ready → Step q (begin_enqueue value q)
  produce : Step q (producer_turn q.producer q)
  dequeue : q.consumer ≡ ConsumerPoint.ready → Step q (begin_dequeue q)
  consume : Step q (consumer_turn q.consumer q)

pub data Reach (q : SpscQueue) : SpscQueue → Type 0 where
  here : Reach q q
  next : {s t : SpscQueue} → Reach q s → Step s t → Reach q t
