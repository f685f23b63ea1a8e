-- ===== src/SpscQueue/ConsumerTurn.antt =====
-- The invariant of frameset_server/include/spsc_queue.h under the turns of `spsc_dequeue`.
use hand_motion_capture.Prelude.{
  ℕ, zero, suc, ◌≤◌, ◌≡◌, refl, ◌∙◌, [], ◌∷◌, ◌++◌, arith, ◌==◌, Bool-cases, inl, inr, append_assoc,
}
use hand_motion_capture.SpscQueue.{
  ConsumerPoint, reading, leaving, SpscQueue, next_slot, consumer_turn,
}
use hand_motion_capture.SpscQueue.Window.{window, Ahead-next_slot_from, some_left}
use hand_motion_capture.SpscQueue.Invariant.{Agrees, IsFifo, ProducerOwns}

-- The consumer looks at the producer's position.
check_head :
    (q : SpscQueue) (f : IsFifo q)
    → Agrees q.cap q.head q.cached_tail q.tail q.head q.buf q.put q.got f.used f.producer_view
        f.used
check_head q f = record {
  head_at = f.agrees.head_at;
  cached_tail_at = f.agrees.cached_tail_at;
  cached_head_at = f.agrees.head_at;
  at_least = f.agrees.at_least;
  at_most = omega arith;
  in_order = f.agrees.in_order;
}

-- The consumer takes the front of the window.
consumer_takes :
    (q : SpscQueue) (used producer_view consumer_view value : ℕ)
    → Agrees q.cap q.head q.cached_tail q.tail q.cached_head q.buf q.put q.got
        (suc used)
        producer_view
        (suc consumer_view)
    → q.buf q.tail ≡ value
    → Agrees q.cap q.head q.cached_tail
        (next_slot q.cap q.tail)
        q.cached_head
        q.buf
        q.put
        (q.got ++ value ∷ [])
        used
        producer_view
        consumer_view
unfolding window
consumer_takes q used producer_view consumer_view value a e = record {
  head_at = Ahead-next_slot_from q.cap q.tail used q.head a.head_at;
  cached_tail_at = a.cached_tail_at;
  cached_head_at = Ahead-next_slot_from q.cap q.tail consumer_view q.cached_head a.cached_head_at;
  at_least = omega (arith, a.at_least);
  at_most = omega (arith, a.at_most);
  in_order =
      a.in_order
      ∙ rw (e, append_assoc q.got (value ∷ []) (window q.cap q.buf (next_slot q.cap q.tail) used));
}

consumer_leaves :
    (q : SpscQueue) (value used producer_view consumer_view : ℕ)
    → Agrees q.cap q.head q.cached_tail q.tail q.cached_head q.buf q.put q.got used producer_view
        consumer_view
    → ProducerOwns q.producer producer_view q.cap (q.buf q.head)
    → 1 ≤ consumer_view
    → q.buf q.tail ≡ value
    → IsFifo (consumer_turn (leaving value) q)
unfolding consumer_turn
consumer_leaves q value used producer_view zero a o l e = absurd (omega arith)
consumer_leaves q value zero producer_view (suc consumer_view) a o l e =
    absurd (omega (arith, a.at_most))
consumer_leaves q value (suc used) producer_view (suc consumer_view) a o l e = record {
  used = used;
  producer_view = producer_view;
  consumer_view = consumer_view;
  agrees = consumer_takes q used producer_view consumer_view value a e;
  producer_owns = o;
  consumer_owns = tt;
}

pub consumer_turn-IsFifo :
    (c : ConsumerPoint) (q : SpscQueue) → q.consumer ≡ c → IsFifo q → IsFifo (consumer_turn c q)
unfolding consumer_turn
consumer_turn-IsFifo ConsumerPoint.ready q e f = f
consumer_turn-IsFifo ConsumerPoint.checking q e f = elim (Bool-cases (q.tail == q.head)) [
  | inl empty ↦ rw empty (record {
    used = f.used;
    producer_view = f.producer_view;
    consumer_view = f.used;
    agrees = check_head q f;
    producer_owns = f.producer_owns;
    consumer_owns = tt;
  })
  | inr left ↦ rw left (record {
    used = f.used;
    producer_view = f.producer_view;
    consumer_view = f.used;
    agrees = check_head q f;
    producer_owns = f.producer_owns;
    consumer_owns = some_left q.cap q.tail f.used q.head f.agrees.head_at left;
  })
]
consumer_turn-IsFifo reading q e f =
    let left : 1 ≤ f.consumer_view = rw e at f.consumer_owns in
    record {
      used = f.used;
      producer_view = f.producer_view;
      consumer_view = f.consumer_view;
      agrees = f.agrees;
      producer_owns = f.producer_owns;
      consumer_owns = (left, refl);
    }
consumer_turn-IsFifo (leaving value) q e f =
    let owns : (1 ≤ f.consumer_view) × (q.buf q.tail ≡ value) = rw e at f.consumer_owns in
    consumer_leaves q value f.used f.producer_view f.consumer_view f.agrees f.producer_owns owns.0
      owns.1
