-- ===== src/SpscQueue/ProducerTurn.antt =====
-- The invariant of frameset_server/include/spsc_queue.h under the turns of `spsc_enqueue`.
use hand_motion_capture.Prelude.{
  ℕ, suc, ◌≤◌, ◌<◌, ◌≡◌, [], ◌∷◌, arith, ◌==◌, Bool-cases, inl, inr, append_assoc,
}
use hand_motion_capture.SpscQueue.{
  ProducerPoint, writing, publishing, ConsumerPoint, reading, leaving, SpscQueue, next_slot,
  write_slot, producer_turn,
}
use hand_motion_capture.SpscQueue.Window.{
  window, Ahead, window-write_slot, window-suc, Ahead-next_slot, next_slot-room,
}
use hand_motion_capture.SpscQueue.Invariant.{Agrees, IsFifo, ConsumerOwns}

-- The producer looks at the consumer's position.
check_tail :
    (q : SpscQueue) (f : IsFifo q)
    → Agrees q.cap q.head q.tail q.tail q.cached_head q.buf q.put q.got f.used f.used
        f.consumer_view
check_tail q f = record {
  head_at = f.agrees.head_at;
  cached_tail_at = f.agrees.head_at;
  cached_head_at = f.agrees.cached_head_at;
  at_least = omega arith;
  at_most = f.agrees.at_most;
  in_order = f.agrees.in_order;
}

-- The consumer's slot is not the one that the producer writes.
write-ConsumerOwns :
    (q : SpscQueue) (c : ConsumerPoint) (used seen value : ℕ)
    → Ahead q.cap q.tail used q.head
    → seen ≤ used
    → ConsumerOwns c seen (q.buf q.tail)
    → ConsumerOwns c seen (write_slot q.head value q.buf q.tail)
unfolding write_slot
write-ConsumerOwns q ConsumerPoint.ready used seen value a l h = tt
write-ConsumerOwns q ConsumerPoint.checking used seen value a l h = tt
write-ConsumerOwns q reading used seen value a l h = h
write-ConsumerOwns q (leaving got) used seen value a l h = ground arith

write-held : (q : SpscQueue) (value : ℕ) → write_slot q.head value q.buf q.head ≡ value
unfolding write_slot
write-held q value = ground arith

pub producer_turn-IsFifo :
    (p : ProducerPoint) (q : SpscQueue) → q.producer ≡ p → IsFifo q → IsFifo (producer_turn p q)
unfolding producer_turn
producer_turn-IsFifo ProducerPoint.ready q e f = f
producer_turn-IsFifo (ProducerPoint.checking value) q e f =
    elim (Bool-cases (next_slot q.cap q.head == q.tail)) [
      | inl full ↦ rw full (record {
        used = f.used;
        producer_view = f.used;
        consumer_view = f.consumer_view;
        agrees = check_tail q f;
        producer_owns = tt;
        consumer_owns = f.consumer_owns;
      })
      | inr room ↦ rw room (record {
        used = f.used;
        producer_view = f.used;
        consumer_view = f.consumer_view;
        agrees = check_tail q f;
        producer_owns = next_slot-room q.cap q.tail f.used q.head f.agrees.head_at room;
        consumer_owns = f.consumer_owns;
      })
    ]
producer_turn-IsFifo (writing value) q e f =
    let a = f.agrees in
    let room : suc f.producer_view < q.cap = rw e at f.producer_owns in
    record {
      used = f.used;
      producer_view = f.producer_view;
      consumer_view = f.consumer_view;
      agrees = record {
        head_at = a.head_at;
        cached_tail_at = a.cached_tail_at;
        cached_head_at = a.cached_head_at;
        at_least = a.at_least;
        at_most = a.at_most;
        in_order =
            rw
              (window-write_slot q.cap q.buf q.tail f.used f.used q.head value a.head_at
                (omega arith))
              a.in_order;
      };
      producer_owns = (room, write-held q value);
      consumer_owns =
          write-ConsumerOwns q q.consumer f.used f.consumer_view value a.head_at a.at_most
            f.consumer_owns;
    }
producer_turn-IsFifo (publishing value) q e f =
    let a = f.agrees in
    let owns : (suc f.producer_view < q.cap) × (q.buf q.head ≡ value) = rw e at f.producer_owns in
    record {
      used = suc f.used;
      producer_view = suc f.producer_view;
      consumer_view = f.consumer_view;
      agrees = record {
        head_at =
            Ahead-next_slot q.cap q.tail f.used q.head a.head_at
              (omega (arith, a.at_least, owns.0));
        cached_tail_at =
            Ahead-next_slot q.cap q.cached_tail f.producer_view q.head a.cached_tail_at owns.0;
        cached_head_at = a.cached_head_at;
        at_least = omega (arith, a.at_least);
        at_most = omega (arith, a.at_most);
        in_order =
            rw (window-suc q.cap q.buf q.tail f.used q.head a.head_at, owns.1, a.in_order)
              (append_assoc q.got (window q.cap q.buf q.tail f.used) (value ∷ []));
      };
      producer_owns = tt;
      consumer_owns = f.consumer_owns;
    }
