-- ===== src/Frameset/Filling.antt =====
-- The loop of frameset_server/src/main.c that fills the queue of empty buffers of a camera, before the
-- camera's thread is started.
use hand_motion_capture.Prelude.{
  ℕ, zero, suc, ◌+◌, ◌<◌, ◌≡◌, refl, sym, ap, ◌∙◌, false, List, [], ◌∷◌, ◌++◌, arith, ◌==◌, take,
  append_assoc, append-nil,
}
use hand_motion_capture.SpscQueue.{
  ProducerPoint, ConsumerPoint, SpscQueue, spsc_queue_init, next_slot, write_slot, begin_enqueue,
  producer_turn,
}

abbrev turn : SpscQueue → SpscQueue
turn q = producer_turn q.producer q

-- A whole call of `spsc_enqueue` while no other thread runs: it has three accesses of shared memory at
-- most.
unfoldable pub enqueue_alone : ℕ → SpscQueue → SpscQueue
unfolding begin_enqueue producer_turn
enqueue_alone value q = turn (turn (turn (begin_enqueue value q)))

-- The loop over `j`, which does not look at what `spsc_enqueue` returns.
unfoldable pub fill_empty : List ℕ → SpscQueue → SpscQueue
unfolding enqueue_alone
fill_empty [] q = q
fill_empty (b ∷ bufs) q = fill_empty bufs (enqueue_alone b q)

abbrev filling : ℕ → (ℕ → ℕ) → ℕ → List ℕ → SpscQueue
filling size buf head put = record {
  head = head;
  cached_tail = 0;
  tail = 0;
  cached_head = 0;
  cap = size;
  buf = buf;
  producer = ProducerPoint.ready;
  consumer = ConsumerPoint.ready;
  put = put;
  got = [];
}

enqueue_alone-room :
    (size : ℕ) (buf : ℕ → ℕ) (head value : ℕ) (put : List ℕ)
    → suc head < size
    → enqueue_alone value (filling size buf head put)
      ≡ filling size (write_slot head value buf) (suc head) (put ++ value ∷ [])
unfolding enqueue_alone next_slot
enqueue_alone-room size buf head value put l =
    let inner : (suc head == size) ≡ false = ground arith in
    let other : (suc head == 0) ≡ false = ground arith in rw (inner, other, inner) refl

enqueue_alone-full :
    (size : ℕ) (buf : ℕ → ℕ) (head value : ℕ) (put : List ℕ)
    → suc head ≡ size
    → enqueue_alone value (filling size buf head put) ≡ filling size buf head put
unfolding enqueue_alone
enqueue_alone-full size buf head value put e =
    let last : next_slot size head ≡ 0 = unfold next_slot in ground arith in rw last (rw last refl)

fill_empty-put :
    (room : ℕ) (buf : ℕ → ℕ) (head : ℕ) (put bufs : List ℕ) (size : ℕ)
    → size ≡ suc (head + room)
    → (fill_empty bufs (filling size buf head put)).put ≡ put ++ take room bufs
unfolding fill_empty
fill_empty-put zero buf head put [] size e = sym (append-nil put)
fill_empty-put (suc room) buf head put [] size e = sym (append-nil put)
fill_empty-put zero buf head put (b ∷ bufs) size e =
    ap (λ (q : SpscQueue). (fill_empty bufs q).put)
      (enqueue_alone-full size buf head b put (omega (arith, e)))
    ∙ fill_empty-put zero buf head put bufs size e
fill_empty-put (suc room) buf head put (b ∷ bufs) size e =
    ap (λ (q : SpscQueue). (fill_empty bufs q).put)
      (enqueue_alone-room size buf head b put (omega (arith, e)))
    ∙ (fill_empty-put room (write_slot head b buf) (suc head) (put ++ b ∷ []) bufs size
          (omega (arith, e))
        ∙ append_assoc put (b ∷ []) (take room bufs))

-- A new queue of one slot or more takes the first buffers, one fewer than its slots, and refuses the
-- others: of as many buffers as slots, the last does not get to the thread.
pub fill_empty-take :
    (buf : ℕ → ℕ) (room : ℕ) (bufs : List ℕ)
    → (fill_empty bufs (spsc_queue_init buf (suc room))).put ≡ take room bufs
unfolding spsc_queue_init
fill_empty-take buf room bufs = fill_empty-put room buf 0 [] bufs (suc room) (omega arith)
