-- ===== src/StreamMgr/Order/Reading.antt =====
-- Reading a packet in frameset_server/src/stream_mgr.c: its timestamp goes into the queue.
use hand_motion_capture.Prelude.{
  ℕ, suc, ◌+◌, ◌*◌, ◌^◌, ◌≤◌, ◌<◌, ◌≡◌, ◌∙◌, Bool, true, false, List, [], ◌∷◌, ◌++◌, Option, none,
  some, pos, arith, Bool-cases, inl, inr, length, length-append, append_assoc, same_bytes,
  of_le_bytes,
}
use hand_motion_capture.Connection.{end_stream_bytes}
use hand_motion_capture.Queue
use hand_motion_capture.Queue.{Queue}
use hand_motion_capture.Queue.Refinement.{
  Holds, Holds-length, enqueue-Holds, enqueue-enomem, enqueue_grows,
}
use hand_motion_capture.Frameset.Lanes.{times}
use hand_motion_capture.Network.{recv_from_stream}
use hand_motion_capture.Decoder.{Avcodec, flush_decoder}
use hand_motion_capture.StreamMgr.{same_ℤ, Worker, after_enqueue, after_flush, read_packet}
use hand_motion_capture.StreamMgr.Order.{
  InOrder, Ends, InOrder-stream, InOrder-viddec, misread-InOrder, read_frame_size-InOrder,
}

-- The number of turns that leave the timestamp queue below 2^32 bytes.
abbrev pub turns_max : ℕ
turns_max = 2 ^ 26

-- A queue of timestamps that was read into.
record Enqueued (n : ℕ) (t : ℕ) (q : Queue) (xs : List ℕ) (r : Queue) : Type 0 where
  holds : Holds r (xs ++ t ∷ [])
  eight_bytes : r.type_size ≡ 8
  bounded : r.capacity ≤ 10 + 2 * n

-- The answers of `enqueue` that can come.
data Answer (n t : ℕ) (q : Queue) (xs : List ℕ) : Queue.Outcome Queue → Type 0 where
  grown : (r : Queue) → Enqueued n t q xs r → Answer n t q xs (Queue.Outcome.returns r)
  no_memory : Answer n t q xs Queue.Outcome.enomem

Enqueued_lem :
    (n t : ℕ) (memory : Option (ℕ → ℕ)) (q : Queue) (xs : List ℕ) (r : Queue)
    → Holds q xs
    → q.type_size ≡ 8
    → q.capacity ≤ 8 + 2 * n
    → length xs ≤ n
    → Queue.enqueue memory t q ≡ Queue.Outcome.returns r
    → Holds r (xs ++ t ∷ [])
    → Enqueued n t q xs r
Enqueued_lem n t memory q xs r h s b l e h' =
    let (same, grows) = enqueue_grows memory t q r e in
    let size = Holds-length q xs h in
    record { holds = h'; eight_bytes = same ∙ s; bounded = ground (arith, grows, b, l, size) }

enqueue-Answer :
    (n t : ℕ) (memory : Option (ℕ → ℕ)) (q : Queue) (xs : List ℕ)
    → n < turns_max
    → Holds q xs
    → q.type_size ≡ 8
    → q.capacity ≤ 8 + 2 * n
    → length xs ≤ n
    → Answer n t q xs (Queue.enqueue memory t q)
enqueue-Answer n t none q xs m h s b l = elim (enqueue-enomem t q xs h) [
  | inl (full, e) ↦ rw e no_memory
  | inr (room, (r, e, h')) ↦ rw e (grown r (Enqueued_lem n t none q xs r h s b l e h'))
]
enqueue-Answer n t (some memory) q xs m h s b l =
    let (r, e, h') =
      enqueue-Holds memory t q xs h (omega (arith, m, b)) (rw s (omega (arith, m, b))) in
    rw e (grown r (Enqueued_lem n t (some memory) q xs r h s b l e h'))

module _ (av : Avcodec) where
  pub InOrder-more : (n : ℕ) (w : Worker av) → InOrder av n 0 w → InOrder av (suc n) 0 w
  InOrder-more n w h = record {
    waiting = h.waiting;
    holds = h.holds;
    in_order = h.in_order;
    enough = h.enough;
    eight_bytes = h.eight_bytes;
    bounded = omega (arith, h.bounded);
    few = omega (arith, h.few);
  }

  after_enqueue-InOrder :
      (n t : ℕ) (o : Queue.Outcome Queue) (w : Worker av) (h : InOrder av n 0 w)
      → Answer n t w.timestamp_queue h.waiting o
      → Ends av (InOrder av (suc n) 0) (after_enqueue av t o w)
  unfolding after_enqueue
  after_enqueue-InOrder n t _ w h (grown r a) =
      let w' : Worker av = record w { timestamp_queue = r; timestamps = w.timestamps ++ t ∷ [] } in
      read_frame_size-InOrder av (suc n) w' (record {
        waiting = h.waiting ++ t ∷ [];
        holds = a.holds;
        in_order = rw h.in_order (append_assoc (times w.sent) h.waiting (t ∷ []));
        enough = rw (length-append h.waiting (t ∷ [])) (omega (arith, h.enough));
        eight_bytes = a.eight_bytes;
        bounded = omega (arith, a.bounded);
        few = rw (length-append h.waiting (t ∷ [])) (omega (arith, h.few));
      })
  after_enqueue-InOrder n t _ w h no_memory = InOrder-more n w h

  after_flush-InOrder :
      (n : ℕ) (r : Bool × av.Context) (w : Worker av)
      → av.backlog r.1 ≤ av.backlog w.viddec
      → InOrder av n 0 w
      → Ends av (InOrder av n 0) (after_flush av r w)
  unfolding after_flush
  after_flush-InOrder n (true, c) w l h =
      InOrder-viddec av n 0 0 c false w.packets w (omega arith) h
  after_flush-InOrder n (false, c) w l h =
      InOrder-viddec av n 0 0 c false w.packets w (omega arith) h

  pub read_packet-InOrder :
      (n : ℕ) (memory : Option (ℕ → ℕ)) (w : Worker av)
      → n < turns_max
      → InOrder av n 0 w
      → Ends av (InOrder av (suc n) 0) (read_packet av memory w)
  unfolding read_packet flush_decoder
  read_packet-InOrder n memory w m h =
      let r = recv_from_stream 8 w.stream in
      let w' : Worker av = record w { stream = r.stream } in
      let t = of_le_bytes r.bytes in
      let h' = InOrder-stream av n 0 r.stream w h in
      let k = InOrder-more (suc n) in
      elim (Bool-cases (same_ℤ r.ret (pos 8))) [
        | inl complete ↦ rw complete (elim (Bool-cases (same_bytes r.bytes end_stream_bytes)) [
          | inl last ↦ rw last (
              after_flush-InOrder (suc n) (av.send_packet none w.viddec) w'
                (av.flush_adds_none w.viddec) (InOrder-more n w' h'))
          | inr inner ↦ rw inner (
              after_enqueue-InOrder n t (Queue.enqueue memory t w.timestamp_queue) w' h' (
                enqueue-Answer n t memory w.timestamp_queue h'.waiting m h'.holds h'.eight_bytes
                  h'.bounded h'.few))
        ])
        | inr cut ↦ rw cut (misread-InOrder av (suc n) w' (InOrder-more n w' h'))
      ]
