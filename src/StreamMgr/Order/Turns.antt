-- ===== src/StreamMgr/Order/Turns.antt =====
-- The turns of the loop in frameset_server/src/stream_mgr.c.
use hand_motion_capture.Prelude.{
  ℕ, suc, ◌+◌, ◌*◌, ◌≤◌, ◌<◌, ◌≡◌, refl, sym, ap, ◌∙◌, Bool, true, false, List, [], ◌∷◌, ◌++◌,
  Option, none, some, arith, if◌then◌else◌, Bool-cases, inl, inr, length, append_assoc,
}
use hand_motion_capture.Queue
use hand_motion_capture.Queue.{Queue}
use hand_motion_capture.Queue.Refinement.{Holds, dequeue-Holds, dequeue_keeps}
use hand_motion_capture.Frameset.{TsFrameBuf}
use hand_motion_capture.Frameset.Lanes.{times, times-append}
use hand_motion_capture.Network.{Stream}
use hand_motion_capture.Decoder.{Avcodec, Decoded, picture, end, failure, on_received, recv_frame}
use hand_motion_capture.StreamMgr.{
  Worker, Input, Next, proceed, again, err_cleanup, shutdown_cleanup, undefined, read_packet,
  hand_on, after_dequeue, after_recv_frame, receive, after_read, turn, go_on, turns, start_worker,
}
use hand_motion_capture.StreamMgr.Order.{InOrder, Ends, InOrder-weaken, InOrder-viddec}
use hand_motion_capture.StreamMgr.Order.Reading.{turns_max, InOrder-more, read_packet-InOrder}

module _ (av : Avcodec) where
  -- The oldest timestamp leaves the queue with a picture.
  hand_on-InOrder :
      (n t p : ℕ) (next_buf : Option TsFrameBuf) (q : Queue) (w : Worker av) (waiting : List ℕ)
      → Holds q waiting
      → w.timestamps ≡ times w.sent ++ t ∷ waiting
      → av.backlog w.viddec ≤ length waiting
      → q.type_size ≡ 8
      → q.capacity ≤ 8 + 2 * n
      → length waiting ≤ n
      → Ends av (InOrder av n 0) (
          hand_on av next_buf
            (record { timestamp = t; frame_buf = p })
            (record w { timestamp_queue = q }))
  unfolding hand_on
  hand_on-InOrder n t p next_buf q w waiting h e l s b f =
      let buf : TsFrameBuf = record { timestamp = t; frame_buf = p } in
      let order : w.timestamps ≡ times (w.sent ++ buf ∷ []) ++ waiting =
        rw (times-append w.sent (buf ∷ []))
          (e ∙ sym (append_assoc (times w.sent) (t ∷ []) waiting)) in
      let w' : Worker av = record w { timestamp_queue = q; sent = w.sent ++ buf ∷ [] } in
      let k : (c : TsFrameBuf) → InOrder av n 0 (record w' { current_buf = c }) = λ c. record {
        waiting = waiting;
        holds = h;
        in_order = order;
        enough = omega (arith, l);
        eight_bytes = s;
        bounded = b;
        few = f;
      } in
      elim next_buf
        as (λ b. Ends av (InOrder av n 0) (hand_on av b buf (record w { timestamp_queue = q }))) [
          | some c ↦ k c
          | none ↦ k w.current_buf
        ]

  after_dequeue-InOrder :
      (n p : ℕ) (next_buf : Option TsFrameBuf) (w : Worker av) (waiting : List ℕ)
      → Holds w.timestamp_queue waiting
      → w.timestamps ≡ times w.sent ++ waiting
      → suc (av.backlog w.viddec) ≤ length waiting
      → w.timestamp_queue.type_size ≡ 8
      → w.timestamp_queue.capacity ≤ 8 + 2 * n
      → length waiting ≤ n
      → Ends av (InOrder av n 0) (after_dequeue av next_buf p (Queue.dequeue w.timestamp_queue) w)
  unfolding after_dequeue
  after_dequeue-InOrder n p next_buf w [] h e l s b f = absurd (omega (arith, l))
  after_dequeue-InOrder n p next_buf w (t ∷ waiting) h e l s b f =
      let (r, d, h') = dequeue-Holds w.timestamp_queue (t ∷ waiting) h in
      let (s', b') = dequeue_keeps t w.timestamp_queue r d in
      rw d (
        hand_on-InOrder n t p next_buf r w waiting h' e (omega (arith, l)) (s' ∙ s) (rw b' b)
          (omega (arith, f)))

  no_picture :
      (n : ℕ) (c : av.Context) (w : Worker av)
      → (av.receive_frame w.viddec).1 ≡ c
      → InOrder av n 0 w
      → InOrder av n 0 (record w { viddec = c })
  no_picture n c w e h =
      InOrder-viddec av n 0 0 c w.incoming_stream w.packets w
        (rw (sym e) (omega (arith, av.other_adds_none w.viddec))) h

  after_recv_frame-InOrder :
      (n : ℕ) (next_buf : Option TsFrameBuf) (a : Decoded × av.Context) (w : Worker av)
      → av.receive_frame w.viddec ≡ a
      → InOrder av n 0 w
      → Ends av (InOrder av n 0) (after_recv_frame av next_buf (on_received av a) w)
  unfolding after_recv_frame on_received
  after_recv_frame-InOrder n next_buf (picture p, c) w e h =
      let fewer : av.backlog c + 1 ≤ av.backlog w.viddec + 0 =
        omega (arith, av.picture_takes_one w.viddec c p e) in
      let w' : Worker av = record w { viddec = c } in
      let h' : InOrder av n 1 w' =
        InOrder-viddec av n 0 1 c w.incoming_stream w.packets w fewer h in
      elim (Bool-cases (av.transfer c)) [
        | inl copies ↦ rw copies (
            after_dequeue-InOrder n p next_buf w' h'.waiting h'.holds h'.in_order
              (omega (arith, h'.enough)) h'.eight_bytes h'.bounded h'.few)
        | inr fails ↦ rw fails (InOrder-weaken av n w' h')
      ]
  after_recv_frame-InOrder n next_buf (Decoded.again, c) w e h =
      no_picture n c w (ap (λ (x : Decoded × av.Context). x.1) e) h
  after_recv_frame-InOrder n next_buf (end, c) w e h =
      no_picture n c w (ap (λ (x : Decoded × av.Context). x.1) e) h
  after_recv_frame-InOrder n next_buf (failure, c) w e h =
      no_picture n c w (ap (λ (x : Decoded × av.Context). x.1) e) h

  receive-InOrder :
      (n : ℕ) (next_buf : Option TsFrameBuf) (w : Worker av)
      → InOrder av n 0 w
      → Ends av (InOrder av n 0) (receive av next_buf w)
  unfolding receive recv_frame
  receive-InOrder n next_buf w h =
      after_recv_frame-InOrder n next_buf (av.receive_frame w.viddec) w refl h

  after_read-InOrder :
      (n : ℕ) (next_buf : Option TsFrameBuf) (o : Next av)
      → Ends av (InOrder av n 0) o
      → Ends av (InOrder av n 0) (after_read av next_buf o)
  unfolding after_read
  after_read-InOrder n next_buf (proceed w) h = receive-InOrder n next_buf w h
  after_read-InOrder n next_buf (again w) h = h
  after_read-InOrder n next_buf (err_cleanup w) h = h
  after_read-InOrder n next_buf (shutdown_cleanup w) h = h
  after_read-InOrder n next_buf undefined h = absurd h

  Ends-if :
      (P : Worker av → Type 0) (b : Bool) (x y : Next av)
      → Ends av P x
      → Ends av P y
      → Ends av P (if b then x else y)
  Ends-if P true x y h k = h
  Ends-if P false x y h k = k

  pub turn-InOrder :
      (n : ℕ) (i : Input) (w : Worker av)
      → n < turns_max
      → InOrder av n 0 w
      → Ends av (InOrder av (suc n) 0) (turn av i w)
  unfolding turn
  turn-InOrder n i w m h =
      Ends-if (InOrder av (suc n) 0) w.incoming_stream _ _
        (after_read-InOrder (suc n) i.next_buf (read_packet av i.memory w)
          (read_packet-InOrder av n i.memory w m h))
        (receive-InOrder (suc n) i.next_buf w (InOrder-more av n w h))

  -- The timestamps read are those handed on and some others.
  abbrev pub Paired : Worker av → Type 0
  Paired w = (rest : List ℕ) × (w.timestamps ≡ times w.sent ++ rest)

  Ends-Paired : (n : ℕ) (o : Next av) → Ends av (InOrder av n 0) o → Ends av Paired o
  Ends-Paired n (proceed w) h = (h.waiting, h.in_order)
  Ends-Paired n (again w) h = (h.waiting, h.in_order)
  Ends-Paired n (err_cleanup w) h = (h.waiting, h.in_order)
  Ends-Paired n (shutdown_cleanup w) h = (h.waiting, h.in_order)
  Ends-Paired n undefined h = absurd h

  turns-Paired :
      (n : ℕ) (is : List Input) (o : Next av)
      → n + length is < turns_max
      → Ends av (InOrder av n 0) o
      → Ends av Paired (go_on av (turns av is) o)
  unfolding turns go_on
  turns-Paired n is (proceed w) m h = (h.waiting, h.in_order)
  turns-Paired n [] (again w) m h = (h.waiting, h.in_order)
  turns-Paired n (i ∷ is) (again w) m h =
      turns-Paired (suc n) is (turn av i w) (omega (arith, m))
        (turn-InOrder n i w (omega (arith, m)) h)
  turns-Paired n is (err_cleanup w) m h = (h.waiting, h.in_order)
  turns-Paired n is (shutdown_cleanup w) m h = (h.waiting, h.in_order)
  turns-Paired n is undefined m h = absurd h

  pub start_worker-InOrder :
      (viddec : av.Context) (stream : Stream) (q : Queue) (buf : TsFrameBuf)
      → av.backlog viddec ≡ 0
      → Holds q []
      → q.type_size ≡ 8
      → q.capacity ≤ 8
      → InOrder av 0 0 (start_worker av viddec stream q buf)
  unfolding start_worker
  start_worker-InOrder viddec stream q buf z h s b = record {
    waiting = [];
    holds = h;
    in_order = refl;
    enough = omega (arith, z);
    eight_bytes = s;
    bounded = omega (arith, b);
    few = omega arith;
  }

  -- From a fresh decoder, from which no picture is to come, and an empty queue of timestamps with at most 8
  -- slots, however the reads, the allocations, the decoder and the buffers to fill behave: in fewer than
  -- 2^26 turns the thread's loop does nothing undefined, and the timestamps of the buffers handed to the main
  -- thread are the first of those read from the camera, in their order and each once.
  pub frames_in_order :
      (viddec : av.Context) (stream : Stream) (q : Queue) (buf : TsFrameBuf) (inputs : List Input)
      → av.backlog viddec ≡ 0
      → Holds q []
      → q.type_size ≡ 8
      → q.capacity ≤ 8
      → length inputs < turns_max
      → Ends av Paired (turns av inputs (start_worker av viddec stream q buf))
  unfolding turns go_on
  frames_in_order viddec stream q buf inputs z h s b m =
      turns-Paired 0 inputs (again (start_worker av viddec stream q buf)) (omega (arith, m))
        (start_worker-InOrder viddec stream q buf z h s b)
