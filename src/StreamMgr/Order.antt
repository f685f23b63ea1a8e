-- ===== src/StreamMgr/Order.antt =====
-- The timestamps that the thread of frameset_server/src/stream_mgr.c gives to the pictures.
pub mod Reading
pub mod Turns
use hand_motion_capture.Prelude.{
  ℕ, suc, ◌+◌, ◌*◌, ◌^◌, ◌≤◌, ◌<◌, ◌≡◌, ◌∙◌, Bool, true, false, List, [], ◌∷◌, ◌++◌, some, pos,
  arith, ltb, ◌==◌, if◌then◌else◌, Bool-cases, ◌⊎◌, inl, inr, length, of_le_bytes,
}
use hand_motion_capture.Queue
use hand_motion_capture.Queue.Refinement.{Holds}
use hand_motion_capture.Frameset.Lanes.{times}
use hand_motion_capture.Network.{Stream, recv_from_stream}
use hand_motion_capture.Decoder.{Avcodec, decode_packet}
use hand_motion_capture.StreamMgr.{
  encoded_frame_buf_size, same_ℤ, Worker, Next, proceed, again, err_cleanup, shutdown_cleanup,
  undefined, misread, decode, read_frame, read_frame_size,
}

module _ (av : Avcodec) where
  -- The queue holds the timestamps that are read and not yet given to a picture, and at least `k` more
  -- than there are pictures to come. No more than `n` were read.
  pub record InOrder (n k : ℕ) (w : Worker av) : Type 0 where
    pub waiting : List ℕ
    pub holds : Holds w.timestamp_queue waiting
    pub in_order : w.timestamps ≡ times w.sent ++ waiting
    pub enough : av.backlog w.viddec + k ≤ length waiting
    pub eight_bytes : w.timestamp_queue.type_size ≡ 8
    pub bounded : w.timestamp_queue.capacity ≤ 8 + 2 * n
    pub few : length waiting ≤ n

  -- However a part ends, it is defined and leaves a state with the property.
  abbrev pub Ends : (Worker av → Type 0) → Next av → Type 0
  Ends P (proceed w) = P w
  Ends P (again w) = P w
  Ends P (err_cleanup w) = P w
  Ends P (shutdown_cleanup w) = P w
  Ends P undefined = ⊥

  pub InOrder-weaken : (n : ℕ) (w : Worker av) → InOrder n 1 w → InOrder n 0 w
  InOrder-weaken n w h = record {
    waiting = h.waiting;
    holds = h.holds;
    in_order = h.in_order;
    enough = omega (arith, h.enough);
    eight_bytes = h.eight_bytes;
    bounded = h.bounded;
    few = h.few;
  }

  pub InOrder-stream :
      (n k : ℕ) (s : Stream) (w : Worker av) → InOrder n k w → InOrder n k (record w { stream = s })
  InOrder-stream n k s w h = record {
    waiting = h.waiting;
    holds = h.holds;
    in_order = h.in_order;
    enough = h.enough;
    eight_bytes = h.eight_bytes;
    bounded = h.bounded;
    few = h.few;
  }

  pub InOrder-viddec :
      (n k m : ℕ) (c : av.Context) (stays : Bool) (packets : List (List ℕ)) (w : Worker av)
      → av.backlog c + m ≤ av.backlog w.viddec + k
      → InOrder n k w
      → InOrder n m (record w { viddec = c; incoming_stream = stays; packets = packets })
  InOrder-viddec n k m c stays packets w l h = record {
    waiting = h.waiting;
    holds = h.holds;
    in_order = h.in_order;
    enough = omega (arith, l, h.enough);
    eight_bytes = h.eight_bytes;
    bounded = h.bounded;
    few = h.few;
  }

  pub misread-InOrder : (n : ℕ) (w : Worker av) → InOrder n 0 w → Ends (InOrder n 0) (misread av w)
  unfolding misread
  misread-InOrder n w h = ground arith

  decode-InOrder :
      (n : ℕ) (bytes : List ℕ) (r : Bool × av.Context) (w : Worker av)
      → av.backlog r.1 ≤ suc (av.backlog w.viddec)
      → InOrder n 1 w
      → Ends (InOrder n 0) (decode av bytes r w)
  unfolding decode
  decode-InOrder n bytes (true, c) w l h =
      InOrder-viddec n 1 0 c w.incoming_stream (w.packets ++ bytes ∷ []) w (omega arith) h
  decode-InOrder n bytes (false, c) w l h =
      InOrder-viddec n 1 0 c w.incoming_stream w.packets w (omega arith) h

  read_frame-InOrder :
      (n frame_size : ℕ) (w : Worker av)
      → InOrder n 1 w
      → Ends (InOrder n 0) (read_frame av frame_size w)
  unfolding read_frame decode_packet
  read_frame-InOrder n frame_size w h =
      let r = recv_from_stream frame_size w.stream in
      let w' : Worker av = record w { stream = r.stream } in
      let h' = InOrder-stream n 1 r.stream w h in
      elim (Bool-cases (ltb encoded_frame_buf_size frame_size)) [
        | inl large ↦ rw large (InOrder-weaken n w h)
        | inr fits ↦ rw fits (elim (Bool-cases (same_ℤ r.ret (pos frame_size))) [
          | inl complete ↦ rw complete (
              decode-InOrder n r.bytes (av.send_packet (some r.bytes) w.viddec) w'
                (av.packet_adds_one r.bytes w.viddec) h')
          | inr cut ↦ rw cut (misread-InOrder n w' (InOrder-weaken n w' h'))
        ])
      ]

  pub read_frame_size-InOrder :
      (n : ℕ) (w : Worker av) → InOrder n 1 w → Ends (InOrder n 0) (read_frame_size av w)
  unfolding read_frame_size
  read_frame_size-InOrder n w h =
      let r = recv_from_stream 4 w.stream in
      let w' : Worker av = record w { stream = r.stream } in
      let h' = InOrder-stream n 1 r.stream w h in
      elim (Bool-cases (same_ℤ r.ret (pos 4))) [
        | inl complete ↦ rw complete (read_frame-InOrder n (of_le_bytes r.bytes) w' h')
        | inr cut ↦ rw cut (misread-InOrder n w' (InOrder-weaken n w' h'))
      ]
