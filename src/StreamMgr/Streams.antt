-- ===== src/StreamMgr/Streams.antt =====
-- Streams of packets as the thread of frameset_server/src/stream_mgr.c takes them, with a decoder that
-- reports no error.
pub mod Run
use hand_motion_capture.Prelude.{
  ℕ, ◌+◌, ◌≤◌, ◌<◌, ◌≡◌, ◌∙◌, Bool, true, false, List, [], ◌∷◌, ◌++◌, map, some, length, ◌⊎◌, inl,
  inr, if◌then◌else◌, le_bytes, same_bytes, u64_mod,
}
use hand_motion_capture.Connection.{end_stream_bytes, packet}
use hand_motion_capture.Queue
use hand_motion_capture.Queue.{Queue}
use hand_motion_capture.Queue.Refinement.{Holds, dequeue-Holds}
use hand_motion_capture.Frameset.{TsFrameBuf}
use hand_motion_capture.Decoder.{Avcodec, Decoded, picture, end, failure, on_received, recv_frame}
use hand_motion_capture.StreamMgr.{
  encoded_frame_buf_size, Worker, Input, Next, proceed, again, err_cleanup, shutdown_cleanup,
  undefined, decode, hand_on, after_dequeue, after_recv_frame, receive, after_read,
}
use hand_motion_capture.StreamMgr.Wire.{coming}

-- A timestamp and a payload that the thread can read.
pub record IsReadable (timestamp : ℕ) (payload : List ℕ) : Type 0 where
  pub in_range : timestamp < u64_mod
  pub not_end : same_bytes (le_bytes 8 timestamp) end_stream_bytes ≡ false
  pub fits : length payload ≤ encoded_frame_buf_size

abbrev pub stream_of : List (ℕ × List ℕ) → List ℕ → List ℕ
stream_of [] rest = rest
stream_of (p ∷ ps) rest = packet p.0 p.1 ++ stream_of ps rest

-- `malloc` gives memory, and there is a buffer to fill.
abbrev pub IsSupplied : Input → Type 0
IsSupplied i =
    ((memory : ℕ → ℕ) × (i.memory ≡ some memory)) × ((b : TsFrameBuf) × (i.next_buf ≡ some b))

-- `dequeue` on a queue that holds some list.
abbrev pub Dequeued : Queue.Outcome (ℕ × Queue) → Type 0
Dequeued o = ((p : ℕ × Queue) × (o ≡ Queue.Outcome.returns p)) ⊎ (o ≡ Queue.Outcome.eagain)

pub dequeue-Dequeued : (q : Queue) (xs : List ℕ) → Holds q xs → Dequeued (Queue.dequeue q)
dequeue-Dequeued q [] h = inr (dequeue-Holds q [] h)
dequeue-Dequeued q (x ∷ xs) h = let (r, e, k) = dequeue-Holds q (x ∷ xs) h in inl ((x, r), e)

module _ (av : Avcodec) (Open : av.Context → Type 0) where
  -- An answer without an error, which leaves the stream open.
  abbrev pub Gives : Decoded × av.Context → Type 0
  Gives (picture p, c) = (av.transfer c ≡ true) × Open c
  Gives (Decoded.again, c) = Open c
  Gives (end, c) = ⊥
  Gives (failure, c) = ⊥

  -- Until it is flushed the decoder takes every packet and reports no error.
  pub record IsHealthy : Type 0 where
    pub accepts :
        (bytes : List ℕ) (c : av.Context)
        → Open c
        → ((av.send_packet (some bytes) c).0 ≡ true) × Open (av.send_packet (some bytes) c).1
    pub answers : (c : av.Context) → Open c → Gives (av.receive_frame c)

  -- The state after some packets, against the state before.
  pub record Took (packets : List (ℕ × List ℕ)) (rest : List ℕ) (e : ℕ) (w w' : Worker av)
      : Type 0 where
    pub stream_left : w'.stream ≡ coming rest e
    pub reading : w'.incoming_stream ≡ true
    pub timestamps_read : w'.timestamps ≡ w.timestamps ++ map (λ p. p.0) packets
    pub packets_read : w'.packets ≡ w.packets ++ map (λ p. p.1) packets
    pub still_open : Open w'.viddec

  -- The thread goes on at the head of the loop.
  abbrev pub GoesOn : (Worker av → Type 0) → Next av → Type 0
  GoesOn P (again w) = P w
  GoesOn P (proceed w) = ⊥
  GoesOn P (err_cleanup w) = ⊥
  GoesOn P (shutdown_cleanup w) = ⊥
  GoesOn P undefined = ⊥

  Took-hand_on :
      (b buf : TsFrameBuf) (q : Queue) (c : av.Context) (packets : List (ℕ × List ℕ))
      (rest : List ℕ) (e : ℕ) (w w' : Worker av)
      → Open c
      → Took packets rest e w w'
      → GoesOn
          (Took packets rest e w)
          (hand_on av (some b) buf (record w' { viddec = c; timestamp_queue = q }))
  unfolding hand_on
  Took-hand_on b buf q c packets rest e w w' o h = record {
    stream_left = h.stream_left;
    reading = h.reading;
    timestamps_read = h.timestamps_read;
    packets_read = h.packets_read;
    still_open = o;
  }

  Took-recv_frame :
      (b : TsFrameBuf) (a : Decoded × av.Context) (packets : List (ℕ × List ℕ)) (rest : List ℕ)
      (e : ℕ) (w w' : Worker av)
      → Dequeued (Queue.dequeue w'.timestamp_queue)
      → Gives a
      → Took packets rest e w w'
      → GoesOn (Took packets rest e w) (after_recv_frame av (some b) (on_received av a) w')
  unfolding after_recv_frame after_dequeue on_received
  Took-recv_frame b (picture p, c) packets rest e w w' d (t, o) h = elim d [
    | inl ((x, r), k) ↦
        rw (t, k)
          (Took-hand_on b (record { timestamp = x; frame_buf = p }) r c packets rest e w w' o h)
    | inr k ↦
        rw (t, k)
          (Took-hand_on b (record (w'.current_buf) { frame_buf = p }) w'.timestamp_queue c packets
            rest e w w' o h)
  ]
  Took-recv_frame b (Decoded.again, c) packets rest e w w' d o h = record {
    stream_left = h.stream_left;
    reading = h.reading;
    timestamps_read = h.timestamps_read;
    packets_read = h.packets_read;
    still_open = o;
  }
  Took-recv_frame b (end, c) packets rest e w w' d o h = absurd o
  Took-recv_frame b (failure, c) packets rest e w w' d o h = absurd o

  pub Took-decode :
      (healthy : IsHealthy) (b : TsFrameBuf) (payload : List ℕ) (r : Bool × av.Context)
      (packets : List (ℕ × List ℕ)) (rest : List ℕ) (e : ℕ) (w w' : Worker av)
      → r.0 ≡ true
      → Open r.1
      → Dequeued (Queue.dequeue w'.timestamp_queue)
      → Took packets rest e w (record w' { viddec = r.1; packets = w'.packets ++ payload ∷ [] })
      → GoesOn (Took packets rest e w) (after_read av (some b) (decode av payload r w'))
  unfolding decode after_read receive recv_frame
  Took-decode healthy b payload (true, c) packets rest e w w' a o d h =
      Took-recv_frame b (av.receive_frame c) packets rest e w
        (record w' { viddec = c; packets = w'.packets ++ payload ∷ [] }) d (healthy.answers c o) h
  Took-decode healthy b payload (false, c) packets rest e w w' a o d h = absurd (cc a)
