-- ===== src/StreamMgr.antt =====
-- frameset_server/src/stream_mgr.c: the thread that reads the packets of one camera, decodes them and
-- hands the pictures on with their timestamps.
pub mod Order
pub mod Wire
pub mod Setup
pub mod Release
pub mod Streams
pub mod Sample
mod Tests
use hand_motion_capture.Prelude.{
  ℕ, Bool, true, false, List, [], ◌∷◌, ◌++◌, Option, none, some, ℤ, pos, negsuc, ltb, ◌==◌,
  if◌then◌else◌, same_bytes, of_le_bytes,
}
use hand_motion_capture.Sys.{eintr}
use hand_motion_capture.Connection.{end_stream_bytes}
use hand_motion_capture.Queue
use hand_motion_capture.Queue.{Queue}
use hand_motion_capture.Frameset.{TsFrameBuf}
use hand_motion_capture.Network.{Stream, recv_from_stream, negative}
use hand_motion_capture.Decoder.{
  Avcodec, RecvFrame, filled, need_more, no_data, failed, decode_packet, flush_decoder, recv_frame,
}

abbrev pub encoded_frame_buf_size : ℕ
encoded_frame_buf_size = 6400

-- `==` of two `int`s.
abbrev pub same_ℤ : ℤ → ℤ → Bool
same_ℤ (pos a) (pos b) = a == b
same_ℤ (negsuc a) (negsuc b) = a == b
same_ℤ _ _ = false

-- What the system gives a turn: the answer of `malloc`, and the next empty buffer, which is missing
-- only if `running` is cleared while the thread waits for it.
pub record Input : Type 0 where
  pub memory : Option (ℕ → ℕ)
  pub next_buf : Option TsFrameBuf

module _ (av : Avcodec) where
  -- The locals of `stream_mgr_fn`. `sent` holds the buffers that were enqueued for the main thread,
  -- oldest first; `timestamps` and `packets` are what was read so far.
  pub record Worker : Type 0 where
    pub viddec : av.Context
    pub stream : Stream
    pub timestamp_queue : Queue
    pub current_buf : TsFrameBuf
    pub incoming_stream : Bool
    pub sent : List TsFrameBuf
    pub timestamps : List ℕ
    pub packets : List (List ℕ)

  -- Where a part of the body goes on: after the part, at the head of the loop, at one of the labels;
  -- or it is undefined behaviour.
  pub data Next : Type 0 where
    proceed again err_cleanup shutdown_cleanup : Worker → Next
    undefined : Next

  -- A read of another size than was asked for. `errno` is compared with -EINTR.
  unfoldable pub misread : Worker → Next
  misread w =
      if same_ℤ (pos w.stream.errno) (negative eintr) then shutdown_cleanup w else err_cleanup w

  unfoldable pub decode : List ℕ → Bool × av.Context → Worker → Next
  decode bytes (true, c) w = proceed (record w { viddec = c; packets = w.packets ++ bytes ∷ [] })
  decode bytes (false, c) w = err_cleanup (record w { viddec = c })

  unfoldable pub read_frame : ℕ → Worker → Next
  unfolding misread decode decode_packet
  read_frame frame_size w =
      let r = recv_from_stream frame_size w.stream in
      let w' = record w { stream = r.stream } in
      if ltb encoded_frame_buf_size frame_size
      then err_cleanup w
      else if same_ℤ r.ret (pos frame_size)
      then decode r.bytes (decode_packet av r.bytes w.viddec) w'
      else misread w'

  unfoldable pub read_frame_size : Worker → Next
  unfolding read_frame
  read_frame_size w =
      let r = recv_from_stream 4 w.stream in
      let w' = record w { stream = r.stream } in
      if same_ℤ r.ret (pos 4) then read_frame (of_le_bytes r.bytes) w' else misread w'

  unfoldable pub after_enqueue : ℕ → Queue.Outcome Queue → Worker → Next
  unfolding read_frame_size
  after_enqueue timestamp (Queue.Outcome.returns q) w =
      read_frame_size
        (record w { timestamp_queue = q; timestamps = w.timestamps ++ timestamp ∷ [] })
  after_enqueue timestamp Queue.Outcome.enomem w = err_cleanup w
  after_enqueue timestamp Queue.Outcome.eagain w = err_cleanup w
  after_enqueue timestamp Queue.Outcome.undefined w = undefined

  unfoldable pub after_flush : Bool × av.Context → Worker → Next
  after_flush (true, c) w = again (record w { viddec = c; incoming_stream = false })
  after_flush (false, c) w = shutdown_cleanup (record w { viddec = c; incoming_stream = false })

  -- The branch `if (incoming_stream)`.
  unfoldable pub read_packet : Option (ℕ → ℕ) → Worker → Next
  unfolding after_enqueue after_flush flush_decoder misread
  read_packet memory w =
      let r = recv_from_stream 8 w.stream in
      let w' = record w { stream = r.stream } in
      if same_ℤ r.ret (pos 8)
      then (if same_bytes r.bytes end_stream_bytes
          then after_flush (flush_decoder av w.viddec) w'
          else after_enqueue (of_le_bytes r.bytes)
              (Queue.enqueue memory (of_le_bytes r.bytes) w.timestamp_queue) w')
      else misread w'

  -- The buffer is enqueued for the main thread, and the next one taken; without it the loop ends.
  unfoldable pub hand_on : Option TsFrameBuf → TsFrameBuf → Worker → Next
  hand_on (some b) buf w = again (record w { sent = w.sent ++ buf ∷ []; current_buf = b })
  hand_on none buf w = err_cleanup (record w { sent = w.sent ++ buf ∷ [] })

  -- `dequeue` of the timestamp, which leaves the old one in the buffer if there is none.
  unfoldable pub after_dequeue : Option TsFrameBuf → ℕ → Queue.Outcome (ℕ × Queue) → Worker → Next
  unfolding hand_on
  after_dequeue next_buf picture (Queue.Outcome.returns (t, q)) w =
      hand_on next_buf (record { timestamp = t; frame_buf = picture })
        (record w { timestamp_queue = q })
  after_dequeue next_buf picture Queue.Outcome.eagain w =
      hand_on next_buf (record (w.current_buf) { frame_buf = picture }) w
  after_dequeue next_buf picture Queue.Outcome.enomem w = undefined
  after_dequeue next_buf picture Queue.Outcome.undefined w = undefined

  unfoldable pub after_recv_frame : Option TsFrameBuf → RecvFrame × av.Context → Worker → Next
  unfolding after_dequeue
  after_recv_frame next_buf (filled picture, c) w =
      after_dequeue next_buf picture (Queue.dequeue w.timestamp_queue) (record w { viddec = c })
  after_recv_frame next_buf (need_more, c) w = again (record w { viddec = c })
  after_recv_frame next_buf (no_data, c) w = err_cleanup (record w { viddec = c })
  after_recv_frame next_buf (failed, c) w = err_cleanup (record w { viddec = c })

  unfoldable pub receive : Option TsFrameBuf → Worker → Next
  unfolding after_recv_frame
  receive next_buf w = after_recv_frame next_buf (recv_frame av w.viddec) w

  unfoldable pub after_read : Option TsFrameBuf → Next → Next
  unfolding receive
  after_read next_buf (proceed w) = receive next_buf w
  after_read next_buf (again w) = again w
  after_read next_buf (err_cleanup w) = err_cleanup w
  after_read next_buf (shutdown_cleanup w) = shutdown_cleanup w
  after_read next_buf undefined = undefined

  -- The body of `while (running)`.
  unfoldable pub turn : Input → Worker → Next
  unfolding read_packet after_read
  turn i w =
      if w.incoming_stream
      then after_read i.next_buf (read_packet i.memory w)
      else receive i.next_buf w

  -- A turn for each input.
  unfoldable pub go_on : (Worker → Next) → Next → Next
  go_on rest (again w) = rest w
  go_on rest other = other

  unfoldable pub turns : List Input → Worker → Next
  unfolding turn go_on
  turns [] w = again w
  turns (i ∷ is) w = go_on (turns is) (turn i w)

  -- The state at the head of the loop.
  unfoldable pub start_worker : av.Context → Stream → Queue → TsFrameBuf → Worker
  start_worker viddec stream timestamp_queue current_buf = record {
    viddec = viddec;
    stream = stream;
    timestamp_queue = timestamp_queue;
    current_buf = current_buf;
    incoming_stream = true;
    sent = [];
    timestamps = [];
    packets = [];
  }
