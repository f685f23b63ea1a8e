-- ===== src/Recorder.antt =====
-- picam/src/main.cpp: the state that `main` and its signal handlers share, the handlers, and the
-- main loop cut where a signal can change what the next part reads.
pub mod Wakeup
pub mod Stop
pub mod Flushing
pub mod Flush
pub mod Drained
pub mod Session
pub mod Startup
mod Tests
use hand_motion_capture.Prelude.{
  [], ℕ, zero, suc, ◌+◌, ◌-◌, ◌*◌, ◌/◌, Bool, true, false, ◌&&◌, List, ◌∷◌, ◌++◌, Option, none,
  some, length, take, ◌==◌, if◌then◌else◌, of_le_bytes, add64, ◌≡◌, same_bytes,
}
use hand_motion_capture.Sys.{Reply, econnreset}
use hand_motion_capture.Timer.{Timespec, Armed, arm_timer, ns_per_s}
use hand_motion_capture.Connection.State.{
  Connection, Proc, Outcome, returns, waits, throws, undefined, exhausted, Status, success, error,
}
use hand_motion_capture.Connection.{stream_pkt, end_stream, discon_tcp}
use hand_motion_capture.Videnc
use hand_motion_capture.Videnc.{Avcodec}
use hand_motion_capture.Recorder.Flushing.{
  Turn, done, blocked, trapped, Flushed, flushed, flush_failed, flush_encoder,
}

-- Where the main thread stands: at `while (running)`, at `if (timestamp)`, at `sem_wait`, at
-- `if (frame_rdy)`, at `if (!stream_end)`, at the encoding that follows, at `if (stream_end)`, in
-- the branch of that, at the last flush, or after the end of `main`, by `return 0` or by an
-- exception.
pub data Point : Type 0 where
  top arming waiting woken checking encoding ending ended flushing exited failed : Point

-- "STOP"
abbrev pub stop_bytes : List ℕ
stop_bytes = b'S' ∷ b'T' ∷ b'O' ∷ b'P' ∷ []

abbrev set_queue : List ℕ → Proc → Proc
set_queue q p = record p { conn = record (p.conn) { frame_timestamps = q } }

module _ (av : Avcodec) where
  pub record Recorder : Type 0 where
    pub point : Point
    pub timestamp : ℕ
    pub running : Bool
    pub stream_end : Bool
    pub frame_rdy : Bool
    pub sem : ℕ
    pub frame_counter : ℕ
    pub frame_duration : ℕ
    pub deadline : Option Timespec
    pub proc : Proc
    pub encoder : Videnc.Videnc av

  abbrev queue : Recorder → List ℕ
  queue r = r.proc.conn.frame_timestamps

  -- `encoder = std::make_unique<videnc>(config)`.
  abbrev fresh : Recorder → Videnc.Videnc av
  fresh r = Videnc.make av r.encoder.width r.encoder.height

  -- `if (timestamp) arm_timer(timerid, frame_duration, ++frame_counter)`.
  armed : Recorder → Option Armed → Turn Recorder
  armed r none = trapped
  armed r (some a) = done (record r {
    point = waiting;
    frame_counter = a.frame_counter;
    deadline = some a.deadline;
    proc = set_queue a.frame_timestamps r.proc;
  })

  unfoldable pub arm : Timespec → Timespec → Recorder → Turn Recorder
  unfolding armed
  arm real_time mono_time r =
      if r.timestamp == 0
      then done (record r { point = waiting })
      else armed r (
          arm_timer real_time mono_time r.timestamp r.frame_duration (add64 r.frame_counter 1)
            (queue r))

  -- `sem_wait` takes one from a positive count, and otherwise blocks.
  sem_wait : ℕ → Recorder → Turn Recorder
  sem_wait zero r = blocked
  sem_wait (suc n) r = done (record r { sem = n; point = woken })

  -- After `stream_pkt`, whose status matters only if it is -ECONNRESET: the stream is given up.
  unfoldable pub after_stream : Recorder → Status → Proc → Recorder
  after_stream r success p = record r { point = ending; proc = p }
  after_stream r (error e) p =
      if e == econnreset
      then record r {
        point = ending;
        timestamp = 0;
        frame_counter = 0;
        stream_end = false;
        proc = discon_tcp p;
        encoder = fresh r;
      }
      else record r { point = ending; proc = p }

  stream_outcome : Recorder → Outcome Status → Turn Recorder
  unfolding after_stream
  stream_outcome r (returns status p) = done (after_stream r status p)
  stream_outcome r (waits p) = blocked
  stream_outcome r (throws e p) = done (record r { point = failed; proc = p })
  stream_outcome r undefined = trapped
  stream_outcome r exhausted = trapped

  after_recv : Recorder → Videnc.Result (Option (List ℕ) × Videnc.Videnc av) → Turn Recorder
  unfolding stream_outcome
  after_recv r Videnc.Result.runtime_error = done (record r { point = failed })
  after_recv r (Videnc.Result.ok (none, v)) = done (record r { point = ending; encoder = v })
  after_recv r (Videnc.Result.ok (some bytes, v)) =
      stream_outcome (record r { encoder = v }) (stream_pkt bytes r.proc)

  after_encode : Recorder → Videnc.Result (Videnc.Videnc av) → Turn Recorder
  unfolding after_recv
  after_encode r Videnc.Result.runtime_error = done (record r { point = failed })
  after_encode r (Videnc.Result.ok v) = after_recv r (Videnc.recv_frame av v)

  -- Encode the frame, and stream the packet that comes out, if one does.
  unfoldable pub process_frame : Recorder → Turn Recorder
  unfolding after_encode
  process_frame r = after_encode r (Videnc.encode_frame av r.encoder)

  -- `stream_end = 0; frame_counter = 0;` are done when `ended` is reached; what is left is the flush,
  -- the notice to the server and the new encoder.
  unfoldable pub end_outcome : Recorder → Outcome Status → Turn Recorder
  end_outcome r (returns status p) = done (record r { point = top; proc = p; encoder = fresh r })
  end_outcome r (waits p) = blocked
  end_outcome r (throws e p) = done (record r { point = failed; proc = p })
  end_outcome r undefined = trapped
  end_outcome r exhausted = trapped

  after_flush : Recorder → Turn Flushed → Turn Recorder
  unfolding end_outcome
  after_flush r (done (flushed success p)) = end_outcome r (end_stream p)
  after_flush r (done (flushed (error e) p)) =
      done (record r { point = top; proc = p; encoder = fresh r })
  after_flush r (done (flush_failed p)) = done (record r { point = failed; proc = p })
  after_flush r blocked = blocked
  after_flush r trapped = trapped

  unfoldable pub finish_stream : Recorder → Turn Recorder
  unfolding after_flush
  finish_stream r = after_flush r (flush_encoder av r.encoder r.proc)

  -- The flush after the loop.
  last_flush : Recorder → Turn Flushed → Turn Recorder
  last_flush r (done (flushed status p)) = done (record r { point = exited; proc = p })
  last_flush r (done (flush_failed p)) = done (record r { point = failed; proc = p })
  last_flush r blocked = blocked
  last_flush r trapped = trapped

  -- One part of the main thread, with both clocks as `arm_timer` would read them.
  turn : Point → Timespec → Timespec → Recorder → Turn Recorder
  unfolding sem_wait last_flush
  turn top real_time mono_time r =
      done (record r { point = if r.running then arming else flushing })
  turn arming real_time mono_time r = arm real_time mono_time r
  turn waiting real_time mono_time r = sem_wait r.sem r
  turn woken real_time mono_time r =
      if r.frame_rdy
      then done (record r { point = checking; frame_rdy = false })
      else done (record r { point = ending })
  turn checking real_time mono_time r =
      done (record r { point = if r.stream_end then ending else encoding })
  turn encoding real_time mono_time r = process_frame r
  turn ending real_time mono_time r =
      if r.stream_end
      then done (record r { point = ended; stream_end = false; frame_counter = 0 })
      else done (record r { point = top })
  turn ended real_time mono_time r = finish_stream r
  turn flushing real_time mono_time r = last_flush r (flush_encoder av r.encoder r.proc)
  turn exited real_time mono_time r = blocked
  turn failed real_time mono_time r = blocked

  unfoldable pub main_turn : Timespec → Timespec → Recorder → Turn Recorder
  unfolding turn
  main_turn real_time mono_time r = turn r.point real_time mono_time r

  abbrev sem_post : Recorder → Recorder
  sem_post r = record r { sem = suc r.sem }

  -- `io_signal_handler` on a datagram, of which `recvfrom` keeps 8 bytes; `none` if it failed, and
  -- the size is then the largest `size_t`.
  on_message : List ℕ → Recorder → Recorder
  on_message buf r =
      if length buf == 8
      then sem_post (record r { timestamp = of_le_bytes buf })
      else if length buf == 4 && same_bytes buf stop_bytes
      then sem_post (record r { timestamp = 0; stream_end = true })
      else r

  unfoldable pub io_signal_handler : Option (List ℕ) → Recorder → Recorder
  unfolding on_message
  io_signal_handler none r = r
  io_signal_handler (some datagram) r = on_message (take 8 datagram) r

  unfoldable pub exit_signal_handler : Recorder → Recorder
  exit_signal_handler r = sem_post (record r { running = false })

  -- `camera_handler_t::request_complete`; `true` for a request that was cancelled.
  unfoldable pub request_complete : Bool → Recorder → Recorder
  request_complete cancelled r = if cancelled then r else sem_post (record r { frame_rdy = true })

  -- A step of the process: of the main thread, of a handler, of the camera, or an answer of the
  -- system. `capture_signal_handler` queues a request with the camera and changes nothing here.
  pub data Step (r s : Recorder) : Type 0 where
    main_step :
        (real_time mono_time : Timespec) → main_turn real_time mono_time r ≡ done s → Step r s
    message : (datagram : Option (List ℕ)) → s ≡ io_signal_handler datagram r → Step r s
    exit_signal : s ≡ exit_signal_handler r → Step r s
    completed : (cancelled : Bool) → s ≡ request_complete cancelled r → Step r s
    answers :
        (replies : List Reply)
        → s ≡ record r { proc = record (r.proc) { replies = replies } }
        → Step r s

  pub data Reach (r : Recorder) : Recorder → Type 0 where
    here : Reach r r
    next : {s t : Recorder} → Reach r s → Step s t → Reach r t

  -- The state at the head of the loop, after a start without errors. At 0 frames a second the division
  -- traps, so `fps` is positive.
  unfoldable pub initial : Connection → ℕ → ℕ → ℕ → Recorder
  initial conn fps width height = record {
    point = top;
    timestamp = 0;
    running = true;
    stream_end = false;
    frame_rdy = false;
    sem = 0;
    frame_counter = 0;
    frame_duration = ns_per_s / fps;
    deadline = none;
    proc = record { conn = conn; replies = []; errno = 0; events = [] };
    encoder = Videnc.make av width height;
  }
