-- ===== src/Recorder/Wakeup.antt =====
-- The semaphore of picam/src/main.cpp, against the flags that the handlers leave to the main
-- thread.
use hand_motion_capture.Prelude.{
  ℕ, ◌≤◌, ◌≡◌, refl, Bool, true, false, List, Option, none, some, arith, ◌⊎◌,
}
use hand_motion_capture.Timer.{Timespec}
use hand_motion_capture.Connection.State.{
  Connection, Outcome, returns, waits, throws, undefined, exhausted, Status, success, error,
}
use hand_motion_capture.Connection.{stream_pkt, end_stream}
use hand_motion_capture.Videnc
use hand_motion_capture.Videnc.{Avcodec}
use hand_motion_capture.Recorder.Flushing.{
  Turn, done, blocked, trapped, Flushed, flushed, flush_failed, flush_encoder,
}
use hand_motion_capture.Recorder.{
  Point, top, arming, waiting, woken, checking, encoding, ending, ended, flushing, exited, failed,
  Recorder, arm, stream_outcome, after_recv, after_encode, process_frame, end_outcome, after_flush,
  finish_stream, last_flush, turn, main_turn, io_signal_handler, exit_signal_handler,
  request_complete, Step, main_step, message, exit_signal, completed, answers, Reach, here, next,
  initial,
}

module _ (av : Avcodec) where
  -- What the parts that talk to the encoder and the network leave alone.
  record Keeps (r s : Recorder av) : Type 0 where
    same_sem : s.sem ≡ r.sem
    same_running : s.running ≡ r.running
    same_frame_rdy : s.frame_rdy ≡ r.frame_rdy
    no_new_end : (s.stream_end ≡ r.stream_end) ⊎ (s.stream_end ≡ false)

  stream_outcome-Keeps :
      (r s : Recorder av) (o : Outcome Status)
      → stream_outcome av r o ≡ done s
      → Keeps r s × ((s.point ≡ ending) ⊎ (s.point ≡ failed))
  unfolding stream_outcome
  stream_outcome-Keeps r s (returns success p) e = ground arith
  stream_outcome-Keeps r s (returns (error c) p) e = ground arith
  stream_outcome-Keeps r s (waits p) e = cc
  stream_outcome-Keeps r s (throws x p) e = ground arith
  stream_outcome-Keeps r s undefined e = cc
  stream_outcome-Keeps r s exhausted e = cc

  abbrev Leaves : Recorder av → Recorder av → Point → Type 0
  Leaves r s p = Keeps r s × ((s.point ≡ p) ⊎ (s.point ≡ failed))

  after_recv-Leaves :
      (r s : Recorder av) (x : Videnc.Result (Option (List ℕ) × Videnc.Videnc av))
      → after_recv av r x ≡ done s
      → Leaves r s ending
  unfolding after_recv
  after_recv-Leaves r s Videnc.Result.runtime_error e = ground arith
  after_recv-Leaves r s (Videnc.Result.ok (none, v)) e = ground arith
  after_recv-Leaves r s (Videnc.Result.ok (some bytes, v)) e =
      let k = stream_outcome-Keeps (record r { encoder = v }) s (stream_pkt bytes r.proc) e in
      ground arith

  process_frame-Leaves : (r s : Recorder av) → process_frame av r ≡ done s → Leaves r s ending
  unfolding process_frame
  process_frame-Leaves r s = on_encoded (Videnc.encode_frame av r.encoder)
    where
      on_encoded :
          (x : Videnc.Result (Videnc.Videnc av)) → after_encode av r x ≡ done s → Leaves r s ending
      on_encoded Videnc.Result.runtime_error e = ground arith
      on_encoded (Videnc.Result.ok v) e = after_recv-Leaves r s (Videnc.recv_frame av v) e

  end_outcome-Leaves :
      (r s : Recorder av) (o : Outcome Status) → end_outcome av r o ≡ done s → Leaves r s top
  unfolding end_outcome
  end_outcome-Leaves r s (returns x p) e = ground arith
  end_outcome-Leaves r s (waits p) e = cc
  end_outcome-Leaves r s (throws x p) e = ground arith
  end_outcome-Leaves r s undefined e = cc
  end_outcome-Leaves r s exhausted e = cc

  after_flush-Leaves :
      (r s : Recorder av) (x : Turn Flushed) → after_flush av r x ≡ done s → Leaves r s top
  unfolding after_flush
  after_flush-Leaves r s (done (flushed success p)) e = end_outcome-Leaves r s (end_stream p) e
  after_flush-Leaves r s (done (flushed (error c) p)) e = ground arith
  after_flush-Leaves r s (done (flush_failed p)) e = ground arith
  after_flush-Leaves r s blocked e = cc
  after_flush-Leaves r s trapped e = cc

  finish_stream-Leaves : (r s : Recorder av) → finish_stream av r ≡ done s → Leaves r s top
  unfolding finish_stream
  finish_stream-Leaves r s e = after_flush-Leaves r s (flush_encoder av r.encoder r.proc) e

  last_flush-Leaves :
      (r s : Recorder av) (x : Turn Flushed) → last_flush av r x ≡ done s → Leaves r s exited
  unfolding last_flush
  last_flush-Leaves r s (done (flushed x p)) e = ground arith
  last_flush-Leaves r s (done (flush_failed p)) e = ground arith
  last_flush-Leaves r s blocked e = cc
  last_flush-Leaves r s trapped e = cc

  arm-Leaves :
      (real_time mono_time : Timespec) (r s : Recorder av)
      → arm av real_time mono_time r ≡ done s
      → Keeps r s × (s.point ≡ waiting)
  unfolding arm
  arm-Leaves real_time mono_time r s e = ground arith

  -- Where a flag that is set must be matched by a count of the semaphore: from the point where the
  -- loop has read the flag for the last time up to `sem_wait`.
  abbrev frame_rdy_open : Point → Bool
  frame_rdy_open woken = false
  frame_rdy_open flushing = false
  frame_rdy_open exited = false
  frame_rdy_open failed = false
  frame_rdy_open _ = true

  abbrev stream_end_open : Point → Bool
  stream_end_open top = true
  stream_end_open arming = true
  stream_end_open waiting = true
  stream_end_open ended = true
  stream_end_open _ = false

  abbrev exit_open : Point → Bool
  exit_open arming = true
  exit_open waiting = true
  exit_open _ = false

  pub record IsPosted (r : Recorder av) : Type 0 where
    pub frame_posted : frame_rdy_open r.point ≡ true → r.frame_rdy ≡ true → 1 ≤ r.sem
    pub end_posted : stream_end_open r.point ≡ true → r.stream_end ≡ true → 1 ≤ r.sem
    pub exit_posted : exit_open r.point ≡ true → r.running ≡ false → 1 ≤ r.sem

  turn-IsPosted :
      (p : Point) (real_time mono_time : Timespec) (r s : Recorder av)
      → r.point ≡ p
      → turn av p real_time mono_time r ≡ done s
      → IsPosted r
      → IsPosted s
  unfolding turn
  turn-IsPosted top real_time mono_time r s w e h = ground (arith, h.frame_posted, h.end_posted)
  turn-IsPosted arming real_time mono_time r s w e h =
      ground (arith, arm-Leaves real_time mono_time r s e)
  turn-IsPosted waiting real_time mono_time r s w e h = ground arith
  turn-IsPosted woken real_time mono_time r s w e h = ground arith
  turn-IsPosted checking real_time mono_time r s w e h = ground arith
  turn-IsPosted encoding real_time mono_time r s w e h = ground (arith, process_frame-Leaves r s e)
  turn-IsPosted ending real_time mono_time r s w e h = ground arith
  turn-IsPosted ended real_time mono_time r s w e h = ground (arith, finish_stream-Leaves r s e)
  turn-IsPosted flushing real_time mono_time r s w e h =
      ground (arith, last_flush-Leaves r s (flush_encoder av r.encoder r.proc) e)
  turn-IsPosted exited real_time mono_time r s w e h = cc
  turn-IsPosted failed real_time mono_time r s w e h = cc

  message-IsPosted :
      (datagram : Option (List ℕ)) (r : Recorder av)
      → IsPosted r
      → IsPosted (io_signal_handler av datagram r)
  unfolding io_signal_handler
  message-IsPosted none r h = h
  message-IsPosted (some d) r h = ground arith

  Step-IsPosted : (r s : Recorder av) → Step av r s → IsPosted r → IsPosted s
  unfolding main_turn exit_signal_handler request_complete
  Step-IsPosted r s (main_step real_time mono_time e) h =
      turn-IsPosted r.point real_time mono_time r s refl e h
  Step-IsPosted r s (message datagram e) h = rw e (message-IsPosted datagram r h)
  Step-IsPosted r s (exit_signal e) h = ground arith
  Step-IsPosted r s (completed cancelled e) h = ground arith
  Step-IsPosted r s (answers replies e) h = ground arith

  Reach-IsPosted : {r s : Recorder av} → Reach av r s → IsPosted r → IsPosted s
  Reach-IsPosted here h = h
  Reach-IsPosted (next {s} {t} path step) h = Step-IsPosted s t step (Reach-IsPosted path h)

  initial-IsPosted :
      (conn : Connection) (fps width height : ℕ) → IsPosted (initial av conn fps width height)
  unfolding initial
  initial-IsPosted conn fps width height = ground arith

  -- In every state that steps of the main thread, the handlers, the camera and the system lead to from
  -- the start, if the main thread stands at `sem_wait` and the count is 0, then no frame is ready, no
  -- end of stream is pending and no exit was asked for: no wakeup is lost.
  pub never_sleeps_on_work :
      (conn : Connection) (fps width height : ℕ) (r : Recorder av)
      → Reach av (initial av conn fps width height) r
      → r.point ≡ waiting
      → r.sem ≡ 0
      → (r.frame_rdy ≡ false) × (r.stream_end ≡ false) × (r.running ≡ true)
  never_sleeps_on_work conn fps width height r path w z =
      let h = Reach-IsPosted path (initial-IsPosted conn fps width height) in
      ground (arith, h.frame_posted, h.end_posted, h.exit_posted)
