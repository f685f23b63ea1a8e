-- ===== src/System.antt =====
-- How the parts of the program are put together: frameset_server/src/main.c starts a thread of
-- frameset_server/src/stream_mgr.c for each camera, whose queue of filled buffers its own loop reads, and
-- broadcasts to the recorders of picam/src/main.cpp when the recording starts.
pub mod Sample
pub mod Threads
pub mod Recording
pub mod Broadcast
pub mod Session
pub mod Whole
mod Tests
use hand_motion_capture.Prelude.{ℕ, ◌+◌, Bool, List, [], map, Option, ℤ, add64, mul64, le_bytes}
use hand_motion_capture.Sys.{Reply}
use hand_motion_capture.Timer.{Timespec, ns_per_s}
use hand_motion_capture.CamConf.{CamConf}
use hand_motion_capture.Network.{Stream}
use hand_motion_capture.Network.Sockets.{Datagram, broadcast_msg}
use hand_motion_capture.Queue.{Queue}
use hand_motion_capture.Decoder.{Avcodec}
use hand_motion_capture.StreamMgr.{Input, Next, turns, start_worker}
use hand_motion_capture.Frameset.{TsFrameBuf, Event, Assembly, start, main_loop}

abbrev pub timestamp_delay : ℕ
timestamp_delay = 1

-- `(ts.tv_sec + TIMESTAMP_DELAY) * 1000000000ULL + ts.tv_nsec`
unfoldable pub start_timestamp : Timespec → ℕ
start_timestamp ts = add64 (mul64 (ts.tv_sec + timestamp_delay) ns_per_s) ts.tv_nsec

-- `broadcast_msg(confs, cam_count, (char*)&timestamp, sizeof(timestamp))`
unfoldable pub broadcast_start :
    Timespec → Reply → Option Bool → List CamConf → List Reply → ℤ × List Datagram
broadcast_start ts socket flags confs replies =
    broadcast_msg socket flags confs (le_bytes 8 (start_timestamp ts)) replies

module _ (av : Avcodec) where
  -- What a thread starts its loop with, and what the system and the main thread give its turns.
  pub record Thread : Type 0 where
    pub viddec : av.Context
    pub stream : Stream
    pub timestamp_queue : Queue
    pub current_buf : TsFrameBuf
    pub inputs : List Input

  unfoldable pub run_thread : Thread → Next av
  run_thread t =
      turns av t.inputs (start_worker av t.viddec t.stream t.timestamp_queue t.current_buf)

  -- The buffers that a thread has enqueued for the main thread, wherever it stands.
  unfoldable pub filled_bufs : Next av → List TsFrameBuf
  filled_bufs (Next.proceed w) = w.sent
  filled_bufs (Next.again w) = w.sent
  filled_bufs (Next.err_cleanup w) = w.sent
  filled_bufs (Next.shutdown_cleanup w) = w.sent
  filled_bufs Next.undefined = []

  -- The loop of `main` reads from queue `i` what thread `i` has enqueued.
  unfoldable pub serve : List Thread → List Event → Assembly
  serve threads events = main_loop events (start (map (λ t. filled_bufs (run_thread t)) threads))
