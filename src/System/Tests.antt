-- ===== src/System/Tests.antt =====
-- Two cameras on the whole way, with the decoder of the tests, and the theorems at them.
use hand_motion_capture.Prelude.{
  [], suc, ◌++◌, ◌+◌, ◌*◌, ◌≡◌, refl, ◌∷◌, none, arith, inl, All, length, le_bytes, of_le_bytes,
}
use hand_motion_capture.Sys.{ok}
use hand_motion_capture.Timer.{clock_ns, ns_per_s}
use hand_motion_capture.CamConf.{CamConf}
use hand_motion_capture.Connection.{packet}
use hand_motion_capture.Queue
use hand_motion_capture.Queue.{Queue}
use hand_motion_capture.SpscQueue.{write_slot}
use hand_motion_capture.Network.{recv_from_stream}
use hand_motion_capture.Decoder.{recv_frame}
use hand_motion_capture.Decoder.Sample.{small_decoder}
use hand_motion_capture.Videnc.Sample.{small_codec, prompt_codec}
use hand_motion_capture.Recorder.{Recorder, Reach}
use hand_motion_capture.Recorder.Session.{Between}
use hand_motion_capture.System.Session.{packets_of, recording_sends}
use hand_motion_capture.Connection.State.{sent}
use hand_motion_capture.StreamMgr.Sample.{IsOpen}
use hand_motion_capture.StreamMgr.{turns, start_worker}
use hand_motion_capture.StreamMgr.Wire.{coming}
use hand_motion_capture.StreamMgr.Streams.{stream_of}
use hand_motion_capture.Frameset.{main_loop, start}
use hand_motion_capture.Frameset.Lanes.{Has}
use hand_motion_capture.System.{run_thread, filled_bufs, serve, broadcast_start}
use hand_motion_capture.System.Threads.{timestamps_read, framesets_read}
use hand_motion_capture.System.Whole.{Camera}
use hand_motion_capture.System.Broadcast.{Begins, broadcast_starts}
use hand_motion_capture.System.Sample.{
  thread, thread-IsFresh, frames, camera, faulty, both, one_faulty, look, shots, recorder,
  recorder-Between, encodes_shots,
}

serves_one : (serve small_decoder one_faulty look).framesets ≡ 10_000_000_033 ∷ []
unfolding serve filled_bufs run_thread main_loop start turns start_worker packet le_bytes
    Queue.enqueue Queue.dequeue recv_from_stream of_le_bytes recv_frame write_slot
serves_one = refl

-- What both threads read, for the hypotheses.
reads :
    (timestamps_read small_decoder (run_thread small_decoder (camera frames))
      ≡ 10_000_000_033 ∷ 10_000_000_066 ∷ [])
unfolding run_thread turns start_worker packet le_bytes Queue.enqueue Queue.dequeue recv_from_stream
    of_le_bytes recv_frame write_slot
reads = refl

reads_faulty : timestamps_read small_decoder (run_thread small_decoder faulty) ≡ 10_000_000_033 ∷ []
unfolding run_thread turns start_worker packet le_bytes Queue.enqueue Queue.dequeue recv_from_stream
    of_le_bytes recv_frame write_slot
reads_faulty = refl

framesets_read_example :
    All
      (λ th. Has 10_000_000_033 (timestamps_read small_decoder (run_thread small_decoder th)))
      one_faulty
framesets_read_example =
    framesets_read small_decoder one_faulty (thread-IsFresh _, (thread-IsFresh _, tt))
      (rw reads (omega arith), (rw reads_faulty (omega arith), tt)) (omega arith) look
      10_000_000_033 (rw serves_one (inl refl))

serves_both : (serve small_decoder both look).framesets ≡ 10_000_000_033 ∷ 10_000_000_066 ∷ []
unfolding serve filled_bufs run_thread main_loop start turns start_worker packet le_bytes
    Queue.enqueue Queue.dequeue recv_from_stream of_le_bytes recv_frame write_slot
serves_both = refl

abbrev conf : CamConf
conf = record { name = []; id = 0; eth_ip = 1; wifi_ip = 2; tcp_port = 3; udp_port = 4 }

broadcast_starts_example :
    All
      (Begins small_codec ((1700000000 + 1) * ns_per_s + 5))
      (broadcast_start
        (record { tv_sec = 1700000000; tv_nsec = 5 })
        (ok 3)
        none
        (conf ∷ conf ∷ [])
        (ok 8 ∷ [])).1
broadcast_starts_example =
    broadcast_starts small_codec (record { tv_sec = 1700000000; tv_nsec = 5 }) (ok 3) none
      (conf ∷ conf ∷ []) (ok 8 ∷ []) (omega arith)

recording_sends_example :
    (s : Recorder prompt_codec) × Reach prompt_codec recorder s
    × Between prompt_codec 10_000_000_000 33 (0 + length shots) 5 s
    × (sent s.proc.events
        ≡ sent recorder.proc.events
          ++ stream_of (packets_of (10_000_000_000 + 33 * suc 0) 33 shots) [])
unfolding clock_ns packet le_bytes
recording_sends_example =
    recording_sends prompt_codec 10_000_000_000 33 0 5 shots recorder (omega arith) (omega arith)
      (omega arith) (omega arith) encodes_shots recorder-Between

-- Two cameras of the same recorder.
abbrev seen : Camera prompt_codec small_decoder IsOpen 10_000_000_000 33
seen = record {
  recorder = recorder;
  fd = 5;
  shots = shots;
  thread = thread (coming [] 0);
  errno = 0;
}
