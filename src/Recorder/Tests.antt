-- ===== src/Recorder/Tests.antt =====
-- Runs of the main loop of picam/src/main.cpp with a small codec, and the theorems at them.
use hand_motion_capture.Prelude.{
  ℕ, zero, suc, length, ◌↔◌, le_bytes, ◌≡◌, refl, true, false, none, some, [], ℤ, pos, negsuc, ◌∷◌,
  arith, codes,
}
use hand_motion_capture.Sys.{ok, fail}
use hand_motion_capture.Timer.{Timespec, Armed, arm_timer}
use hand_motion_capture.Connection.State.{Connection, Proc, returns, success, wrote, syscall}
use hand_motion_capture.Connection.{
  stream_pkt, packet, configured, end_stream, transmit, reconnect, after_reconnect, write_some,
  after_write, after_round, bind_udp, open_udp, with_port, retry_eintr,
}
use hand_motion_capture.Config.{Config, parse_config}
use hand_motion_capture.Camera
use hand_motion_capture.Stoi.{stoi}
use hand_motion_capture.Videnc.Resources
use hand_motion_capture.Videnc
use hand_motion_capture.Videnc.Sample.{small_codec}
use hand_motion_capture.Recorder.{
  top, arming, waiting, Recorder, set_queue, main_turn, arm, main_step, Reach, here, next, initial,
}
use hand_motion_capture.Recorder.Startup.{Given, Start, exits, start_main}
use hand_motion_capture.Recorder.Startup.Whole.{IsStart, start_main-IsStart}
use hand_motion_capture.Recorder.Flushing.{done, flushed, drain}
use hand_motion_capture.Recorder.Drained.{Drains, drain_iff}
use hand_motion_capture.Videnc.{Avcodec, Received}
use hand_motion_capture.Recorder.Wakeup.{never_sleeps_on_work}
use hand_motion_capture.Recorder.Stop.{stop_leaves_timestamp}

abbrev camera : Connection
camera = configured (codes "192.168.86.100") (codes "12345") (codes "22345")

abbrev start : Recorder small_codec
start = initial small_codec camera 30 1280 720

abbrev no_time : Timespec
no_time = record { tv_sec = 0; tv_nsec = 0 }

-- With no timestamp yet, two turns lead to the semaphore.
start_sleeps : Reach small_codec start (record start { point = waiting })
unfolding main_turn arm initial
start_sleeps =
    next {t = record start { point = waiting }}
      (next {t = record start { point = arming }} here (main_step no_time no_time refl))
      (main_step no_time no_time refl)

never_sleeps_on_work_example :
    (start.frame_rdy ≡ false) × (start.stream_end ≡ false) × (start.running ≡ true)
unfolding initial
never_sleeps_on_work_example =
    never_sleeps_on_work small_codec camera 30 1280 720 (record start { point = waiting })
      start_sleeps refl refl

-- A recording of which the next frame is due, with a server that takes what is written.
abbrev recording : Recorder small_codec
recording = record start {
  timestamp = 10_000_000_000;
  proc = record {
    conn = record camera { tcpfd = some 3; frame_timestamps = 7 ∷ [] };
    replies = ok 4 ∷ ok 4 ∷ ok 100 ∷ [];
    errno = 0;
    events = [];
  };
}

abbrev real_time : Timespec
real_time = record { tv_sec = 10; tv_nsec = 5 }

abbrev mono_time : Timespec
mono_time = record { tv_sec = 3; tv_nsec = 7 }

abbrev next_armed : Armed
next_armed = record {
  frame_counter = 1;
  frame_timestamps = 7 ∷ 10_033_333_333 ∷ [];
  deadline = record { tv_sec = 3; tv_nsec = 33_333_335 };
}

abbrev told : Proc
told = record {
  conn = record camera { tcpfd = some 3; frame_timestamps = 7 ∷ 10_033_333_333 ∷ [] };
  replies = ok 100 ∷ [];
  errno = 0;
  events = wrote 3 (codes "REAM") ∷ wrote 3 (codes "EOST") ∷ [];
}

arm_timer_recording :
    arm_timer real_time mono_time 10_000_000_000 33_333_333 1 (7 ∷ []) ≡ some next_armed
unfolding arm_timer
arm_timer_recording = refl

end_stream_recording :
    end_stream (set_queue (7 ∷ 10_033_333_333 ∷ []) recording.proc) ≡ returns success told
unfolding end_stream transmit reconnect after_reconnect write_some after_write after_round syscall
end_stream_recording = refl

stop_leaves_timestamp_example :
    (s : Recorder small_codec) × Reach small_codec recording s
    × (s.point ≡ top)
    × (s.timestamp ≡ 0)
    × (s.frame_counter ≡ 0)
    × (s.encoder ≡ Videnc.make small_codec recording.encoder.width recording.encoder.height)
    × (s.proc.conn.frame_timestamps ≡ next_armed.frame_timestamps)
unfolding initial Videnc.make Videnc.flush Videnc.recv_frame
stop_leaves_timestamp_example =
    stop_leaves_timestamp small_codec real_time mono_time recording next_armed
      (record { width = 1280; height = 720; pts_counter = 0; ctx = 1 })
      (record { width = 1280; height = 720; pts_counter = 0; ctx = 1 }) told refl refl (omega arith)
      refl arm_timer_recording refl refl end_stream_recording

-- With one timestamp queued, two rounds are enough.
-- No configuration file, a fresh object of 30 frames a second, and a UDP port in use.
abbrev settings : Config
settings = record {
  server_ip = codes "192.168.86.100";
  tcp_port = codes "12345";
  udp_port = codes "22345";
  enc_speed = codes "ultrafast";
  enc_quality = codes "25";
  recording_cpu = pos 3;
  dma_buffers = pos 4;
  frame_width = pos 1280;
  frame_height = pos 720;
  frame_duration_min = pos 16667;
  frame_duration_max = pos 33333;
  fps = pos 30;
}

abbrev given : Given
given = record {
  log_file = ok 3;
  config_file = none;
  sem_memory = true;
  sem_init = ok 0;
  camera = record {
    manager_starts = true;
    has_cameras = true;
    gets_camera = true;
    acquires = true;
    generates = true;
    first_validation = Camera.valid;
    second_validation = Camera.valid;
    configures = true;
    allocates = true;
    creates_request = true;
    adds_buffer = true;
    planes = record { y_length = 921600; u_length = 230400; v_length = 230400 };
    maps = true;
    starts = true;
  };
  encoder = record {
    finds_encoder = true;
    allocates_context = true;
    opens_codec = true;
    allocates_frame = true;
    gets_buffer = true;
    allocates_packet = true;
  };
  replies = ok 0 ∷ ok 0 ∷ ok 0 ∷ ok 0 ∷ ok 0 ∷ ok 0 ∷ ok 0 ∷ ok 5 ∷ fail 98 ∷ [];
}

abbrev exit_code : Start → ℤ
exit_code (exits e es) = e
exit_code _ = pos 0

port_in_use : exit_code (start_main given settings) ≡ negsuc 97
unfolding start_main parse_config Camera.construct Camera.planes_match Resources.init_encoder
    bind_udp open_udp with_port retry_eintr syscall stoi
port_in_use = refl

start_main-IsStart_example : IsStart given settings (start_main given settings)
start_main-IsStart_example = start_main-IsStart given settings

-- A codec that still holds this many packets.
abbrev held_packet : ℕ → Received × ℕ
held_packet zero = (Received.again, 0)
held_packet (suc n) = (Videnc.packet (n ∷ []), n)

abbrev holding_codec : Avcodec
holding_codec = record {
  Context = ℕ;
  opened = 0;
  is_writable = λ n. true;
  send_frame = λ frame n. (true, n);
  receive_packet = held_packet;
}

abbrev one_held : Videnc.Videnc holding_codec
one_held = record { width = 1280; height = 720; pts_counter = 1; ctx = 1 }

-- The packet is written in three parts.
abbrev after_packet : Proc
after_packet = record (recording.proc) {
  conn = record camera { tcpfd = some 3; frame_timestamps = [] };
  replies = [];
  events =
      wrote 3 (1 ∷ 0 ∷ 0 ∷ 0 ∷ 0 ∷ [])
      ∷ wrote 3 (0 ∷ 0 ∷ 0 ∷ 0 ∷ [])
      ∷ wrote 3 (7 ∷ 0 ∷ 0 ∷ 0 ∷ [])
      ∷ [];
}

drains_one : drain holding_codec 2 one_held recording.proc ≡ done (flushed success after_packet)
unfolding drain stream_pkt packet transmit reconnect after_reconnect write_some after_write
    after_round syscall le_bytes Videnc.recv_frame
drains_one = refl

drain_iff_example :
    (drain holding_codec (suc (length {A = ℕ} (7 ∷ []))) one_held recording.proc
      ≡ done (flushed success after_packet))
    ↔ Drains holding_codec one_held recording.proc (flushed success after_packet)
drain_iff_example =
    drain_iff holding_codec (7 ∷ []) one_held recording.proc (flushed success after_packet) refl
