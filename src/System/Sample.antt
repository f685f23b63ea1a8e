-- ===== src/System/Sample.antt =====
-- Two cameras for the runs of frameset_server/src/main.c: the threads that read their packets, and a
-- recorder of picam/src/main.cpp with two frames to send.
use hand_motion_capture.Prelude.{[], zero, suc, ℕ, refl, true, false, List, ◌∷◌, none, some, arith}
use hand_motion_capture.Sys.{Reply, ok}
use hand_motion_capture.Timer.{Timespec}
use hand_motion_capture.Connection.{end_stream_bytes}
use hand_motion_capture.Network.{Stream, whole, fails}
use hand_motion_capture.Decoder.Sample.{small_decoder}
use hand_motion_capture.Videnc
use hand_motion_capture.Videnc.Sample.{prompt_codec}
use hand_motion_capture.Recorder.{Recorder, top}
use hand_motion_capture.Recorder.Session.{Shot, Between}
use hand_motion_capture.System.Session.{EncodesAll}
use hand_motion_capture.StreamMgr.Sample.{empty_queue, empty_queue-Holds, buffer, input}
use hand_motion_capture.StreamMgr.Wire.{coming}
use hand_motion_capture.StreamMgr.Streams.{stream_of}
use hand_motion_capture.Frameset.{Event, passes}
use hand_motion_capture.System.{Thread}
use hand_motion_capture.System.Threads.{IsFresh}

abbrev pub thread : Stream → Thread small_decoder
thread stream = record {
  viddec = (false, []);
  stream = stream;
  timestamp_queue = empty_queue;
  current_buf = buffer 0;
  inputs = input ∷ input ∷ [];
}

pub thread-IsFresh : (stream : Stream) → IsFresh small_decoder (thread stream)
thread-IsFresh stream = record {
  nothing_decoded = refl;
  nothing_queued = empty_queue-Holds;
  eight_bytes = refl;
  eight_slots = omega arith;
  in_turns = omega arith;
}

-- Frames every 33 ns from ten seconds on.
abbrev pub clocks : List (Timespec × Timespec)
clocks =
    (record { tv_sec = 10; tv_nsec = 5 }, record { tv_sec = 3; tv_nsec = 7 })
    ∷ (record { tv_sec = 10; tv_nsec = 40 }, record { tv_sec = 3; tv_nsec = 42 })
    ∷ []

abbrev pub frames : List (ℕ × List ℕ)
frames = (10_000_000_033, 1 ∷ 2 ∷ []) ∷ (10_000_000_066, 3 ∷ []) ∷ []

abbrev pub other_frames : List (ℕ × List ℕ)
other_frames = (10_000_000_033, 4 ∷ []) ∷ (10_000_000_066, 5 ∷ 6 ∷ 7 ∷ []) ∷ []

abbrev pub camera : List (ℕ × List ℕ) → Thread small_decoder
camera packets = thread (coming (stream_of packets end_stream_bytes) 0)

-- The second thread's connection times out after its first packet.
abbrev pub faulty : Thread small_decoder
faulty = thread (record {
  incoming = stream_of other_frames end_stream_bytes;
  script = whole ∷ whole ∷ whole ∷ fails 11 ∷ [];
  errno = 0;
})

abbrev pub both : List (Thread small_decoder)
both = camera frames ∷ camera other_frames ∷ []

abbrev pub one_faulty : List (Thread small_decoder)
one_faulty = camera frames ∷ faulty ∷ []

abbrev pub look : List Event
look = passes (true ∷ true ∷ []) ∷ passes (true ∷ true ∷ []) ∷ []

-- A recorder between two frames, and two frames that the server takes byte by byte.
abbrev one_by_one : ℕ → List Reply
one_by_one zero = []
one_by_one (suc n) = ok 1 ∷ one_by_one n

abbrev pub shots : List Shot
shots =
    record {
      real_time = record { tv_sec = 10; tv_nsec = 5 };
      mono_time = record { tv_sec = 3; tv_nsec = 7 };
      payload = 1 ∷ [];
      replies = one_by_one 13;
    }
    ∷ record {
      real_time = record { tv_sec = 10; tv_nsec = 40 };
      mono_time = record { tv_sec = 3; tv_nsec = 42 };
      payload = 2 ∷ [];
      replies = one_by_one 13;
    }
    ∷ []

abbrev pub recorder : Recorder prompt_codec
recorder = record {
  point = top;
  timestamp = 10_000_000_000;
  running = true;
  stream_end = false;
  frame_rdy = false;
  sem = 0;
  frame_counter = 0;
  frame_duration = 33;
  deadline = none;
  proc = record {
    conn = record {
      tcpfd = some 5;
      udpfd = none;
      server_ip = [];
      tcp_port = [];
      udp_port = [];
      frame_timestamps = [];
    };
    replies = [];
    errno = 0;
    events = [];
  };
  encoder = record { width = 1280; height = 720; pts_counter = 0; ctx = 0 };
}

pub recorder-Between : Between prompt_codec 10_000_000_000 33 0 5 recorder
recorder-Between = record {
  at_top = refl;
  runs = refl;
  recording = refl;
  period = refl;
  counted = refl;
  not_ending = refl;
  no_frame = refl;
  nothing_queued = refl;
  connected = refl;
}

abbrev encoder_after : ℕ → Videnc.Videnc prompt_codec
encoder_after n = record { width = 1280; height = 720; pts_counter = n; ctx = n }

pub encodes_shots : EncodesAll prompt_codec recorder.encoder shots
unfolding Videnc.encode_frame Videnc.recv_frame
encodes_shots = (
  encoder_after 1,
  (encoder_after 1, refl, refl),
  (encoder_after 2, (encoder_after 2, refl, refl), tt),
)
