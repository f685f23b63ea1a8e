-- ===== src/System/Whole.antt =====
-- All cameras at once: from the main loops of picam/src/main.cpp over the network and the threads of
-- frameset_server/src/stream_mgr.c to the framesets of frameset_server/src/main.c.
use hand_motion_capture.Prelude.{ℕ, suc, ◌+◌, ◌*◌, ◌<◌, ◌≡◌, List, [], ◌∷◌, All, length, u64_mod}
use hand_motion_capture.Timer.Schedule.{OnTime, frame_times}
use hand_motion_capture.Connection.State.{sent}
use hand_motion_capture.Videnc.{Avcodec}
use hand_motion_capture.Decoder
use hand_motion_capture.Recorder.{Recorder, Reach}
use hand_motion_capture.Recorder.Session.{Shot, Between}
use hand_motion_capture.StreamMgr.Wire.{coming}
use hand_motion_capture.StreamMgr.Streams.{IsReadable, stream_of, IsSupplied}
use hand_motion_capture.Frameset.Lanes.{Has}
use hand_motion_capture.System.{Thread}
use hand_motion_capture.System.Threads.{IsFresh}
use hand_motion_capture.System.Recording.{Records}
use hand_motion_capture.System.Session.{packets_of, Taken, clocks_of, EncodesAll}

module _ (av : Avcodec) (dv : Decoder.Avcodec) (Open : dv.Context → Type 0)
    (timestamp frame_duration : ℕ) where
  -- A recorder at the start of a recording, the frames to come, and the start of its thread in the server.
  -- `errno` is that of the thread, `fd` the recorder's socket.
  pub record Camera : Type 0 where
    pub recorder : Recorder av
    pub fd : ℕ
    pub shots : List Shot
    pub thread : Thread dv
    pub errno : ℕ

  abbrev first : ℕ
  first = timestamp + frame_duration * suc 0

  -- Nothing fails in the recording of this camera: the conditions of `recording_read`.
  pub record IsReady (c : Camera) : Type 0 where
    pub countable : length c.shots < u64_mod
    pub on_time : OnTime first frame_duration (clocks_of c.shots)
    pub taken : Taken first frame_duration c.shots
    pub encodes : EncodesAll av c.recorder.encoder c.shots
    pub between : Between av timestamp frame_duration 0 c.fd c.recorder
    pub nothing_sent : sent c.recorder.proc.events ≡ []
    pub readable :
        All (λ (p : ℕ × List ℕ). IsReadable p.0 p.1) (packets_of first frame_duration c.shots)
    pub fresh : IsFresh dv c.thread
    pub supplied : All IsSupplied c.thread.inputs
    pub a_turn_each : length c.thread.inputs ≡ length c.shots
    pub open_decoder : Open c.thread.viddec

  -- An execution of the recorder has taken all its frames and is between two of them again, has sent just
  -- their packets, and the thread reads these bytes.
  abbrev pub Connected : Camera → Thread dv → Type 0
  Connected c th =
      (s : Recorder av) × Reach av c.recorder s
      × Between av timestamp frame_duration (0 + length c.shots) c.fd s
      × (sent s.proc.events ≡ stream_of (packets_of first frame_duration c.shots) [])
      × (th ≡ record (c.thread) { stream = coming (sent s.proc.events) c.errno })

  abbrev pub AllConnected : List Camera → List (Thread dv) → Type 0
  AllConnected [] [] = Unit
  AllConnected (c ∷ cs) (th ∷ ths) = Connected c th × AllConnected cs ths
  AllConnected _ _ = ⊥

  -- The threads of all cameras, with what is known of them.
  record Threads (cs : List Camera) : Type 0 where
    threads : List (Thread dv)
    connected : AllConnected cs threads
    fresh : All (IsFresh dv) threads
    records : All (Records dv Open timestamp frame_duration) threads
    same_cameras : length threads ≡ length cs
    shots_in :
        (t : ℕ)
        → All (λ th. Has t (frame_times (length th.inputs) first frame_duration)) threads
        → All (λ c. Has t (frame_times (length c.shots) first frame_duration)) cs
