-- ===== src/Recorder/Session.antt =====
-- A frame of a recording in picam/src/main.cpp, from the arming of its timer to the sending of its packet,
-- in which nothing fails.
use hand_motion_capture.Prelude.{
  ℕ, suc, ◌+◌, ◌*◌, ◌≤◌, ◌<◌, ◌≡◌, refl, true, false, List, [], ◌++◌, some, arith, length, u64_mod,
  add64,
}
use hand_motion_capture.Sys.{Reply, Progress}
use hand_motion_capture.Timer.{Timespec, Armed, clock_ns, arm_timer}
use hand_motion_capture.Timer.Schedule.{arm_timer_step}
use hand_motion_capture.Connection.State.{Proc, returns, success, sent}
use hand_motion_capture.Connection.{packet, stream_pkt}
use hand_motion_capture.Connection.Streams.{stream_pkt_stays}
use hand_motion_capture.Videnc
use hand_motion_capture.Videnc.{Avcodec}
use hand_motion_capture.Recorder.{
  top, woken, checking, encoding, ending, Recorder, process_frame, main_turn, request_complete,
  main_step, completed, answers, Reach, here, next,
}
use hand_motion_capture.Recorder.Stop.{Reach-trans, after_arming, arming_steps}

-- One frame: the readings of the clocks when its timer is armed, the packet that the encoder makes of it,
-- and what the system answers to the writes of the packet.
pub record Shot : Type 0 where
  pub real_time : Timespec
  pub mono_time : Timespec
  pub payload : List ℕ
  pub replies : List Reply

module _ (av : Avcodec) where
  -- The main loop between two frames of a recording.
  pub record Between (timestamp frame_duration counter fd : ℕ) (r : Recorder av) : Type 0 where
    pub at_top : r.point ≡ top
    pub runs : r.running ≡ true
    pub recording : r.timestamp ≡ timestamp
    pub period : r.frame_duration ≡ frame_duration
    pub counted : r.frame_counter ≡ counter
    pub not_ending : r.stream_end ≡ false
    pub no_frame : r.frame_rdy ≡ false
    pub nothing_queued : r.proc.conn.frame_timestamps ≡ []
    pub connected : r.proc.conn.tcpfd ≡ some fd

  -- The encoder makes this packet of the next frame.
  abbrev pub Encodes : Videnc.Videnc av → List ℕ → Videnc.Videnc av → Type 0
  Encodes v bytes v' =
      (u : Videnc.Videnc av) × (Videnc.encode_frame av v ≡ Videnc.Result.ok u)
      × (Videnc.recv_frame av u ≡ Videnc.Result.ok (some bytes, v'))

  module _ (r : Recorder av) (shot : Shot) (a : Armed) where
    abbrev armed_state : Recorder av
    armed_state = after_arming av shot.real_time shot.mono_time r a r.proc

    abbrev after_capture : Recorder av
    after_capture = record armed_state {
      frame_rdy = true;
      sem = suc r.sem;
      proc = record (armed_state.proc) { replies = shot.replies };
    }

    abbrev before_encoding : Recorder av
    before_encoding = record after_capture { point = encoding; frame_rdy = false; sem = r.sem }

    capture_steps : Reach av armed_state after_capture
    unfolding request_complete
    capture_steps =
        next
          (next {t = record armed_state { frame_rdy = true; sem = suc r.sem }} here
            (completed false refl))
          (answers shot.replies refl)

    wakeup_steps : r.stream_end ≡ false → Reach av after_capture before_encoding
    unfolding main_turn
    wakeup_steps e =
        next
          (next {t = record after_capture { point = checking; frame_rdy = false; sem = r.sem }}
            (next {t = record after_capture { point = woken; sem = r.sem }} here
              (main_step shot.real_time shot.mono_time refl))
            (main_step shot.real_time shot.mono_time refl))
          (main_step shot.real_time shot.mono_time (ground arith))

    abbrev after_frame : Proc → Videnc.Videnc av → Recorder av
    after_frame q v = record before_encoding { point = top; proc = q; encoder = v }

    encoding_steps :
        (q : Proc) (v : Videnc.Videnc av)
        → Encodes r.encoder shot.payload v
        → stream_pkt shot.payload before_encoding.proc ≡ returns success q
        → r.stream_end ≡ false
        → Reach av before_encoding (after_frame q v)
    unfolding main_turn process_frame
    encoding_steps q v (u, e, f) s n =
        next
          (next {t = record (after_frame q v) { point = ending }} here
            (main_step shot.real_time shot.mono_time (ground (arith, e, f, s))))
          (main_step shot.real_time shot.mono_time (ground arith))

  -- A frame whose timer is armed in time, with an encoder that makes a packet of it, on an open connection
  -- with writes that each take a byte or more: the loop gets from its head back to its head, and has sent
  -- the packet with the time that the timer was armed for.
  pub shot-Reach :
      (timestamp frame_duration counter fd : ℕ) (r : Recorder av) (shot : Shot)
      (v : Videnc.Videnc av)
      → 0 < timestamp
      → timestamp + frame_duration * suc counter < u64_mod
      → suc counter < u64_mod
      → clock_ns shot.real_time < timestamp + frame_duration * suc counter
      → Progress shot.replies
      → length (packet (timestamp + frame_duration * suc counter) shot.payload)
        ≤ length shot.replies
      → Encodes r.encoder shot.payload v
      → Between timestamp frame_duration counter fd r
      → (s : Recorder av) × Reach av r s
        × Between timestamp frame_duration (suc counter) fd s
        × (s.encoder ≡ v)
        × (sent s.proc.events
            ≡ sent r.proc.events ++ packet (timestamp + frame_duration * suc counter) shot.payload)
  shot-Reach timestamp frame_duration counter fd r shot v p h c l g n k b =
      let target = timestamp + frame_duration * suc counter in
      let (a, e, f, q) =
        arm_timer_step shot.real_time shot.mono_time timestamp frame_duration counter [] h c l in
      let arms : arm_timer shot.real_time shot.mono_time r.timestamp r.frame_duration
            (add64 r.frame_counter 1) r.proc.conn.frame_timestamps
          ≡ some a =
        rw (b.recording, b.period, b.counted, b.nothing_queued) e in
      let (z, t, m, o, d) =
        stream_pkt_stays shot.payload (before_encoding r shot a).proc target fd [] q b.connected g
          n in
      (
        after_frame r shot a z v,
        Reach-trans av
            (Reach-trans av
              (Reach-trans av
                (arming_steps av shot.real_time shot.mono_time r a r.proc b.at_top b.runs
                  (λ x. omega (arith, x, b.recording, p)) arms)
                (capture_steps r shot a))
              (wakeup_steps r shot a b.not_ending))
            (encoding_steps r shot a z v k t b.not_ending),
        record {
          at_top = refl;
          runs = b.runs;
          recording = b.recording;
          period = b.period;
          counted = f;
          not_ending = b.not_ending;
          no_frame = refl;
          nothing_queued = o;
          connected = d;
        },
        refl,
        m,
      )
