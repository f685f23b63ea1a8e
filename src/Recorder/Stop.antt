-- ===== src/Recorder/Stop.antt =====
-- The messages of the server and the end of a stream in picam/src/main.cpp.
use native.Mathlib.Nat.{pow-suc}
use hand_motion_capture.Prelude.{
  ℕ, zero, suc, ◌/◌, ◌^◌, ◌<◌, ◌≡◌, ◌≢◌, refl, ap, ◌∙◌, true, false, List, [], none, some, arith,
  leb, if◌then◌else◌, Bool-cases, inl, inr, length, take, take_all, length-take, le_bytes,
  of_le_bytes, add64, same_bytes, same_bytes_eq,
}
use hand_motion_capture.Timer.{Timespec, Armed, arm_timer}
use hand_motion_capture.Connection.State.{Proc, returns, success}
use hand_motion_capture.Connection.{end_stream, end_stream_bytes}
use hand_motion_capture.Connection.Streams.{end_stream_sends}
use hand_motion_capture.Connection.Transmit.{Sent}
use hand_motion_capture.Videnc
use hand_motion_capture.Videnc.{Avcodec}
use hand_motion_capture.Recorder.Flushing.{done, flush_encoder}
use hand_motion_capture.Recorder.{
  top, arming, waiting, woken, ending, ended, Recorder, arm, set_queue, stop_bytes, finish_stream,
  main_turn, io_signal_handler, Step, main_step, message, Reach, here, next,
}

-- The bytes of a number below 256 ^ k read back as that number.
pub of_le_bytes-le_bytes : (k n : ℕ) → n < 256 ^ k → of_le_bytes (le_bytes k n) ≡ n
unfolding of_le_bytes le_bytes
of_le_bytes-le_bytes zero n h = omega arith
of_le_bytes-le_bytes (suc k) n h =
    omega (arith, of_le_bytes-le_bytes k (n / 256) (omega (arith, pow-suc 256 k)))

pub length-le_bytes : (k n : ℕ) → length (le_bytes k n) ≡ k
unfolding le_bytes
length-le_bytes zero n = refl
length-le_bytes (suc k) n = ap suc (length-le_bytes k (n / 256))

stop-length : (datagram : List ℕ) → same_bytes datagram stop_bytes ≡ true → length datagram ≡ 4
stop-length datagram h = ap (length {0}) (same_bytes_eq datagram stop_bytes h)

module _ (av : Avcodec) where
  -- What a datagram does: one of 8 bytes or more sets the timestamp to its first 8 bytes and posts,
  -- "STOP" clears the timestamp, asks for the end of the stream and posts, and any other changes
  -- nothing.
  pub message_effect :
      (datagram : List ℕ) (r : Recorder av)
      → io_signal_handler av (some datagram) r ≡ (
          if leb 8 (length datagram)
          then record r { timestamp = of_le_bytes (take 8 datagram); sem = suc r.sem }
          else if same_bytes datagram stop_bytes
          then record r { timestamp = 0; stream_end = true; sem = suc r.sem }
          else r)
  unfolding io_signal_handler
  message_effect datagram r = elim (Bool-cases (leb 8 (length datagram))) [
    | inl long ↦ rw long (ground (arith, length-take 8 datagram))
    | inr short ↦
        rw (short, take_all 8 datagram (ground arith)) (ground (arith, stop-length datagram))
  ]

  -- A timestamp below 2^64 that is sent as 8 little-endian bytes is read back as it was, and posts
  -- once.
  pub timestamp_message :
      (t : ℕ) (r : Recorder av)
      → t < 2 ^ 64
      → io_signal_handler av (some (le_bytes 8 t)) r ≡ record r { timestamp = t; sem = suc r.sem }
  timestamp_message t r h =
      let eight : leb 8 (length (le_bytes 8 t)) ≡ true = ground (arith, length-le_bytes 8 t) in
      let whole : take 8 (le_bytes 8 t) ≡ le_bytes 8 t =
        take_all 8 (le_bytes 8 t) (omega (arith, length-le_bytes 8 t)) in
      message_effect (le_bytes 8 t) r ∙ rw (eight, whole, of_le_bytes-le_bytes 8 t h)

  -- How the queue of timestamps fares when the stream is ended.
  finish_stream_keeps :
      (r : Recorder av) (v v' : Videnc.Videnc av) (p : Proc)
      → Videnc.flush av r.encoder ≡ Videnc.Result.ok v
      → Videnc.recv_frame av v ≡ Videnc.Result.ok (none, v')
      → end_stream r.proc ≡ returns success p
      → (finish_stream av r
          ≡ done (record r {
            point = top;
            proc = p;
            encoder = Videnc.make av r.encoder.width r.encoder.height;
          }))
        × (p.conn.frame_timestamps ≡ r.proc.conn.frame_timestamps)
  unfolding finish_stream flush_encoder
  finish_stream_keeps r v v' p f g e =
      let s : Sent _ end_stream_bytes [] r.proc p = rw e at (end_stream_sends r.proc) in
      (ground (arith, f, g, e), s.same_timestamps)

  -- The states that a stop passes through, when it comes between the arming of a timer and its
  -- expiry.
  module _ (real_time mono_time : Timespec) (r : Recorder av) (a : Armed) (p : Proc) where
    abbrev pub after_arming : Recorder av
    after_arming = record r {
      point = waiting;
      frame_counter = a.frame_counter;
      deadline = some a.deadline;
      proc = set_queue a.frame_timestamps r.proc;
    }

    abbrev after_stop : Recorder av
    after_stop = record after_arming { timestamp = 0; stream_end = true; sem = suc r.sem }

    abbrev after_end : Recorder av
    after_end = record after_stop {
      sem = r.sem;
      point = top;
      stream_end = false;
      frame_counter = 0;
      proc = p;
      encoder = Videnc.make av r.encoder.width r.encoder.height;
    }

    abbrev at_end : Recorder av
    at_end = record after_stop { sem = r.sem; point = ended; stream_end = false; frame_counter = 0 }

    pub arming_steps :
        r.point ≡ top
        → r.running ≡ true
        → r.timestamp ≢ 0
        → arm_timer real_time mono_time r.timestamp r.frame_duration
            (add64 r.frame_counter 1)
            r.proc.conn.frame_timestamps
          ≡ some a
        → Reach av r after_arming
    unfolding main_turn arm
    arming_steps w go t e =
        next
          (next {t = record r { point = arming }} here
            (main_step real_time mono_time (ground arith)))
          (main_step real_time mono_time (ground arith))

    stop-Step : Step av after_arming after_stop
    unfolding io_signal_handler
    stop-Step = message (some stop_bytes) refl

    ending_steps :
        r.frame_rdy ≡ false
        → finish_stream av at_end ≡ done after_end
        → Reach av after_stop after_end
    unfolding main_turn
    ending_steps f e =
        next
          (next {t = at_end}
            (next {t = record after_stop { sem = r.sem; point = ending }}
              (next {t = record after_stop { sem = r.sem; point = woken }} here
                (main_step real_time mono_time refl))
              (main_step real_time mono_time (ground arith)))
            (main_step real_time mono_time refl))
          (main_step real_time mono_time e)

  pub Reach-trans : {r s t : Recorder av} → Reach av r s → Reach av s t → Reach av r t
  Reach-trans p here = p
  Reach-trans p (next q step) = next (Reach-trans p q) step

  -- From the head of the loop, in a recording with no frame ready, if the timer is armed, "STOP" comes
  -- before it expires, the encoder is flushed without a packet and the server takes the notice, then
  -- the program gets back to the head of the loop with timestamp and counter cleared and a new encoder,
  -- but with the queue of timestamps as `arm_timer` left it.
  pub stop_leaves_timestamp :
      (real_time mono_time : Timespec) (r : Recorder av) (a : Armed) (v v' : Videnc.Videnc av)
      (p : Proc)
      → r.point ≡ top
      → r.running ≡ true
      → r.timestamp ≢ 0
      → r.frame_rdy ≡ false
      → arm_timer real_time mono_time r.timestamp r.frame_duration
          (add64 r.frame_counter 1)
          r.proc.conn.frame_timestamps
        ≡ some a
      → Videnc.flush av r.encoder ≡ Videnc.Result.ok v
      → Videnc.recv_frame av v ≡ Videnc.Result.ok (none, v')
      → end_stream (set_queue a.frame_timestamps r.proc) ≡ returns success p
      → (s : Recorder av) × Reach av r s
        × (s.point ≡ top)
        × (s.timestamp ≡ 0)
        × (s.frame_counter ≡ 0)
        × (s.encoder ≡ Videnc.make av r.encoder.width r.encoder.height)
        × (s.proc.conn.frame_timestamps ≡ a.frame_timestamps)
  stop_leaves_timestamp real_time mono_time r a v v' p w go t f e g h k =
      let (finish, same) = finish_stream_keeps (at_end real_time mono_time r a p) v v' p g h k in
      (
        after_end real_time mono_time r a p,
        Reach-trans
            (next (arming_steps real_time mono_time r a p w go t e)
              (stop-Step real_time mono_time r a p))
            (ending_steps real_time mono_time r a p f finish),
        refl,
        refl,
        refl,
        refl,
        same,
      )
