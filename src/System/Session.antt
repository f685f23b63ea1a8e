-- ===== src/System/Session.antt =====
-- A recording from the main loop of picam/src/main.cpp to the thread of frameset_server/src/stream_mgr.c that
-- reads it.
use native.Mathlib.Nat.{add-zero}
use hand_motion_capture.Prelude.{
  ℕ, suc, ◌+◌, ◌*◌, ◌≤◌, ◌<◌, ◌≡◌, refl, sym, ap, ◌∙◌, List, [], ◌∷◌, ◌++◌, map, arith, length,
  u64_mod, append_assoc, append-nil,
}
use hand_motion_capture.Sys.{Progress}
use hand_motion_capture.Timer.{Timespec}
use hand_motion_capture.Timer.Schedule.{OnTime, frame_times}
use hand_motion_capture.Connection.State.{sent}
use hand_motion_capture.Connection.{packet}
use hand_motion_capture.Videnc
use hand_motion_capture.Videnc.{Avcodec}
use hand_motion_capture.Recorder.{Recorder, Reach, here}
use hand_motion_capture.Recorder.Stop.{Reach-trans}
use hand_motion_capture.Recorder.Session.{Shot, Between, Encodes, shot-Reach}
use hand_motion_capture.Decoder
use hand_motion_capture.StreamMgr.Streams.{stream_of}

-- The packets of a recording whose next frame is due at `next`.
abbrev pub packets_of : ℕ → ℕ → List Shot → List (ℕ × List ℕ)
packets_of next period [] = []
packets_of next period (s ∷ ss) = (next, s.payload) ∷ packets_of (next + period) period ss

-- The server takes a byte or more in each write, and the replies are enough for the packet.
abbrev pub Taken : ℕ → ℕ → List Shot → Type 0
Taken next period [] = Unit
Taken next period (s ∷ ss) =
    Progress s.replies
    × ((length (packet next s.payload) ≤ length s.replies) × Taken (next + period) period ss)

abbrev pub clocks_of : List Shot → List (Timespec × Timespec)
clocks_of = map (λ s. (s.real_time, s.mono_time))

sent_more :
    (xs ys zs p rest rest' : List ℕ)
    → ys ≡ xs ++ p
    → zs ≡ ys ++ rest'
    → rest ≡ rest'
    → zs ≡ xs ++ (p ++ rest)
sent_more xs ys zs p rest rest' e f g = f ∙ rw (e, g) (append_assoc xs p rest')

module _ (av : Avcodec) where
  -- The encoder makes these packets of the next frames, each of its frame.
  abbrev pub EncodesAll : Videnc.Videnc av → List Shot → Type 0
  EncodesAll v [] = Unit
  EncodesAll v (s ∷ ss) = (v' : Videnc.Videnc av) × Encodes av v s.payload v' × EncodesAll v' ss

  -- From between two frames of a recording, with timers armed in time, an encoder that makes a packet of
  -- each frame, and an open connection with writes that each take a byte or more, the main loop can go
  -- through any number of frames, and then it has sent their packets one after the other, the packet of
  -- the n-th frame with the time `timestamp + n * frame_duration`.
  pub recording_sends :
      (timestamp frame_duration counter fd : ℕ) (shots : List Shot) (r : Recorder av)
      → 0 < timestamp
      → counter + length shots < u64_mod
      → OnTime (timestamp + frame_duration * suc counter) frame_duration (clocks_of shots)
      → Taken (timestamp + frame_duration * suc counter) frame_duration shots
      → EncodesAll r.encoder shots
      → Between av timestamp frame_duration counter fd r
      → (s : Recorder av) × Reach av r s
        × Between av timestamp frame_duration (counter + length shots) fd s
        × (sent s.proc.events
            ≡ sent r.proc.events
              ++ stream_of
                  (packets_of (timestamp + frame_duration * suc counter) frame_duration shots)
                  [])
  recording_sends timestamp frame_duration counter fd [] r p c o t e b =
      (r, here, rw add-zero b, sym (append-nil (sent r.proc.events)))
  recording_sends timestamp frame_duration counter fd (shot ∷ shots) r p c (l, h, os) (g, (n, ts))
        (v, k, es) b =
      let next : timestamp + frame_duration * suc counter + frame_duration
          ≡ timestamp + frame_duration * suc (suc counter) =
        omega arith in
      let (z, way, b', x, m) =
        shot-Reach av timestamp frame_duration counter fd r shot v p h (omega (arith, c)) l g n k
          b in
      let (s, way', b'', m') =
        recording_sends timestamp frame_duration (suc counter) fd shots z p (omega (arith, c))
          (rw next at os) (rw next at ts) (rw (sym x) at es) b' in
      let count : suc counter + length shots ≡ counter + suc (length shots) = omega arith in
      (
        s,
        Reach-trans av way way',
        rw count at b'',
        sent_more (sent r.proc.events) (sent z.proc.events) (sent s.proc.events)
            (packet (timestamp + frame_duration * suc counter) shot.payload) _ _ m m'
            (ap (λ (t : ℕ). stream_of (packets_of t frame_duration shots) []) next),
      )

pub times_of-packets :
    (next period : ℕ) (shots : List Shot)
    → map (λ (p : ℕ × List ℕ). p.0) (packets_of next period shots)
      ≡ frame_times (length shots) next period
times_of-packets next period [] = refl
times_of-packets next period (s ∷ ss) = ap (◌∷◌ next) (times_of-packets (next + period) period ss)

pub length-packets_of :
    (next period : ℕ) (shots : List Shot) → length (packets_of next period shots) ≡ length shots
length-packets_of next period [] = refl
length-packets_of next period (s ∷ ss) = ap suc (length-packets_of (next + period) period ss)
