-- ===== src/Camera/Capture.antt =====
-- picam/src/camera_handler.cpp: the controls with which `init_camera_controls` starts the camera, and
-- `queue_request`.
use hand_motion_capture.Prelude.{
  ℕ, suc, ◌-◌, ◌<◌, ◌≡◌, ◌^◌, Bool, false, ℤ, pos, negsuc, arith, u32_mod, ltb, if◌then◌else◌,
}
use hand_motion_capture.Sys.{Reply, ok, fail}

-- `FrameDurationLimits`, `AeEnable` and `ExposureTime`, in microseconds.
pub record Controls : Type 0 where
  pub shortest_frame : ℕ
  pub longest_frame : ℕ
  pub ae_enable : Bool
  pub exposure_time : ℤ

-- An `int` as an `unsigned int`, and back.
unfoldable pub to_unsigned_int : ℤ → ℕ
to_unsigned_int (pos n) = n
to_unsigned_int (negsuc n) = u32_mod - suc n

unfoldable pub to_int : ℕ → ℤ
to_int n = if ltb n (2 ^ 31) then pos n else negsuc (u32_mod - suc n)

unfoldable pub camera_controls : ℤ → ℤ → Controls
unfolding to_unsigned_int to_int
camera_controls frame_duration_min frame_duration_max = record {
  shortest_frame = to_unsigned_int frame_duration_min;
  longest_frame = to_unsigned_int frame_duration_max;
  ae_enable = false;
  exposure_time = to_int (to_unsigned_int frame_duration_min);
}

-- `queue_request` returns, or throws, also where the handler of the timer's signal calls it.
pub data Requested : Type 0 where
  queued raised : Requested

unfoldable pub queue_request : Reply → Requested
queue_request (ok n) = queued
queue_request (fail e) = raised

-- The exposure is the shortest frame duration, whole.
pub camera_controls-exposure :
    (low high : ℕ) → low < 2 ^ 31 → (camera_controls (pos low) (pos high)).exposure_time ≡ pos low
unfolding camera_controls
camera_controls-exposure low high h = ground arith
