-- ===== src/Camera/Sizes.antt =====
-- The two computations of the plane sizes in picam/src/camera_handler.cpp, for planes of YUV420.
use hand_motion_capture.Prelude.{ℕ, ◌*◌, ◌/◌}
use hand_motion_capture.Camera.{Planes}

-- The planes of a YUV420 buffer.
abbrev pub yuv420 : ℕ → ℕ → Planes
yuv420 width height = record {
  y_length = width * height;
  u_length = width * height / 4;
  v_length = width * height / 4;
}
