-- ===== src/Camera/Tests.antt =====
-- The theorems on picam/src/camera_handler.cpp at the shipped frame size and at one that fails.
use hand_motion_capture.Prelude.{◌≡◌, refl, pos, some, none, true, false}
use hand_motion_capture.Camera.{
  frame_bytes_of, planes_match, Taken, nothing_taken, valid, Answers, built, threw, construct,
  destroy,
}
use hand_motion_capture.Camera.Sizes.{yuv420}

odd_size : planes_match (yuv420 3 5) (frame_bytes_of 15) ≡ false
unfolding planes_match frame_bytes_of
odd_size = refl

-- Everything goes well but the start of the camera.
abbrev not_starting : Answers
not_starting = record {
  manager_starts = true;
  has_cameras = true;
  gets_camera = true;
  acquires = true;
  generates = true;
  first_validation = valid;
  second_validation = valid;
  configures = true;
  allocates = true;
  creates_request = true;
  adds_buffer = true;
  planes = yuv420 1280 720;
  maps = true;
  starts = false;
}

abbrev everything : Taken
everything = record {
  manager_started = true;
  acquired = true;
  allocated = true;
  mapped = true;
  started = true;
}

-- The camera stays acquired and the buffer mapped.
fails_at_start :
    construct not_starting (pos 1280) (pos 720)
    ≡ some (threw (record nothing_taken { acquired = true; mapped = true }))
unfolding construct planes_match
fails_at_start = refl

-- What is built is given back.
gives_back :
    (construct (record not_starting { starts = true }) (pos 1280) (pos 720)
      ≡ some (built everything))
    × (destroy everything ≡ nothing_taken)
unfolding construct planes_match destroy
gives_back = (refl, refl)

-- 70000 * 70000 is no `int`.
too_large : construct not_starting (pos 70000) (pos 70000) ≡ none
unfolding construct
too_large = refl
