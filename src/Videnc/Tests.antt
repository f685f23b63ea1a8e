-- ===== src/Videnc/Tests.antt =====
-- The construction of picam/src/videnc.cpp at concrete outcomes.
use hand_motion_capture.Prelude.{refl, true, false, ◌≡◌}
use hand_motion_capture.Videnc.Resources.{nothing_held, Outcomes, threw, init_encoder}

-- The last allocation fails.
abbrev no_packet : Outcomes
no_packet = record {
  finds_encoder = true;
  allocates_context = true;
  opens_codec = true;
  allocates_frame = true;
  gets_buffer = true;
  allocates_packet = false;
}

gives_up : init_encoder no_packet ≡ threw nothing_held
unfolding init_encoder
gives_up = refl
