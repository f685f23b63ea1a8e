-- ===== src/Decoder/Tests.antt =====
-- The set-up of the decoder on a machine where it fails.
use hand_motion_capture.Prelude.{◌≡◌, refl, true, false, pos}
use hand_motion_capture.Decoder.Resources.{Answers, init_decoder, nothing_held}

-- No memory for the packet.
abbrev no_packet : Answers
no_packet = record {
  finds_decoder = true;
  allocates_context = true;
  create_device = pos 0;
  references_device = true;
  open_codec = pos 0;
  allocates_frame = true;
  allocates_hw_frame = true;
  allocates_packet = false;
  get_buffer = pos 0;
}

frees_all : (init_decoder no_packet).1 ≡ nothing_held
unfolding init_decoder
frees_all = refl
