-- ===== src/Videnc/Sample.antt =====
-- A small codec, for runs of the code that uses picam/src/videnc.cpp.
use hand_motion_capture.Prelude.{ℕ, suc, true, [], ◌∷◌}
use hand_motion_capture.Videnc.{Avcodec, Received, packet}

-- A codec that takes every frame and holds the packets back.
abbrev pub small_codec : Avcodec
small_codec = record {
  Context = ℕ;
  opened = 0;
  is_writable = λ n. true;
  send_frame = λ frame n. (true, suc n);
  receive_packet = λ n. (Received.again, n);
}

-- A codec that makes a packet of each frame at once: the number of frames so far.
abbrev pub prompt_codec : Avcodec
prompt_codec = record {
  Context = ℕ;
  opened = 0;
  is_writable = λ n. true;
  send_frame = λ frame n. (true, suc n);
  receive_packet = λ n. (packet (n ∷ []), n);
}
