-- ===== src/StreamController.antt =====
-- toolkit/common/src/stream_controller.cpp: the consumer of the framesets, with the copy into the shared
-- memory by the loop of frameset_server/src/main.c. `StreamController.Lifetime` has what the constructor
-- opens and the destructor releases.
pub mod Layout
pub mod Lifetime
mod Tests
use hand_motion_capture.Prelude.{
  ℕ, zero, suc, ◌+◌, ◌*◌, ◌/◌, List, [], ◌∷◌, ◌==◌, if◌then◌else◌, length, le_bytes, of_le_bytes,
}

-- The bytes of the shared memory by their offset.
abbrev pub Memory : Type 0
Memory = ℕ → ℕ

abbrev pub put : ℕ → ℕ → Memory → Memory
put at byte m i = if i == at then byte else m i

unfoldable pub memcpy : ℕ → List ℕ → Memory → Memory
memcpy at [] m = m
memcpy at (b ∷ bytes) m = memcpy (suc at) bytes (put at b m)

unfoldable pub bytes_at : ℕ → ℕ → Memory → List ℕ
bytes_at at zero m = []
bytes_at at (suc n) m = m at ∷ bytes_at (suc at) n m

-- The bytes of a picture in NV12.
abbrev pub frame_size : ℕ → ℕ → ℕ
frame_size frame_width frame_height = frame_width * frame_height * 3 / 2

-- The loop over the cameras, from camera `i` on.
unfoldable pub write_frames : ℕ → ℕ → List (List ℕ) → Memory → Memory
unfolding memcpy
write_frames frame_buf_size i [] m = m
write_frames frame_buf_size i (f ∷ frames) m =
    write_frames frame_buf_size (suc i) frames (memcpy (i * frame_buf_size) f m)

-- The pictures of all cameras, and the timestamp behind them.
unfoldable pub write_frameset : ℕ → List (List ℕ) → ℕ → Memory → Memory
unfolding write_frames memcpy
write_frameset frame_buf_size frames timestamp m =
    memcpy (frame_buf_size * length frames) (le_bytes 8 timestamp)
      (write_frames frame_buf_size 0 frames m)

-- The loop of `recv_frameset`, from camera `i` on, for so many cameras. The memory can change between two
-- copies: `memory` gives it for each camera.
unfoldable pub read_frames : ℕ → ℕ → ℕ → (ℕ → Memory) → List (List ℕ)
unfolding bytes_at
read_frames size i zero memory = []
read_frames size i (suc n) memory =
    bytes_at (i * size) size (memory i) ∷ read_frames size (suc i) n memory

unfoldable pub recv_frameset : ℕ → ℕ → (ℕ → Memory) → List (List ℕ) × ℕ
unfolding read_frames bytes_at
recv_frameset size num_cameras memory = (
  read_frames size 0 num_cameras memory,
  of_le_bytes (bytes_at (size * num_cameras) 8 (memory num_cameras)),
)
