-- ===== src/StreamController/Layout.antt =====
-- The layout of the shared memory, which frameset_server/src/main.c writes and
-- toolkit/common/src/stream_controller.cpp reads.
use native.Mathlib.Nat.{mul_comm, suc-mul, mul-le-mul_right}
use hand_motion_capture.Prelude.{
  ℕ, zero, suc, ◌+◌, ◌*◌, ◌≤◌, ◌<◌, ◌≡◌, refl, ap, ◌∙◌, subst, List, [], ◌∷◌, arith, ◌⊎◌, inl, inr,
  length, All, le_bytes, of_le_bytes, u64_mod,
}
use hand_motion_capture.Recorder.Stop.{of_le_bytes-le_bytes, length-le_bytes}
use hand_motion_capture.StreamController.{
  Memory, put, memcpy, bytes_at, write_frames, write_frameset, read_frames, recv_frameset,
}

-- A byte outside what is copied stays.
memcpy-outside :
    (at : ℕ) (bytes : List ℕ) (m : Memory) (i : ℕ)
    → (i < at) ⊎ (at + length bytes ≤ i)
    → memcpy at bytes m i ≡ m i
unfolding memcpy
memcpy-outside at [] m i o = refl
memcpy-outside at (b ∷ bytes) m i o =
    memcpy-outside (suc at) bytes (put at b m) i (ground (arith, o)) ∙ ground (arith, o)

bytes_at-memcpy :
    (at : ℕ) (bytes : List ℕ) (m : Memory) → bytes_at at (length bytes) (memcpy at bytes m) ≡ bytes
unfolding memcpy bytes_at
bytes_at-memcpy at [] m = refl
bytes_at-memcpy at (b ∷ bytes) m =
    let same : memcpy (suc at) bytes (put at b m) at ≡ b =
      memcpy-outside (suc at) bytes (put at b m) at (inl (omega arith)) ∙ ground arith in
    rw (same, bytes_at-memcpy (suc at) bytes (put at b m)) refl

-- A range of which no byte is copied to is read as before.
bytes_at-outside :
    (from n at : ℕ) (bytes : List ℕ) (m : Memory)
    → (from + n ≤ at) ⊎ (at + length bytes ≤ from)
    → bytes_at from n (memcpy at bytes m) ≡ bytes_at from n m
unfolding bytes_at
bytes_at-outside from zero at bytes m o = refl
bytes_at-outside from (suc n) at bytes m o =
    rw
      (
        memcpy-outside at bytes m from (ground (arith, o)),
        bytes_at-outside (suc from) n at bytes m (ground (arith, o)),
      )
      refl

-- Frames behind a range leave it as it is.
bytes_at-write_frames :
    (size from n i : ℕ) (frames : List (List ℕ)) (m : Memory)
    → from + n ≤ i * size
    → bytes_at from n (write_frames size i frames m) ≡ bytes_at from n m
unfolding write_frames
bytes_at-write_frames size from n i [] m l = refl
bytes_at-write_frames size from n i (f ∷ frames) m l =
    bytes_at-write_frames size from n (suc i) frames (memcpy (i * size) f m)
      (omega (arith, l, suc-mul i size))
    ∙ bytes_at-outside from n (i * size) f m (inl l)

frame_read :
    (size i at : ℕ) (f bytes : List ℕ) (frames : List (List ℕ)) (m : Memory)
    → length f ≡ size
    → suc i * size ≤ at
    → bytes_at (i * size) size (memcpy at bytes (write_frames size i (f ∷ frames) m)) ≡ f
unfolding write_frames
frame_read size i at f bytes frames m e l =
    let m' = memcpy (i * size) f m in
    bytes_at-outside (i * size) size at bytes (write_frames size (suc i) frames m')
      (inl (omega (arith, l, suc-mul i size)))
    ∙ (bytes_at-write_frames size (i * size) size (suc i) frames m' (omega (arith, suc-mul i size))
        ∙ subst (λ (n : ℕ). bytes_at (i * size) n m' ≡ f) e (bytes_at-memcpy (i * size) f m))

shifted : (size i n : ℕ) → (suc i + n) * size ≡ (i + suc n) * size
shifted size i n = ap (λ (k : ℕ). k * size) (omega arith)

frames_read :
    (size i at : ℕ) (bytes : List ℕ) (frames : List (List ℕ)) (m : Memory)
    → All (λ f. length f ≡ size) frames
    → (i + length frames) * size ≤ at
    → read_frames size i (length frames) (λ k. memcpy at bytes (write_frames size i frames m))
      ≡ frames
unfolding read_frames write_frames
frames_read size i at bytes [] m h l = refl
frames_read size i at bytes (f ∷ frames) m (e, h) l =
    let enough : suc i * size ≤ (i + suc (length frames)) * size =
      mul-le-mul_right size (omega arith) in
    let rest : (suc i + length frames) * size ≤ at =
      omega (arith, l, shifted size i (length frames)) in
    rw
      (
        frame_read size i at f bytes frames m e (omega (arith, enough, l)),
        frames_read size (suc i) at bytes frames (memcpy (i * size) f m) h rest,
      )
      refl

read_frames-still :
    (size i n : ℕ) (memory : ℕ → Memory) (m : Memory)
    → ((k : ℕ) → memory k ≡ m)
    → read_frames size i n memory ≡ read_frames size i n (λ k. m)
unfolding read_frames
read_frames-still size i zero memory m h = refl
read_frames-still size i (suc n) memory m h =
    rw (h i, read_frames-still size (suc i) n memory m h) refl

from_zero : (size n : ℕ) → (0 + n) * size ≡ size * n
from_zero size n = ap (λ (k : ℕ). k * size) (omega arith) ∙ mul_comm n size

write_frames-outside :
    (size k i : ℕ) (frames : List (List ℕ)) (m : Memory)
    → All (λ f. length f ≡ size) frames
    → (k + length frames) * size ≤ i
    → write_frames size k frames m i ≡ m i
unfolding write_frames
write_frames-outside size k i [] m h l = refl
write_frames-outside size k i (f ∷ frames) m (e, h) l =
    let s = shifted size k (length frames) in
    let enough : suc k * size ≤ (k + suc (length frames)) * size =
      mul-le-mul_right size (omega arith) in
    write_frames-outside size (suc k) i frames (memcpy (k * size) f m) h (omega (arith, l, s))
    ∙ memcpy-outside (k * size) f m i (inr (omega (arith, e, l, enough, suc-mul k size)))

-- If every camera's picture has the size of a frame, the timestamp is below 2^64, and the memory does not
-- change while it is read, `recv_frameset` gets the pictures and the timestamp that the loop of the server
-- has written, whatever the memory held before.
pub recv_frameset-write_frameset :
    (size timestamp : ℕ) (frames : List (List ℕ)) (before : Memory) (memory : ℕ → Memory)
    → All (λ f. length f ≡ size) frames
    → timestamp < u64_mod
    → ((k : ℕ) → memory k ≡ write_frameset size frames timestamp before)
    → recv_frameset size (length frames) memory ≡ (frames, timestamp)
unfolding recv_frameset write_frameset
recv_frameset-write_frameset size timestamp frames before memory h t still =
    let at = size * length frames in
    let written = write_frames size 0 frames before in
    let whole : (0 + length frames) * size ≤ at = omega (arith, from_zero size (length frames)) in
    let time : of_le_bytes (bytes_at at 8 (memcpy at (le_bytes 8 timestamp) written)) ≡ timestamp =
      subst
        (λ (n : ℕ).
          of_le_bytes (bytes_at at n (memcpy at (le_bytes 8 timestamp) written)) ≡ timestamp)
        (length-le_bytes 8 timestamp)
        (ap of_le_bytes (bytes_at-memcpy at (le_bytes 8 timestamp) written)
          ∙ of_le_bytes-le_bytes 8 timestamp (omega (arith, t))) in
    rw
      (
        still (length frames),
        time,
        read_frames-still size 0 (length frames) memory (memcpy at (le_bytes 8 timestamp) written)
            still,
        frames_read size 0 at (le_bytes 8 timestamp) frames before h whole,
      )
      refl

-- The copy of a frameset stays within the size of the shared memory.
pub write_frameset-outside :
    (size timestamp : ℕ) (frames : List (List ℕ)) (before : Memory) (i : ℕ)
    → All (λ f. length f ≡ size) frames
    → size * length frames + 8 ≤ i
    → write_frameset size frames timestamp before i ≡ before i
unfolding write_frameset
write_frameset-outside size timestamp frames before i h l =
    memcpy-outside (size * length frames) (le_bytes 8 timestamp) (write_frames size 0 frames before)
      i (inr (omega (arith, l, length-le_bytes 8 timestamp)))
    ∙ write_frames-outside size 0 i frames before h
        (omega (arith, l, from_zero size (length frames)))
