-- ===== src/Timer.antt =====
-- The capture timer of picam/src/main.cpp: `arm_timer`, with both clock readings as arguments.
pub mod Schedule
mod Tests
use hand_motion_capture.Prelude.{
  ℕ, ◌+◌, ◌-◌, ◌*◌, ◌/◌, ◌%◌, Option, none, some, List, [], ◌∷◌, ◌++◌, u32_mod, add64, sub64, mul64,
  ◌==◌, if◌then◌else◌,
}

abbrev pub ns_per_s : ℕ
ns_per_s = 1_000_000_000

-- `struct timespec`.
pub record Timespec : Type 0 where
  pub tv_sec : ℕ
  pub tv_nsec : ℕ

-- What `arm_timer` leaves behind: the counter, the queue `frame_timestamps` of the connection,
-- oldest first, and the one-shot deadline given to `timer_settime`.
pub record Armed : Type 0 where
  pub frame_counter : ℕ
  pub frame_timestamps : List ℕ
  pub deadline : Timespec

-- A clock reading in nanoseconds, as a `uint64_t`.
unfoldable pub clock_ns : Timespec → ℕ
clock_ns t = add64 (mul64 t.tv_sec ns_per_s) t.tv_nsec

-- `mono_target_ns` split for `its.it_value`.
unfoldable pub split_ns : ℕ → Timespec
split_ns ns = record { tv_sec = ns / ns_per_s; tv_nsec = ns % ns_per_s }

-- The part after the branch: push the target and set the timer.
unfoldable pub set_timer : ℕ → List ℕ → ℕ → ℕ → ℕ → Armed
unfolding split_ns
set_timer mono_ns queue counter target until = record {
  frame_counter = counter;
  frame_timestamps = queue ++ target ∷ [];
  deadline = split_ns (add64 mono_ns until);
}

-- The catch-up branch, taken where `ns_until_target <= 0`. `-ns_until_target` is unsigned, and
-- `frames_elapsed` is a `uint32_t`. A zero `frame_duration` traps in the division: `none`.
unfoldable pub catch_up : ℕ → ℕ → List ℕ → ℕ → ℕ → ℕ → Option Armed
unfolding set_timer
catch_up mono_ns frame_duration queue counter target until =
    let frames_elapsed = (sub64 0 until / frame_duration + 1) % u32_mod in
    let ns_elapsed = mul64 frames_elapsed frame_duration in
    if frame_duration == 0
    then none
    else some (
        set_timer mono_ns queue (add64 counter frames_elapsed)
          (add64 target (mul64 frame_duration frames_elapsed)) (add64 until ns_elapsed))

-- An unsigned number is `<= 0` exactly where it is 0.
unfoldable pub arm_timer : Timespec → Timespec → ℕ → ℕ → ℕ → List ℕ → Option Armed
unfolding clock_ns catch_up set_timer
arm_timer real_time mono_time timestamp frame_duration counter queue =
    let target = add64 timestamp (mul64 frame_duration counter) in
    let ns_until_target = sub64 target (clock_ns real_time) in
    if ns_until_target == 0
    then catch_up (clock_ns mono_time) frame_duration queue counter target ns_until_target
    else some (set_timer (clock_ns mono_time) queue counter target ns_until_target)

-- The calls of one recording, on the readings of both clocks at each call: `main` increments the
-- counter before each.
unfoldable pub arm_all : List (Timespec × Timespec) → ℕ → ℕ → ℕ → List ℕ → Option (ℕ × List ℕ)
unfolding arm_timer
arm_all [] timestamp frame_duration counter queue = some (counter, queue)
arm_all ((real_time, mono_time) ∷ rest) timestamp frame_duration counter queue =
    elim (arm_timer real_time mono_time timestamp frame_duration (add64 counter 1) queue) [
      | none ↦ none
      | some a ↦ arm_all rest timestamp frame_duration a.frame_counter a.frame_timestamps
    ]
