-- ===== src/Timer/Schedule.antt =====
-- What `arm_timer` of picam/src/main.cpp schedules, against the real-time clock.
use native.Mathlib.Nat.{add-zero, zero-div, mod-eq_of_lt}
use hand_motion_capture.Prelude.{
  ℕ, zero, suc, ◌+◌, ◌-◌, ◌*◌, ◌≤◌, ◌<◌, ◌≡◌, refl, some, List, [], ◌∷◌, ◌++◌, append_assoc,
  append-nil, arith, u64_mod, add64, sub64, mul64, ◌==◌, Returns, length, Bool-cases, inl, inr,
}
use hand_motion_capture.Timer.{
  ns_per_s, Timespec, Armed, clock_ns, set_timer, catch_up, arm_timer, arm_all,
}

-- A deadline as the kernel reads it, in nanoseconds of the monotonic clock.
abbrev pub deadline_ns : Armed → ℕ
deadline_ns a = a.deadline.tv_sec * ns_per_s + a.deadline.tv_nsec

clock_ns-lt : (t : Timespec) → clock_ns t < u64_mod
unfolding clock_ns
clock_ns-lt t = omega arith

-- The counter, the target pushed and the deadline that a call leaves.
pub record Schedules (queue : List ℕ) (counter target deadline : ℕ) (a : Armed) : Type 0 where
  pub counts : a.frame_counter ≡ counter
  pub pushes : a.frame_timestamps ≡ queue ++ target ∷ []
  pub expires : deadline_ns a ≡ deadline
  pub in_second : a.deadline.tv_nsec < ns_per_s

set_timer-Schedules :
    (mono_ns : ℕ) (queue : List ℕ) (counter target until : ℕ)
    → Schedules queue counter target
        (add64 mono_ns until)
        (set_timer mono_ns queue counter target until)
unfolding set_timer
set_timer-Schedules mono_ns queue counter target until = ground arith

-- The target pushed is frame number `a.frame_counter` of the schedule, and the deadline is as far
-- from the reading of the monotonic clock as that target is from the real-time clock's, modulo the
-- word size.
pub record OnSchedule (real_time mono_time : Timespec) (timestamp frame_duration : ℕ)
    (queue : List ℕ) (a : Armed) : Type 0 where
  pub pushes :
      a.frame_timestamps ≡ queue ++ add64 timestamp (mul64 frame_duration a.frame_counter) ∷ []
  pub expires :
      deadline_ns a
      ≡ add64
          (clock_ns mono_time)
          (sub64 (add64 timestamp (mul64 frame_duration a.frame_counter)) (clock_ns real_time))

next_target :
    (timestamp frame_duration counter : ℕ)
    → counter + 1 < u64_mod
    → add64 (add64 timestamp (mul64 frame_duration counter)) (mul64 frame_duration 1)
      ≡ add64 timestamp (mul64 frame_duration (add64 counter 1))
next_target timestamp frame_duration counter h = rw (mod-eq_of_lt h) (omega arith)

catch_up_zero :
    (mono_ns frame_duration : ℕ) (queue : List ℕ) (counter target until : ℕ)
    → 0 < frame_duration
    → until ≡ 0
    → catch_up mono_ns frame_duration queue counter target until
      ≡ some (
          set_timer mono_ns queue
            (add64 counter 1)
            (add64 target (mul64 frame_duration 1))
            (add64 0 (mul64 1 frame_duration)))
unfolding catch_up
catch_up_zero mono_ns frame_duration queue counter target until p e =
    rw (e, zero-div frame_duration) (ground arith)

module _ (real_time mono_time : Timespec) (timestamp frame_duration counter : ℕ)
    (queue : List ℕ) where
  -- Where the next frame lies ahead of the real-time clock and nothing wraps, a call pushes that
  -- frame's time, keeps the counter, and sets the deadline as far ahead of the monotonic clock.
  pub arm_timer_future :
      timestamp + frame_duration * counter < u64_mod
      → clock_ns real_time < timestamp + frame_duration * counter
      → clock_ns mono_time + (timestamp + frame_duration * counter - clock_ns real_time) < u64_mod
      → Returns
          (Schedules queue counter
            (timestamp + frame_duration * counter)
            (clock_ns mono_time + (timestamp + frame_duration * counter - clock_ns real_time)))
          (arm_timer real_time mono_time timestamp frame_duration counter queue)
  unfolding arm_timer
  arm_timer_future h l m = ground (arith, clock_ns-lt real_time, clock_ns-lt mono_time)

  -- Where the next frame lies behind the real-time clock, by no more than the monotonic clock reads,
  -- a call does not catch up: it keeps the counter, pushes the time that has passed, and sets a
  -- deadline as far behind the monotonic clock.
  pub arm_timer_late :
      timestamp + frame_duration * counter < clock_ns real_time
      → clock_ns real_time - (timestamp + frame_duration * counter) ≤ clock_ns mono_time
      → Returns
          (Schedules queue counter
            (timestamp + frame_duration * counter)
            (clock_ns mono_time - (clock_ns real_time - (timestamp + frame_duration * counter))))
          (arm_timer real_time mono_time timestamp frame_duration counter queue)
  unfolding arm_timer
  arm_timer_late l m = ground (arith, clock_ns-lt real_time, clock_ns-lt mono_time)

  -- Where the next frame is due at the very reading of the real-time clock, the duration is positive
  -- and nothing wraps, a call skips it: it increments the counter, pushes the time of the frame after
  -- it, and sets the deadline a frame ahead of the monotonic clock.
  pub arm_timer_now :
      0 < frame_duration
      → timestamp + frame_duration * counter ≡ clock_ns real_time
      → timestamp + frame_duration * (counter + 1) < u64_mod
      → clock_ns mono_time + frame_duration < u64_mod
      → counter + 1 < u64_mod
      → Returns
          (Schedules queue
            (counter + 1)
            (timestamp + frame_duration * (counter + 1))
            (clock_ns mono_time + frame_duration))
          (arm_timer real_time mono_time timestamp frame_duration counter queue)
  unfolding arm_timer
  arm_timer_now p e l m c =
      ground (arith, clock_ns-lt real_time, clock_ns-lt mono_time, zero-div frame_duration)

  -- On every branch, late or wrapped around, for a positive duration and a counter that can still be
  -- incremented, a call returns, the time pushed is that of the frame the counter then names, and the
  -- deadline is as far from the monotonic clock as that time is from the real-time clock, modulo 2^64.
  pub arm_timer-OnSchedule :
      0 < frame_duration
      → counter + 1 < u64_mod
      → Returns
          (OnSchedule real_time mono_time timestamp frame_duration queue)
          (arm_timer real_time mono_time timestamp frame_duration counter queue)
  unfolding arm_timer
  arm_timer-OnSchedule p c = elim (Bool-cases (sub64 target (clock_ns real_time) == 0)) [
    | inl now ↦
        rw
          (
            now,
            catch_up_zero (clock_ns mono_time) frame_duration queue counter target
                (sub64 target (clock_ns real_time)) p (ground arith),
          )
          (ground (
            arith,
            clock_ns-lt real_time,
            clock_ns-lt mono_time,
            next_target timestamp frame_duration counter c,
          ))
    | inr later ↦ rw later (ground (arith, clock_ns-lt real_time, clock_ns-lt mono_time))
  ]
    where
      target : ℕ
      target = add64 timestamp (mul64 frame_duration counter)

-- One call on time, as a step of `arm_all`.
abbrev pub OnTime : ℕ → ℕ → List (Timespec × Timespec) → Type 0
OnTime next period [] = Unit {0}
OnTime next period ((real_time, mono_time) ∷ rest) =
    (clock_ns real_time < next) × (next < u64_mod) × OnTime (next + period) period rest

-- `timestamp + n * frame_duration` for the next `n` frames.
abbrev pub frame_times : ℕ → ℕ → ℕ → List ℕ
frame_times zero next period = []
frame_times (suc n) next period = next ∷ frame_times n (next + period) period

pub arm_timer_step :
    (real_time mono_time : Timespec) (timestamp frame_duration counter : ℕ) (queue : List ℕ)
    → timestamp + frame_duration * suc counter < u64_mod
    → suc counter < u64_mod
    → clock_ns real_time < timestamp + frame_duration * suc counter
    → (a : Armed) × (arm_timer real_time mono_time timestamp frame_duration (add64 counter 1) queue
        ≡ some a)
      × (a.frame_counter ≡ suc counter)
      × (a.frame_timestamps ≡ queue ++ (timestamp + frame_duration * suc counter) ∷ [])
unfolding arm_timer
arm_timer_step real_time mono_time timestamp frame_duration counter queue h c l = (
  set_timer (clock_ns mono_time) queue (suc counter) (timestamp + frame_duration * suc counter)
      (timestamp + frame_duration * suc counter - clock_ns real_time),
  ground (arith, clock_ns-lt real_time),
  refl,
  refl,
)

-- A recording whose calls all come before their frame, with times and a counter that do not wrap,
-- is scheduled frame by frame: the calls return, count themselves, and push the times
-- `timestamp + n * frame_duration` one after the other, with none skipped and none twice.
pub arm_all-frame_times :
    (clocks : List (Timespec × Timespec)) (timestamp frame_duration counter : ℕ) (queue : List ℕ)
    → counter + length clocks < u64_mod
    → OnTime (timestamp + frame_duration * suc counter) frame_duration clocks
    → arm_all clocks timestamp frame_duration counter queue
      ≡ some (
        counter + length clocks,
        queue
            ++ frame_times
                (length clocks)
                (timestamp + frame_duration * suc counter)
                frame_duration,
      )
unfolding arm_all
arm_all-frame_times [] timestamp frame_duration counter queue c h = simp (append-nil, add-zero)
arm_all-frame_times ((real_time, mono_time) ∷ rest) timestamp frame_duration counter queue c
      (l, h, later) =
    let (a, e, k, q) =
      arm_timer_step real_time mono_time timestamp frame_duration counter queue h (omega arith) l in
    let next : timestamp + frame_duration * suc counter + frame_duration
        ≡ timestamp + frame_duration * suc (suc counter) =
      omega arith in
    let count : suc counter + length rest ≡ counter + suc (length rest) = omega arith in
    let ih =
      arm_all-frame_times rest timestamp frame_duration (suc counter)
        (queue ++ (timestamp + frame_duration * suc counter) ∷ []) (omega arith)
        (rw next at later) in
    rw (e, arm_all) (rw (k, q, ih, count, append_assoc, next))
