-- ===== src/Timer/Tests.antt =====
-- Runs of `arm_timer` of picam/src/main.cpp, and the theorems about it at concrete readings.
use hand_motion_capture.Prelude.{
  ◌+◌, ◌*◌, ◌-◌, ◌≡◌, refl, some, List, [], ◌∷◌, ◌++◌, arith, Returns, length,
}
use hand_motion_capture.Timer.{Timespec, clock_ns, arm_timer, arm_all}
use hand_motion_capture.Timer.Schedule.{
  Schedules, OnSchedule, frame_times, arm_timer_late, arm_timer-OnSchedule, arm_all-frame_times,
}

-- Ten seconds after the start of the real-time clock.
abbrev real_time : Timespec
real_time = record { tv_sec = 10; tv_nsec = 5 }

abbrev mono_time : Timespec
mono_time = record { tv_sec = 3; tv_nsec = 7 }

arm_timer_runs :
    arm_timer real_time mono_time 10_000_000_000 33 1 []
    ≡ some (record {
      frame_counter = 1;
      frame_timestamps = 10_000_000_033 ∷ [];
      deadline = record { tv_sec = 3; tv_nsec = 35 };
    })
unfolding arm_timer
arm_timer_runs = refl

-- A target of a second ago: the counter does not catch up.
arm_timer_runs_late :
    arm_timer real_time mono_time 9_000_000_000 33 1 []
    ≡ some (record {
      frame_counter = 1;
      frame_timestamps = 9_000_000_033 ∷ [];
      deadline = record { tv_sec = 2; tv_nsec = 35 };
    })
unfolding arm_timer
arm_timer_runs_late = refl

arm_timer_late_example :
    Returns
      (Schedules [] 1
        (9_000_000_000 + 33 * 1)
        (clock_ns mono_time - (clock_ns real_time - (9_000_000_000 + 33 * 1))))
      (arm_timer real_time mono_time 9_000_000_000 33 1 [])
unfolding clock_ns
arm_timer_late_example =
    arm_timer_late real_time mono_time 9_000_000_000 33 1 [] (omega arith) (omega arith)

arm_timer-OnSchedule_example :
    Returns
      (OnSchedule real_time mono_time 9_999_999_972 33 [])
      (arm_timer real_time mono_time 9_999_999_972 33 1 [])
arm_timer-OnSchedule_example =
    arm_timer-OnSchedule real_time mono_time 9_999_999_972 33 1 [] (omega arith) (omega arith)

abbrev two_clocks : List (Timespec × Timespec)
two_clocks = (real_time, mono_time) ∷ (record { tv_sec = 10; tv_nsec = 40 }, mono_time) ∷ []

arm_all-frame_times_example :
    arm_all two_clocks 10_000_000_000 33 0 []
    ≡ some
        (0 + length two_clocks, [] ++ frame_times (length two_clocks) (10_000_000_000 + 33 * 1) 33)
unfolding clock_ns
arm_all-frame_times_example =
    arm_all-frame_times two_clocks 10_000_000_000 33 0 [] (omega arith) (omega arith)
