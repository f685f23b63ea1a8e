-- ===== src/Frameset/Tests.antt =====
-- Runs of the loop of frameset_server/src/main.c with two cameras, and the theorems at them.
use hand_motion_capture.Prelude.{
  pos, ℕ, ◌≡◌, ◌↔◌, refl, true, false, List, [], ◌∷◌, some, arith, inl, inr, All, length,
}
use hand_motion_capture.Sys.{ok}
use hand_motion_capture.Frameset.Startup.{
  Answers, exits, pthread_kill, pthread_join, free_q_bufs, free_frame_bufs, cleanup_logging,
  server_main,
}
use hand_motion_capture.Frameset.{TsFrameBuf, Event, passes, takes, main_loop, start}
use hand_motion_capture.Frameset.Lanes.{Has, returned_times}
use hand_motion_capture.Frameset.Alignment.Run.{AllIncreasing}
use hand_motion_capture.Frameset.Progress.{steady}
use hand_motion_capture.Frameset.Exact.{framesets_exact, none_lost, catches_up}
use hand_motion_capture.Frameset.Delivery.{Delivered, shared_frames}

abbrev buffer : ℕ → ℕ → TsFrameBuf
buffer t frame = record { timestamp = t; frame_buf = frame }

-- The second camera missed the first frame.
abbrev two_cameras : List (List TsFrameBuf)
two_cameras = (buffer 1 10 ∷ buffer 2 11 ∷ buffer 3 12 ∷ []) ∷ (buffer 2 20 ∷ buffer 3 21 ∷ []) ∷ []

two_cameras-AllIncreasing : AllIncreasing two_cameras
two_cameras-AllIncreasing = omega arith

-- The second queue is empty at first.
abbrev events : List Event
events =
    passes (true ∷ false ∷ [])
    ∷ passes (true ∷ true ∷ [])
    ∷ passes (true ∷ true ∷ [])
    ∷ takes
    ∷ passes (true ∷ true ∷ [])
    ∷ []

finds_two : (main_loop events (start two_cameras)).framesets ≡ 2 ∷ 3 ∷ []
unfolding main_loop start
finds_two = refl

shares_the_last :
    (main_loop events (start two_cameras)).frameset_buf
    ≡ some (record { frames = 12 ∷ 21 ∷ []; timestamp = 3 })
unfolding main_loop start
shares_the_last = refl

framesets_exact_example :
    Has 2 (main_loop events (start two_cameras)).framesets
    ↔ All (λ l. Has 2 (returned_times l)) (main_loop events (start two_cameras)).lanes
framesets_exact_example =
    framesets_exact two_cameras two_cameras-AllIncreasing (omega arith) events 2

none_lost_example : Has 2 (main_loop events (start two_cameras)).framesets
unfolding main_loop start
none_lost_example =
    none_lost two_cameras two_cameras-AllIncreasing events 2 (inr (inl refl), (inl refl, tt))
      (inl (inr (inl refl)))

catches_up_example : Has 3 (main_loop (steady 5 (length two_cameras)) (start two_cameras)).framesets
catches_up_example =
    catches_up two_cameras two_cameras-AllIncreasing (omega arith) 5 3 (omega arith)
      (inr (inr (inl refl)), (inr (inl refl), tt))

shared_frames_example : Delivered (main_loop events (start two_cameras))
shared_frames_example = shared_frames two_cameras events

-- The second thread does not start.
abbrev one_thread : Answers
one_thread = record {
  setup_logging = ok 0;
  count_cameras = pos 2;
  parse_conf = pos 0;
  sched_setaffinity = ok 0;
  frame_bufs = true;
  q_bufs = true;
  threads = 0 ∷ 11 ∷ [];
  sem_open = ok 0;
  shm_open = ok 4;
  ftruncate = ok 0;
  mmap = ok 0;
}

-- Both threads start, and all calls succeed.
abbrev two_threads : Answers
two_threads = record one_thread { threads = [] }

stops_its_thread :
    server_main one_thread
    ≡ exits
        (pos 11)
        (pthread_kill 0 ∷ pthread_join 0 ∷ free_q_bufs ∷ free_frame_bufs ∷ cleanup_logging ∷ [])
unfolding server_main
stops_its_thread = refl
