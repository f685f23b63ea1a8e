-- ===== src/Frameset/Startup.antt =====
-- `main` and `perform_cleanup` of frameset_server/src/main.c around the loop: what is set up, and what is
-- released at each exit.
use hand_motion_capture.Prelude.{
  ℕ, zero, suc, ◌+◌, Bool, true, false, List, [], ◌∷◌, ◌++◌, Option, none, some, ℤ, pos, ◌==◌,
  if◌then◌else◌,
}
use hand_motion_capture.Sys.{Reply, ok, fail}
use hand_motion_capture.Network.{negative}

-- `struct cleanup_ctx`. `shm_size` is the length that `munmap` is given; `thread_count` is 0 before the threads are set.
pub record CleanupCtx : Type 0 where
  pub frame_bufs : Bool
  pub q_bufs : Bool
  pub frameset_buf : Bool
  pub shm_size : ℕ
  pub shm_fd : Option ℕ
  pub consumer_ready : Bool
  pub thread_count : ℕ
  pub logging_initialized : Bool

pub data Action : Type 0 where
  shm_unlink sem_close sem_unlink free_q_bufs free_frame_bufs cleanup_logging : Action
  munmap close pthread_kill pthread_join : ℕ → Action

-- The action for each thread, the first one first.
unfoldable pub for_each_thread : (ℕ → Action) → ℕ → List Action
for_each_thread act zero = []
for_each_thread act (suc n) = for_each_thread act n ++ act n ∷ []

abbrev pub when : Bool → List Action → List Action
when true actions = actions
when false actions = []

abbrev pub close_shm : Option ℕ → List Action
close_shm none = []
close_shm (some fd) = close fd ∷ shm_unlink ∷ []

unfoldable pub perform_cleanup : CleanupCtx → List Action
unfolding for_each_thread
perform_cleanup c =
    when c.frameset_buf (munmap c.shm_size ∷ [])
    ++ (close_shm c.shm_fd
        ++ (when c.consumer_ready (sem_close ∷ sem_unlink ∷ [])
            ++ (for_each_thread pthread_kill c.thread_count
                ++ (for_each_thread pthread_join c.thread_count
                    ++ (when c.q_bufs (free_q_bufs ∷ [])
                        ++ (when c.frame_bufs (free_frame_bufs ∷ [])
                            ++ when c.logging_initialized (cleanup_logging ∷ [])))))))

-- What the calls of `main` answer; `threads` has the returns of `pthread_create`, and past the list they
-- are 0.
pub record Answers : Type 0 where
  pub setup_logging : Reply
  pub count_cameras : ℤ
  pub parse_conf : ℤ
  pub sched_setaffinity : Reply
  pub frame_bufs : Bool
  pub q_bufs : Bool
  pub threads : List ℕ
  pub sem_open : Reply
  pub shm_open : Reply
  pub ftruncate : Reply
  pub mmap : Reply

-- The exit code with what was released, or undefined behaviour. A code taken from `errno` is that of the
-- call that failed, as if the clean-up before the return left it alone.
pub data Exit : Type 0 where
  exits : ℤ → List Action → Exit
  undefined : Exit

abbrev enomem : ℕ
enomem = 12

-- `perform_cleanup` is not followed by a return after the failures of the shared memory: `main` goes on
-- with what it has freed, and frees it a second time.
unfoldable pub after_mmap : CleanupCtx → Reply → Exit
unfolding perform_cleanup
after_mmap c (fail e) = undefined
after_mmap c (ok n) = exits (pos 0) (perform_cleanup (record c { frameset_buf = true }))

unfoldable pub after_ftruncate : Answers → CleanupCtx → Reply → Exit
unfolding after_mmap
after_ftruncate a c (fail e) = undefined
after_ftruncate a c (ok n) = after_mmap c a.mmap

unfoldable pub after_shm_open : Answers → CleanupCtx → Reply → Exit
unfolding after_ftruncate
after_shm_open a c (fail e) = undefined
after_shm_open a c (ok fd) = after_ftruncate a (record c { shm_fd = some fd }) a.ftruncate

unfoldable pub after_sem_open : Answers → CleanupCtx → Reply → Exit
unfolding after_shm_open
after_sem_open a c (fail e) = exits (negative e) (perform_cleanup c)
after_sem_open a c (ok n) = after_shm_open a (record c { consumer_ready = true }) a.shm_open

-- The loop over the threads that are still to start.
unfoldable pub start_threads : Answers → ℕ → List ℕ → CleanupCtx → Exit
unfolding after_sem_open
start_threads a zero rets c = after_sem_open a c a.sem_open
start_threads a (suc n) [] c = start_threads a n [] (record c { thread_count = c.thread_count + 1 })
start_threads a (suc n) (ret ∷ rets) c =
    let started = start_threads a n rets (record c { thread_count = c.thread_count + 1 }) in
    if ret == 0 then started else exits (pos ret) (perform_cleanup c)

unfoldable pub allocate : Answers → ℕ → CleanupCtx → Exit
unfolding start_threads
allocate a cam_count c =
    let c1 = record c { frame_bufs = true } in
    let c2 = record c1 { q_bufs = true } in
    if a.frame_bufs
    then (if a.q_bufs
        then start_threads a cam_count a.threads c2
        else exits (negative enomem) (perform_cleanup c1))
    else exits (negative enomem) (perform_cleanup c)

unfoldable pub pin : Answers → ℕ → CleanupCtx → Reply → Exit
unfolding allocate
pin a cam_count c (fail e) = exits (negative e) (perform_cleanup c)
pin a cam_count c (ok n) = allocate a cam_count c

unfoldable pub after_parse_conf : Answers → ℕ → CleanupCtx → ℤ → Exit
unfolding pin
after_parse_conf a cam_count c (pos zero) = pin a cam_count c a.sched_setaffinity
after_parse_conf a cam_count c ret = exits ret (perform_cleanup c)

unfoldable pub after_count_cameras : Answers → CleanupCtx → ℤ → Exit
unfolding after_parse_conf
after_count_cameras a c (pos (suc n)) = after_parse_conf a (suc n) c a.parse_conf
after_count_cameras a c cam_count = exits cam_count (perform_cleanup c)

-- Nothing sets `shm_size` later.
abbrev no_cleanup : CleanupCtx
no_cleanup = record {
  frame_bufs = false;
  q_bufs = false;
  frameset_buf = false;
  shm_size = 0;
  shm_fd = none;
  consumer_ready = false;
  thread_count = 0;
  logging_initialized = false;
}

abbrev after_setup_logging : Answers → Reply → Exit
after_setup_logging a (fail e) = exits (negative e) []
after_setup_logging a (ok n) =
    after_count_cameras a (record no_cleanup { logging_initialized = true }) a.count_cameras

-- The loop in between ends when `running` is cleared.
unfoldable pub server_main : Answers → Exit
unfolding after_count_cameras
server_main a = after_setup_logging a a.setup_logging
