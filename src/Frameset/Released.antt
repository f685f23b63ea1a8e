-- ===== src/Frameset/Released.antt =====
-- What the system holds for frameset_server/src/main.c, and what the actions of `perform_cleanup` leave of it.
use hand_motion_capture.Prelude.{
  ℕ, suc, Bool, false, ◌&&◌, List, [], ◌∷◌, Option, none, some, ltb, ◌==◌, if◌then◌else◌,
}
use hand_motion_capture.Frameset.{is_some}
use hand_motion_capture.Frameset.Startup.{
  CleanupCtx, Action, munmap, shm_unlink, sem_close, sem_unlink, free_q_bufs, free_frame_bufs,
  cleanup_logging, close, pthread_kill, pthread_join,
}

-- `mapping` is the length of the mapped memory, 0 without one. Of the threads, `threads` were started, the
-- first `signalled` were signalled, and the first `joined` have ended.
pub record Holdings : Type 0 where
  pub mapping : ℕ
  pub shm_fd : Option ℕ
  pub shm_name : Bool
  pub semaphore : Bool
  pub sem_name : Bool
  pub threads : ℕ
  pub signalled : ℕ
  pub joined : ℕ
  pub q_bufs : Bool
  pub frame_bufs : Bool
  pub log : Bool

abbrev same_fd : Option ℕ → ℕ → Bool
same_fd none fd = false
same_fd (some n) fd = n == fd

-- `none` for what is undefined or waits for ever: to release what is not held, to join a thread that was
-- not signalled, or to free buffers while a thread that uses them may run. `munmap` with a length of 0
-- fails and changes nothing.
unfoldable pub act : Action → Holdings → Option Holdings
act (munmap len) s = some (if len == 0 then s else record s { mapping = 0 })
act (close fd) s = if same_fd s.shm_fd fd then some (record s { shm_fd = none }) else none
act shm_unlink s = if s.shm_name then some (record s { shm_name = false }) else none
act sem_close s = if s.semaphore then some (record s { semaphore = false }) else none
act sem_unlink s = if s.sem_name then some (record s { sem_name = false }) else none
act (pthread_kill i) s =
    if i == s.signalled && ltb i s.threads then some (record s { signalled = suc i }) else none
act (pthread_join i) s =
    if i == s.joined && ltb i s.signalled then some (record s { joined = suc i }) else none
act free_q_bufs s =
    if s.q_bufs && s.joined == s.threads then some (record s { q_bufs = false }) else none
act free_frame_bufs s =
    if s.frame_bufs && s.joined == s.threads then some (record s { frame_bufs = false }) else none
act cleanup_logging s = if s.log then some (record s { log = false }) else none

abbrev then_run : (Holdings → Option Holdings) → Option Holdings → Option Holdings
then_run f none = none
then_run f (some s) = f s

unfoldable pub run : List Action → Holdings → Option Holdings
unfolding act
run [] s = some s
run (x ∷ xs) s = then_run (run xs) (act x s)

-- What the system holds when this was set up, with a mapping of that length.
abbrev pub held : ℕ → CleanupCtx → Holdings
held len c = record {
  mapping = if c.frameset_buf then len else 0;
  shm_fd = c.shm_fd;
  shm_name = is_some c.shm_fd;
  semaphore = c.consumer_ready;
  sem_name = c.consumer_ready;
  threads = c.thread_count;
  signalled = 0;
  joined = 0;
  q_bufs = c.q_bufs;
  frame_bufs = c.frame_bufs;
  log = c.logging_initialized;
}

-- Nothing but the mapping, all threads joined.
abbrev pub left : ℕ → CleanupCtx → Holdings
left len c = record {
  mapping = if c.frameset_buf then len else 0;
  shm_fd = none;
  shm_name = false;
  semaphore = false;
  sem_name = false;
  threads = c.thread_count;
  signalled = c.thread_count;
  joined = c.thread_count;
  q_bufs = false;
  frame_bufs = false;
  log = false;
}
