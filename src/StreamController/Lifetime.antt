-- ===== src/StreamController/Lifetime.antt =====
-- The constructor and the destructor of toolkit/common/src/stream_controller.cpp.
use hand_motion_capture.Prelude.{
  ℕ, zero, suc, ◌≡◌, refl, Bool, true, false, ◌&&◌, Option, none, some, arith, ltb, if◌then◌else◌,
}
use hand_motion_capture.Sys.{Reply, ok, fail}

-- The members that say what is to be released.
pub record Controller : Type 0 where
  pub server_pid : ℕ
  pub frameset_ctl_sem : Bool
  pub shm_fd : Option ℕ
  pub frameset_buf : Bool

-- What the system holds for the program: the server as a child process, the semaphore, the descriptor of
-- the shared memory and its name, and the mapping.
pub record System : Type 0 where
  pub server : Bool
  pub sem : Bool
  pub shm : Bool
  pub mapping : Bool

abbrev pub nothing : System
nothing = record { server = false; sem = false; shm = false; mapping = false }

-- The object is made, or an exception leaves the constructor, or this is the child, which executes the
-- server.
pub data Constructed : Type 0 where
  made : Controller → System → Constructed
  threw : System → Constructed
  child : Constructed

-- What `fork`, `sem_open`, `shm_open`, `ftruncate` and `mmap` answer.
pub record Calls : Type 0 where
  pub fork : Reply
  pub sem_open : Reply
  pub shm_open : Reply
  pub ftruncate : Reply
  pub mmap : Reply

unfoldable pub map_memory : ℕ → ℕ → Reply → System → Constructed
map_memory pid fd (fail e) s = threw s
map_memory pid fd (ok n) s =
    made
      (record { server_pid = pid; frameset_ctl_sem = true; shm_fd = some fd; frameset_buf = true })
      (record s { mapping = true })

unfoldable pub resize_memory : ℕ → ℕ → Calls → Reply → System → Constructed
unfolding map_memory
resize_memory pid fd calls (fail e) s = threw s
resize_memory pid fd calls (ok n) s = map_memory pid fd calls.mmap s

unfoldable pub open_memory : ℕ → Calls → Reply → System → Constructed
unfolding resize_memory
open_memory pid calls (fail e) s = threw s
open_memory pid calls (ok fd) s =
    resize_memory pid fd calls calls.ftruncate (record s { shm = true })

unfoldable pub open_sem : ℕ → Calls → Reply → System → Constructed
unfolding open_memory
open_sem pid calls (fail e) s = threw s
open_sem pid calls (ok n) s = open_memory pid calls calls.shm_open (record s { sem = true })

unfoldable pub after_fork : Calls → Reply → Constructed
unfolding open_sem
after_fork calls (fail e) = threw nothing
after_fork calls (ok zero) = child
after_fork calls (ok (suc n)) =
    open_sem (suc n) calls calls.sem_open (record nothing { server = true })

unfoldable pub construct : Calls → Constructed
unfolding after_fork
construct calls = after_fork calls calls.fork

abbrev pub is_set : Option ℕ → Bool
is_set none = false
is_set (some fd) = true

-- `kill` with SIGTERM, which the server ends for.
unfoldable pub destroy : Controller → System → System
destroy c s =
    let s1 = if ltb 0 c.server_pid then record s { server = false } else s in
    let s2 = if c.frameset_buf then record s1 { mapping = false } else s1 in
    let s3 = if is_set c.shm_fd then record s2 { shm = false } else s2 in
    if c.frameset_ctl_sem then record s3 { sem = false } else s3

abbrev pub is_ok : Reply → Bool
is_ok (ok n) = true
is_ok (fail e) = false

-- What is left when an object was made and is destroyed, or when the constructor has thrown.
abbrev pub left_behind : Constructed → Option System
left_behind (made c s) = some (destroy c s)
left_behind (threw s) = some s
left_behind child = none

abbrev pub all_open : Calls → Bool
all_open calls =
    is_ok calls.sem_open && (is_ok calls.shm_open && (is_ok calls.ftruncate && is_ok calls.mmap))

abbrev left_open : Calls → System
left_open calls = if all_open calls then nothing else record {
  server = true;
  sem = is_ok calls.sem_open;
  shm = is_ok calls.sem_open && is_ok calls.shm_open;
  mapping = false;
}

open_sem-left_open :
    (n : ℕ) (f sem shm size map : Reply)
    → let calls : Calls = record {
      fork = f;
      sem_open = sem;
      shm_open = shm;
      ftruncate = size;
      mmap = map;
    } in
      left_behind (open_sem (suc n) calls sem (record nothing { server = true }))
      ≡ some (left_open calls)
unfolding open_sem destroy
open_sem-left_open n f (fail e) shm size map = refl
open_sem-left_open n f (ok a) (fail e) size map = refl
open_sem-left_open n f (ok a) (ok b) (fail e) map = refl
open_sem-left_open n f (ok a) (ok b) (ok c) (fail e) = refl
open_sem-left_open n f (ok a) (ok b) (ok c) (ok d) = ground arith

-- In the process that has forked a server: if the other calls succeed, the destructor releases all that
-- the constructor has opened and ends the server. If one of them fails, the constructor throws and no
-- destructor runs: the server goes on, and the semaphore and the shared memory stay, as far as they were
-- opened.
pub construct-destroy :
    (calls : Calls) (n : ℕ)
    → calls.fork ≡ ok (suc n)
    → left_behind (construct calls)
      ≡ some (
          if all_open calls then nothing else record {
            server = true;
            sem = is_ok calls.sem_open;
            shm = is_ok calls.sem_open && is_ok calls.shm_open;
            mapping = false;
          })
unfolding construct after_fork
construct-destroy calls n f =
    rw f (open_sem-left_open n calls.fork calls.sem_open calls.shm_open calls.ftruncate calls.mmap)
