-- ===== src/Frameset/Exits.antt =====
-- What `main` of frameset_server/src/main.c has set up at each exit.
use hand_motion_capture.Prelude.{
  ℕ, zero, suc, ◌+◌, ◌≡◌, refl, ap, subst, Bool, true, false, ◌&&◌, List, [], ◌∷◌, Option, none,
  some, ℤ, pos, negsuc, arith, ◌==◌, if◌then◌else◌, Bool-cases, inl, inr,
}
use hand_motion_capture.Sys.{Reply, ok, fail}
use hand_motion_capture.Frameset.Startup.{
  CleanupCtx, perform_cleanup, Answers, Exit, exits, after_mmap, after_ftruncate, after_shm_open,
  after_sem_open, start_threads, server_main,
}

abbrev is_ok : Reply → Bool
is_ok (ok n) = true
is_ok (fail e) = false

abbrev is_zero : ℤ → Bool
is_zero (pos zero) = true
is_zero _ = false

abbrev is_positive : ℤ → Bool
is_positive (pos (suc n)) = true
is_positive _ = false

-- The number of cameras, or 0 where it is an error code.
abbrev cameras : ℤ → ℕ
cameras (pos n) = n
cameras (negsuc n) = 0

-- The threads that start before the first that does not.
abbrev pub started : ℕ → List ℕ → ℕ
started zero rets = 0
started (suc n) [] = suc n
started (suc n) (ret ∷ rets) = let later = started n rets in if ret == 0 then suc later else 0

started-none : (n : ℕ) → started n [] ≡ n
started-none zero = refl
started-none (suc n) = refl

-- The configuration is read, and the process is pinned.
abbrev pub configured : Answers → Bool
configured a =
    is_ok a.setup_logging
    && (is_positive a.count_cameras && (is_zero a.parse_conf && is_ok a.sched_setaffinity))

abbrev pub has_queues : Answers → Bool
has_queues a = configured a && (a.frame_bufs && a.q_bufs)

-- All threads run, and the semaphore is open.
abbrev pub is_up : Answers → Bool
is_up a =
    has_queues a
    && (started (cameras a.count_cameras) a.threads == cameras a.count_cameras && is_ok a.sem_open)

-- What has been set up, by the answers alone.
abbrev pub acquired : ℕ → Answers → CleanupCtx
acquired shm_fd a = record {
  frame_bufs = configured a && a.frame_bufs;
  q_bufs = has_queues a;
  frameset_buf = is_up a;
  shm_size = 0;
  shm_fd = if is_up a then some shm_fd else none;
  consumer_ready = is_up a;
  thread_count = if has_queues a then started (cameras a.count_cameras) a.threads else 0;
  logging_initialized = is_ok a.setup_logging;
}

-- The exit calls `perform_cleanup` with this.
abbrev Releases : CleanupCtx → Exit → Type 0
Releases c (exits code actions) = actions ≡ perform_cleanup c
Releases c Exit.undefined = ⊥

exit_code :
    (c : CleanupCtx) (o : Exit) → Releases c o → (code : ℤ) × (o ≡ exits code (perform_cleanup c))
exit_code c (exits code actions) h = (code, ap (exits code) h)
exit_code c Exit.undefined h = absurd h

-- The context with the buffers and so many threads, and then with the rest or without.
abbrev running : ℕ → Option ℕ → Bool → CleanupCtx
running threads shm_fd up = record {
  frame_bufs = true;
  q_bufs = true;
  frameset_buf = up;
  shm_size = 0;
  shm_fd = shm_fd;
  consumer_ready = up;
  thread_count = threads;
  logging_initialized = true;
}

abbrev running_if : ℕ → ℕ → Bool → CleanupCtx
running_if fd threads up = running threads (if up then some fd else none) up

-- The same numbers, reckoned otherwise.
recount :
    (fd t t' : ℕ) (up up' : Bool) (o : Exit)
    → t ≡ t'
    → up ≡ up'
    → Releases (running_if fd t up) o
    → Releases (running_if fd t' up') o
recount fd t t' up up' o e f h =
    subst (λ (b : Bool). Releases (running_if fd t' b) o) f
      (subst (λ (n : ℕ). Releases (running_if fd n up) o) e h)

one_more : (x n : ℕ) (ready : Bool) → (x == n && ready) ≡ (suc x == suc n && ready)
one_more x n ready = ground arith

module _ (a : Answers) (fd n m : ℕ) (shm : a.shm_open ≡ ok fd) (size : a.ftruncate ≡ ok n)
    (map : a.mmap ≡ ok m) where
  sem_open-Releases :
      (k : ℕ) (r : Reply)
      → Releases (running_if fd k (is_ok r)) (after_sem_open a (running k none false) r)
  unfolding after_sem_open after_shm_open after_ftruncate after_mmap
  sem_open-Releases k (fail e) = refl
  sem_open-Releases k (ok s) = rw (shm, size, map) refl

  start_threads-Releases :
      (k cams : ℕ) (rets : List ℕ)
      → Releases
          (running_if fd (k + started cams rets) (started cams rets == cams && is_ok a.sem_open))
          (start_threads a cams rets (running k none false))
  unfolding start_threads
  start_threads-Releases k zero rets =
      recount fd k (k + 0) _ _ (after_sem_open a (running k none false) a.sem_open) (omega arith)
        refl (sem_open-Releases k a.sem_open)
  start_threads-Releases k (suc cams) [] =
      let x = started cams [] in
      let all : x ≡ cams = started-none cams in
      recount fd (k + 1 + x) (k + suc cams) _ _
        (start_threads a cams [] (running (k + 1) none false)) (omega (arith, all))
        (ground (arith, all)) (start_threads-Releases (k + 1) cams [])
  start_threads-Releases k (suc cams) (ret ∷ rets) = elim (Bool-cases (ret == 0)) [
    | inr refused ↦ rw refused (
        recount fd k (k + 0) false _ (exits (pos ret) (perform_cleanup (running k none false)))
          (omega arith) (ground arith) refl)
    | inl starts ↦
        let x = started cams rets in
        rw starts (
          recount fd (k + 1 + x) (k + suc x) _ _
            (start_threads a cams rets (running (k + 1) none false)) (omega arith)
            (one_more x cams (is_ok a.sem_open)) (start_threads-Releases (k + 1) cams rets))
  ]

abbrev answers :
    Reply → ℤ → ℤ → Reply → Bool → Bool → List ℕ → Reply → Reply → Reply → Reply → Answers
answers log count parse affinity frame_bufs q_bufs threads sem shm size map = record {
  setup_logging = log;
  count_cameras = count;
  parse_conf = parse;
  sched_setaffinity = affinity;
  frame_bufs = frame_bufs;
  q_bufs = q_bufs;
  threads = threads;
  sem_open = sem;
  shm_open = shm;
  ftruncate = size;
  mmap = map;
}

answers-Releases :
    (log : Reply) (count parse : ℤ) (affinity : Reply) (frame_bufs q_bufs : Bool) (threads : List ℕ)
    (sem shm size map : Reply) (fd n m : ℕ)
    → shm ≡ ok fd
    → size ≡ ok n
    → map ≡ ok m
    → let a = answers log count parse affinity frame_bufs q_bufs threads sem shm size map in
      Releases (acquired fd a) (server_main a)
unfolding server_main
answers-Releases (fail e) count parse affinity fb qb ts sem shm size map fd n m i j k = refl
answers-Releases (ok l) (negsuc c) parse affinity fb qb ts sem shm size map fd n m i j k = refl
answers-Releases (ok l) (pos zero) parse affinity fb qb ts sem shm size map fd n m i j k = refl
answers-Releases (ok l) (pos (suc c)) (negsuc p) affinity fb qb ts sem shm size map fd n m i j k =
    refl
answers-Releases (ok l) (pos (suc c)) (pos (suc p)) affinity fb qb ts sem shm size map fd n m i j
      k =
    refl
answers-Releases (ok l) (pos (suc c)) (pos zero) (fail e) fb qb ts sem shm size map fd n m i j k =
    refl
answers-Releases (ok l) (pos (suc c)) (pos zero) (ok f) false qb ts sem shm size map fd n m i j k =
    refl
answers-Releases (ok l) (pos (suc c)) (pos zero) (ok f) true false ts sem shm size map fd n m i j
      k =
    refl
answers-Releases (ok l) (pos (suc c)) (pos zero) (ok f) true true ts sem shm size map fd n m i j k =
    let a = answers (ok l) (pos (suc c)) (pos zero) (ok f) true true ts sem shm size map in
    let x = started (suc c) ts in
    recount fd (0 + x) x (x == suc c && is_ok sem) _
      (start_threads a (suc c) ts (running 0 none false)) (omega arith) refl
      (start_threads-Releases a fd n m i j k 0 (suc c) ts)

-- If the calls for the shared memory succeed, every exit calls `perform_cleanup` with what was set up.
pub server_main-calls :
    (a : Answers) (fd n m : ℕ)
    → a.shm_open ≡ ok fd
    → a.ftruncate ≡ ok n
    → a.mmap ≡ ok m
    → (code : ℤ) × (server_main a ≡ exits code (perform_cleanup (acquired fd a)))
server_main-calls a fd n m shm size map = exit_code (acquired fd a) (server_main a) (
    answers-Releases a.setup_logging a.count_cameras a.parse_conf a.sched_setaffinity a.frame_bufs
      a.q_bufs a.threads a.sem_open a.shm_open a.ftruncate a.mmap fd n m shm size map)
