-- ===== src/StreamMgr/Setup.antt =====
-- `stream_mgr_fn` of frameset_server/src/stream_mgr.c around its loop: what it allocates and opens, and
-- what the labels at its end release.
use hand_motion_capture.Prelude.{
  ℕ, Bool, false, List, [], ◌∷◌, Option, ℤ, pos, negsuc, ◌==◌, if◌then◌else◌,
}
use hand_motion_capture.Sys.{Reply, ok, fail}
use hand_motion_capture.Queue
use hand_motion_capture.Queue.{Queue, init_queue}
use hand_motion_capture.Decoder.Resources.{Held, Answers, init_decoder, cleanup_decoder}
use hand_motion_capture.Network.Sockets.{Result, setup_stream, accept_conn}

-- TS_Q_INIT_SIZE.
abbrev pub ts_q_init_size : ℕ
ts_q_init_size = 8

-- What the system gives the thread: memory for the encoded frames, the answer of `sched_setaffinity`,
-- memory for the queue, the answers of the decoder's set-up and those of the sockets, and whether the
-- loop goes to `shutdown_cleanup`.
pub record Given : Type 0 where
  pub enc_frame_buf : Bool
  pub affinity : Reply
  pub queue_memory : Option (ℕ → ℕ)
  pub decoder : Answers
  pub replies : List Reply
  pub shuts_down : Bool

-- How the thread ends: what its decoder still holds, and the descriptors that are open. Or it waits for an
-- answer, or does what is undefined.
pub data Ended : Type 0 where
  ended : Held → List ℕ → Ended
  waits undefined : Ended

-- `close`.
abbrev pub close : ℤ → List ℕ → List ℕ
close (negsuc n) opened = opened
close (pos fd) [] = []
close (pos fd) (o ∷ opened) =
    let rest = close (pos fd) opened in if o == fd then opened else o ∷ rest

-- `shutdown_cleanup`, with a decoder and a queue that were initialised. What was not set is -1.
unfoldable pub release : Held → ℤ → ℤ → List ℕ → Ended
unfolding cleanup_decoder
release held sockfd clientfd opened =
    ended (cleanup_decoder held) (close clientfd (close sockfd opened))

-- `err_cleanup` comes before it, and gives `pthread_kill` a process id, which is no `pthread_t`.
abbrev pub err_cleanup : Ended
err_cleanup = undefined

unfoldable pub after_accept : Bool → Held → ℤ → Result → Ended
unfolding release
after_accept shuts_down held sockfd (Result.returns (pos fd) s) =
    if shuts_down then release held sockfd (pos fd) s.opened else err_cleanup
after_accept shuts_down held sockfd (Result.returns (negsuc e) s) = err_cleanup
after_accept shuts_down held sockfd Result.waits = waits

unfoldable pub after_setup_stream : Bool → Held → Result → Ended
unfolding after_accept
after_setup_stream shuts_down held (Result.returns (pos fd) s) =
    after_accept shuts_down held (pos fd) (accept_conn s.replies s.opened)
after_setup_stream shuts_down held (Result.returns (negsuc e) s) = err_cleanup
after_setup_stream shuts_down held Result.waits = waits

unfoldable pub is_success : ℤ → Bool
is_success (pos n) = n == 0
is_success (negsuc n) = false

unfoldable pub after_init_decoder : Given → List ℕ → ℤ × Held → Ended
unfolding after_setup_stream is_success
after_init_decoder g before (ret, held) =
    if is_success ret
    then after_setup_stream g.shuts_down held (setup_stream g.replies before)
    else err_cleanup

-- If `init_queue` fails the decoder is cleaned up without having been initialised.
unfoldable pub after_init_queue : Given → List ℕ → Queue.Outcome Queue → Ended
unfolding after_init_decoder
after_init_queue g before (Queue.Outcome.returns q) =
    after_init_decoder g before (init_decoder g.decoder)
after_init_queue g before _ = undefined

-- So are the decoder and the queue after the failures before.
unfoldable pub after_affinity : Given → List ℕ → Reply → Ended
unfolding after_init_queue
after_affinity g before (fail e) = undefined
after_affinity g before (ok n) =
    after_init_queue g before (init_queue g.queue_memory 8 ts_q_init_size)

unfoldable pub stream_mgr_fn : Given → List ℕ → Ended
unfolding after_affinity
stream_mgr_fn g before = if g.enc_frame_buf then after_affinity g before g.affinity else undefined
