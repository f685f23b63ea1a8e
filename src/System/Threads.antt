-- ===== src/System/Threads.antt =====
-- What the loop of frameset_server/src/main.c finds in the queues that the threads of
-- frameset_server/src/stream_mgr.c fill.
use hand_motion_capture.Prelude.{
  ℕ, ◌≤◌, ◌<◌, ◌≡◌, refl, sym, subst, List, [], ◌∷◌, ◌++◌, map, arith, All, length,
}
use hand_motion_capture.Queue.Refinement.{Holds}
use hand_motion_capture.Decoder.{Avcodec}
use hand_motion_capture.StreamMgr.{Next}
use hand_motion_capture.StreamMgr.Order.{Ends}
use hand_motion_capture.StreamMgr.Order.Reading.{turns_max}
use hand_motion_capture.StreamMgr.Order.Turns.{Paired, frames_in_order}
use hand_motion_capture.Frameset.{TsFrameBuf, Event}
use hand_motion_capture.Frameset.Lanes.{Has, Increasing, times, Has-append_left}
use hand_motion_capture.Frameset.Alignment.Run.{AllIncreasing}
use hand_motion_capture.Frameset.Exact.{framesets_sent, catches_up, frame_count}
use hand_motion_capture.Frameset.Progress.{steady}
use hand_motion_capture.System.{Thread, run_thread, filled_bufs, serve}

All-prefix : (P : ℕ → Type 0) (xs ys : List ℕ) → All P (xs ++ ys) → All P xs
All-prefix P [] ys h = tt
All-prefix P (x ∷ xs) ys h = (h.0, All-prefix P xs ys h.1)

Increasing-prefix : (xs ys : List ℕ) → Increasing (xs ++ ys) → Increasing xs
Increasing-prefix [] ys h = tt
Increasing-prefix (x ∷ xs) ys h = (All-prefix (λ y. x < y) xs ys h.0, Increasing-prefix xs ys h.1)

module _ (av : Avcodec) where
  -- The timestamps that a thread has read from its camera, wherever it stands.
  abbrev pub timestamps_read : Next av → List ℕ
  timestamps_read (Next.proceed w) = w.timestamps
  timestamps_read (Next.again w) = w.timestamps
  timestamps_read (Next.err_cleanup w) = w.timestamps
  timestamps_read (Next.shutdown_cleanup w) = w.timestamps
  timestamps_read Next.undefined = []

  -- The start of a thread: a fresh decoder, an empty queue, and not more turns than it bears.
  pub record IsFresh (t : Thread av) : Type 0 where
    pub nothing_decoded : av.backlog t.viddec ≡ 0
    pub nothing_queued : Holds t.timestamp_queue []
    pub eight_bytes : t.timestamp_queue.type_size ≡ 8
    pub eight_slots : t.timestamp_queue.capacity ≤ 8
    pub in_turns : length t.inputs < turns_max

  -- The timestamps handed on are the first of those read.
  abbrev pub HandsOn : Next av → Type 0
  HandsOn o = (rest : List ℕ) × (timestamps_read o ≡ times (filled_bufs av o) ++ rest)

  HandsOn_lem : (o : Next av) → Ends av (Paired av) o → HandsOn o
  unfolding filled_bufs
  HandsOn_lem (Next.proceed w) h = h
  HandsOn_lem (Next.again w) h = h
  HandsOn_lem (Next.err_cleanup w) h = h
  HandsOn_lem (Next.shutdown_cleanup w) h = h
  HandsOn_lem Next.undefined h = absurd h

  pub run_thread-HandsOn : (t : Thread av) → IsFresh t → HandsOn (run_thread av t)
  unfolding run_thread
  run_thread-HandsOn t f = HandsOn_lem (run_thread av t) (
      frames_in_order av t.viddec t.stream t.timestamp_queue t.current_buf t.inputs
        f.nothing_decoded f.nothing_queued f.eight_bytes f.eight_slots f.in_turns)

  abbrev pub streams : List (Thread av) → List (List TsFrameBuf)
  streams = map (λ t. filled_bufs av (run_thread av t))

  abbrev pub Ascends : Thread av → Type 0
  Ascends t = Increasing (timestamps_read (run_thread av t))

  pub streams-AllIncreasing :
      (threads : List (Thread av))
      → All IsFresh threads
      → All Ascends threads
      → AllIncreasing (streams threads)
  streams-AllIncreasing [] f i = tt
  streams-AllIncreasing (t ∷ ts) (f, fs) (i, is) =
      let (rest, e) = run_thread-HandsOn t f in
      (
        Increasing-prefix (times (filled_bufs av (run_thread av t))) rest (subst Increasing e i),
        streams-AllIncreasing ts fs is,
      )

  read_by_each :
      (threads : List (Thread av)) (t : ℕ)
      → All IsFresh threads
      → All (Has t) (map times (streams threads))
      → All (λ th. Has t (timestamps_read (run_thread av th))) threads
  read_by_each [] t f h = tt
  read_by_each (th ∷ ths) t (f, fs) (h, hs) =
      let (rest, e) = run_thread-HandsOn th f in
      (
        subst (Has t) (sym e)
            (Has-append_left t (times (filled_bufs av (run_thread av th))) rest h),
        read_by_each ths t fs hs,
      )

  pub length-streams : (threads : List (Thread av)) → length (streams threads) ≡ length threads
  length-streams [] = refl
  length-streams (t ∷ ts) = omega (arith, length-streams ts)

  handed_by_each :
      (threads : List (Thread av)) (t : ℕ)
      → All (λ th. Has t (times (filled_bufs av (run_thread av th)))) threads
      → All (Has t) (map times (streams threads))
  handed_by_each [] t h = tt
  handed_by_each (th ∷ ths) t (h, hs) = (h, handed_by_each ths t hs)

  module _ (threads : List (Thread av)) (fresh : All IsFresh threads) (ascend : All Ascends threads)
      (some_camera : 1 ≤ length threads) where
    -- With one camera or more, fresh threads, and timestamps that increase in what each thread reads: whatever
    -- the network, the decoders, the allocations and the order of the threads do, a frameset has a timestamp
    -- that every thread has read from its camera.
    pub framesets_read :
        (events : List Event) (t : ℕ)
        → Has t (serve av threads events).framesets
        → All (λ th. Has t (timestamps_read (run_thread av th))) threads
    unfolding serve
    framesets_read events t h = read_by_each threads t fresh (
        framesets_sent (streams threads) (streams-AllIncreasing threads fresh ascend)
          (omega (arith, length-streams threads)) events t h)

    -- Under the same conditions, if every thread hands on a buffer of this timestamp, then as many passes that
    -- find all queues filled as there are buffers, or more, give a frameset of it.
    pub framesets_catch_up :
        (k t : ℕ)
        → frame_count (streams threads) ≤ k
        → All (λ th. Has t (times (filled_bufs av (run_thread av th)))) threads
        → Has t (serve av threads (steady k (length threads))).framesets
    unfolding serve
    framesets_catch_up k t l h = rw (length-streams threads) at (
        catches_up (streams threads) (streams-AllIncreasing threads fresh ascend)
          (omega (arith, length-streams threads)) k t l (handed_by_each threads t h))
