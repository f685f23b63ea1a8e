-- ===== src/System/Recording.antt =====
-- A recording without faults, from the timers of picam/src/main.cpp to the framesets of
-- frameset_server/src/main.c.
use hand_motion_capture.Prelude.{
  ℕ, zero, suc, ◌+◌, ◌*◌, ◌≤◌, ◌<◌, ◌≡◌, sym, ap, ◌∙◌, subst, List, [], ◌∷◌, map, Option, none,
  some, arith, All, length, u64_mod,
}
use hand_motion_capture.Timer.{Timespec, arm_all}
use hand_motion_capture.Timer.Schedule.{OnTime, frame_times, arm_all-frame_times}
use hand_motion_capture.Decoder.{Avcodec}
use hand_motion_capture.StreamMgr
use hand_motion_capture.StreamMgr.{Next}
use hand_motion_capture.StreamMgr.Order.Turns.{Paired}
use hand_motion_capture.StreamMgr.Wire.{coming}
use hand_motion_capture.StreamMgr.Streams.{IsReadable, stream_of, IsSupplied, IsHealthy, GoesOn}
use hand_motion_capture.StreamMgr.Streams.Run.{turns-stream_of}
use hand_motion_capture.Frameset.{Event}
use hand_motion_capture.Frameset.Lanes.{Has, Increasing, times}
use hand_motion_capture.Frameset.Progress.{steady}
use hand_motion_capture.Frameset.Exact.{frame_count}
use hand_motion_capture.System.{Thread, run_thread, filled_bufs, serve}
use hand_motion_capture.System.Threads.{
  timestamps_read, IsFresh, Ascends, streams, framesets_read, framesets_catch_up,
}

-- Frame times lie at or after the first.
frame_times-ge :
    (n next period from : ℕ) → from < next → All (λ y. from < y) (frame_times n next period)
frame_times-ge zero next period from h = tt
frame_times-ge (suc n) next period from h =
    (h, frame_times-ge n (next + period) period from (omega (arith, h)))

frame_times-Increasing : (n next period : ℕ) → 0 < period → Increasing (frame_times n next period)
frame_times-Increasing zero next period p = tt
frame_times-Increasing (suc n) next period p = (
  frame_times-ge n (next + period) period next (omega (arith, p)),
  frame_times-Increasing n (next + period) period p,
)

abbrev counted : Option (ℕ × List ℕ) → ℕ
counted none = 0
counted (some a) = a.0

abbrev pushed : Option (ℕ × List ℕ) → List ℕ
pushed none = []
pushed (some a) = a.1

module _ (av : Avcodec) (Open : av.Context → Type 0) where
  -- The camera of a thread arms its timer at these readings of its clocks, each before the frame that it
  -- arms for, and sends a packet for each time that `arm_timer` pushed. The thread has a turn for each
  -- packet, with memory and a buffer, and no read of it is cut short.
  pub record Records (timestamp frame_duration : ℕ) (th : Thread av) : Type 0 where
    pub clocks : List (Timespec × Timespec)
    pub packets : List (ℕ × List ℕ)
    pub rest : List ℕ
    pub errno : ℕ
    pub on_time : OnTime (timestamp + frame_duration * suc 0) frame_duration clocks
    pub armed :
        arm_all clocks timestamp frame_duration 0 []
        ≡ some (length packets, map (λ (p : ℕ × List ℕ). p.0) packets)
    pub sends : th.stream ≡ coming (stream_of packets rest) errno
    pub readable : All (λ (p : ℕ × List ℕ). IsReadable p.0 p.1) packets
    pub supplied : All IsSupplied th.inputs
    pub a_turn_each : length th.inputs ≡ length packets
    pub few : length clocks < u64_mod
    pub open_decoder : Open th.viddec

  -- The times of the frames that the camera of a thread takes in a turn each.
  abbrev pub scheduled : ℕ → ℕ → Thread av → List ℕ
  scheduled timestamp frame_duration th =
      frame_times (length th.inputs) (timestamp + frame_duration * suc 0) frame_duration

  module _ (healthy : IsHealthy av Open) (timestamp frame_duration : ℕ) where
    packets-scheduled :
        (th : Thread av) (r : Records timestamp frame_duration th)
        → map (λ (p : ℕ × List ℕ). p.0) r.packets ≡ scheduled timestamp frame_duration th
    packets-scheduled th r =
        let e =
          sym r.armed
          ∙ arm_all-frame_times r.clocks timestamp frame_duration 0 [] (omega (arith, r.few))
              r.on_time in
        let count : length r.clocks ≡ length th.inputs =
          omega (arith, ap counted e, r.a_turn_each) in
        rw count at (ap pushed e)

    GoesOn-read :
        (ts : List ℕ) (P : StreamMgr.Worker av → Type 0) (o : Next av)
        → ((w : StreamMgr.Worker av) → P w → w.timestamps ≡ ts)
        → GoesOn av Open P o
        → timestamps_read av o ≡ ts
    GoesOn-read ts P (Next.again w) f h = f w h
    GoesOn-read ts P (Next.proceed w) f h = absurd h
    GoesOn-read ts P (Next.err_cleanup w) f h = absurd h
    GoesOn-read ts P (Next.shutdown_cleanup w) f h = absurd h
    GoesOn-read ts P Next.undefined f h = absurd h

    pub read-scheduled :
        (th : Thread av)
        → IsFresh av th
        → Records timestamp frame_duration th
        → timestamps_read av (run_thread av th) ≡ scheduled timestamp frame_duration th
    unfolding run_thread
    read-scheduled th f r = rw r.sends (
        GoesOn-read (scheduled timestamp frame_duration th)
          (λ w.
            (w.stream ≡ coming r.rest r.errno)
            × ((w.timestamps ≡ map (λ (p : ℕ × List ℕ). p.0) r.packets)
                × ((w.packets ≡ map (λ (p : ℕ × List ℕ). p.1) r.packets) × Paired av w)))
          _ (λ w h. h.1.0 ∙ packets-scheduled th r)
          (turns-stream_of av Open th.viddec th.timestamp_queue th.current_buf r.errno r.packets
            r.rest th.inputs healthy r.open_decoder f.nothing_decoded f.nothing_queued f.eight_bytes
            f.eight_slots r.readable r.supplied r.a_turn_each
            (omega (arith, r.a_turn_each, f.in_turns))))

    ascending :
        (threads : List (Thread av))
        → 0 < frame_duration
        → All (IsFresh av) threads
        → All (Records timestamp frame_duration) threads
        → All (Ascends av) threads
    ascending [] d f r = tt
    ascending (th ∷ ths) d (f, fs) (r, rs) = (
      subst Increasing (sym (read-scheduled th f r)) (
          frame_times-Increasing (length th.inputs) (timestamp + frame_duration * suc 0)
            frame_duration d),
      ascending ths d fs rs,
    )

    each_scheduled :
        (threads : List (Thread av)) (t : ℕ)
        → All (IsFresh av) threads
        → All (Records timestamp frame_duration) threads
        → All (λ th. Has t (timestamps_read av (run_thread av th))) threads
        → All (λ th. Has t (scheduled timestamp frame_duration th)) threads
    each_scheduled [] t f r h = tt
    each_scheduled (th ∷ ths) t (f, fs) (r, rs) (h, hs) =
        (subst (Has t) (read-scheduled th f r) h, each_scheduled ths t fs rs hs)

    -- From the recorders' timers to the framesets: with one camera or more, all set to the same timestamp
    -- and the same positive frame duration, timers armed on time, each packet read whole, and decoders that
    -- report no error before they are flushed: in any order of the threads a frameset has the time
    -- `timestamp + n * frame_duration` of a frame that every camera has taken, one of as many frames as the
    -- thread has turns.
    pub framesets_scheduled :
        (threads : List (Thread av)) (events : List Event) (t : ℕ)
        → 0 < frame_duration
        → 1 ≤ length threads
        → All (IsFresh av) threads
        → All (Records timestamp frame_duration) threads
        → Has t (serve av threads events).framesets
        → All (λ th. Has t (scheduled timestamp frame_duration th)) threads
    framesets_scheduled threads events t d n f r h =
        each_scheduled threads t f r
          (framesets_read av threads f (ascending threads d f r) n events t h)

    -- With one camera or more, a positive frame duration, fresh threads, and cameras that record as `Records`
    -- says: if every thread hands on a buffer of this timestamp, then as many passes that find all queues filled as there are buffers, or more, give
    -- a frameset of it.
    pub recording_catches_up :
        (threads : List (Thread av)) (k t : ℕ)
        → 0 < frame_duration
        → 1 ≤ length threads
        → All (IsFresh av) threads
        → All (Records timestamp frame_duration) threads
        → frame_count (streams av threads) ≤ k
        → All (λ th. Has t (times (filled_bufs av (run_thread av th)))) threads
        → Has t (serve av threads (steady k (length threads))).framesets
    recording_catches_up threads k t d n f r l h =
        framesets_catch_up av threads f (ascending threads d f r) n k t l h
