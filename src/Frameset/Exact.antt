-- ===== src/Frameset/Exact.antt =====
-- Which framesets a run of the loop in frameset_server/src/main.c finds.
use hand_motion_capture.Prelude.{
  ℕ, suc, ◌+◌, ◌≤◌, ◌≡◌, ◌↔◌, refl, sym, ap, ◌∙◌, subst, List, [], ◌∷◌, map, arith, inr, All,
  length,
}
use hand_motion_capture.Frameset.{TsFrameBuf, Lane, pass, Event, main_loop, start}
use hand_motion_capture.Frameset.Lanes.{Has, Any, times, returned_times, stream_times}
use hand_motion_capture.Frameset.Alignment.{IsAligned}
use hand_motion_capture.Frameset.Alignment.Run.{
  AllIncreasing, start-streams, start-IsAligned, main_loop-IsAligned, main_loop-streams,
  pass-streams, All-map, Any-Has, sent-Has,
}
use hand_motion_capture.Frameset.Progress.{total_left, steady, steady-IsSpent, IsSpent-returned}

length-map_native : (f : Lane → List ℕ) (xs : List Lane) → length (map f xs) ≡ length xs
length-map_native f [] = refl
length-map_native f (x ∷ xs) = ap suc (length-map_native f xs)

length-times : (xs : List (List TsFrameBuf)) → length (map times xs) ≡ length xs
length-times [] = refl
length-times (x ∷ xs) = ap suc (length-times xs)

same_length :
    (xs ys : List Lane) → map stream_times xs ≡ map stream_times ys → length xs ≡ length ys
same_length xs ys e =
    sym (length-map_native stream_times xs)
    ∙ (ap (length {0}) e ∙ length-map_native stream_times ys)

-- All frames of all cameras.
abbrev pub frame_count : List (List TsFrameBuf) → ℕ
frame_count [] = 0
frame_count (xs ∷ streams) = length (times xs) + frame_count streams

total_left-start :
    (streams : List (List TsFrameBuf)) → total_left (start streams).lanes ≡ frame_count streams
unfolding total_left start
total_left-start [] = refl
total_left-start (x ∷ xs) = ap (◌+◌ (length (times x))) (total_left-start xs)

map-All :
    (t : ℕ) (lanes : List Lane)
    → All (λ l. Has t (stream_times l)) lanes
    → All (Has t) (map stream_times lanes)
map-All t [] h = tt
map-All t (l ∷ ls) h = (h.0, map-All t ls h.1)

module _ (streams : List (List TsFrameBuf)) (increasing : AllIncreasing streams) where
  run_streams :
      (es : List Event) → map stream_times (main_loop es (start streams)).lanes ≡ map times streams
  run_streams es = main_loop-streams es (start streams) ∙ start-streams streams

  run-IsAligned : (es : List Event) → IsAligned (main_loop es (start streams))
  run-IsAligned es = main_loop-IsAligned es (start streams) (start-IsAligned streams increasing)

  cameras : (es : List Event) → length (main_loop es (start streams)).lanes ≡ length streams
  cameras es =
      sym (length-map_native stream_times (main_loop es (start streams)).lanes)
      ∙ (ap (length {0}) (run_streams es) ∙ length-times streams)

  sent_by_each :
      (es : List Event) (t : ℕ)
      → All (Has t) (map times streams)
      → All (λ l. Has t (stream_times l)) (main_loop es (start streams)).lanes
  sent_by_each es t h =
      All-map t (main_loop es (start streams)).lanes (subst (All (Has t)) (sym (run_streams es)) h)

  -- With one camera or more, each of which sends frames of increasing timestamps: at any moment of any
  -- run, whichever queues have buffers when the loop looks, the timestamps of the framesets are those of
  -- which every camera's buffer has been given back as empty.
  pub framesets_exact :
      1 ≤ length streams
      → (es : List Event) (t : ℕ)
      → Has t (main_loop es (start streams)).framesets
        ↔ All (λ l. Has t (returned_times l)) (main_loop es (start streams)).lanes
  framesets_exact n es t =
      let a = run-IsAligned es in
      let lanes = (main_loop es (start streams)).lanes in
      (
        a.sound t,
        λ h. a.complete t (sent-Has t lanes h) (Any-Has t lanes (omega (arith, cameras es)) h),
      )

  -- No frameset is lost: if the timestamps of each camera increase, all cameras send a frame of this
  -- timestamp, and one of these buffers has been given back, then there was a frameset of it.
  pub none_lost :
      (es : List Event) (t : ℕ)
      → All (Has t) (map times streams)
      → Any (λ l. Has t (returned_times l)) (main_loop es (start streams)).lanes
      → Has t (main_loop es (start streams)).framesets
  none_lost es t h a = (run-IsAligned es).complete t (sent_by_each es t h) a

  -- If the timestamps of each camera increase and all cameras send a frame of this timestamp, then as many
  -- passes that find all queues filled as there are frames of all cameras, or more, give a frameset of it.
  pub catches_up :
      1 ≤ length streams
      → (k t : ℕ) → frame_count streams ≤ k
      → All (Has t) (map times streams)
      → Has t (main_loop (steady k (length streams)) (start streams)).framesets
  catches_up n k t l h =
      let es = steady k (length streams) in
      let lanes = (main_loop es (start streams)).lanes in
      let spent =
        steady-IsSpent k (length streams) (start streams)
          (λ s ready e. same_length (pass ready s).lanes s.lanes (pass-streams ready s) ∙ e) n
          (unfold main_loop in cameras []) (inr (omega (arith, total_left-start streams))) in
      none_lost es t h (IsSpent-returned t lanes spent (sent_by_each es t h))

  -- A frameset has a timestamp that every camera sends.
  pub framesets_sent :
      1 ≤ length streams
      → (es : List Event) (t : ℕ) → Has t (main_loop es (start streams)).framesets
      → All (Has t) (map times streams)
  framesets_sent n es t h =
      let lanes = (main_loop es (start streams)).lanes in
      subst (All (Has t)) (run_streams es)
        (map-All t lanes (sent-Has t lanes ((framesets_exact n es t).0 h)))
