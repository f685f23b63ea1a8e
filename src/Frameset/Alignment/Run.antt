-- ===== src/Frameset/Alignment/Run.antt =====
-- Runs of the loop in frameset_server/src/main.c.
use mathlib.Core.List.{map-map}
use hand_motion_capture.Prelude.{
  ℕ, ◌≤◌, ◌≡◌, refl, ◌∙◌, Bool, true, List, [], ◌∷◌, map, arith, Bool-cases, inl, inr, All, length,
}
use hand_motion_capture.Frameset.{
  TsFrameBuf, Lane, Assembly, fill, is_full, max_timestamp, all_equal, discard_other, release,
  receive, match_frames, pass, Event, passes, takes, handle, main_loop, start,
}
use hand_motion_capture.Frameset.Lanes.{
  Has, Any, Increasing, times, pending, returned_times, stream_times, Has-append_left,
}
use hand_motion_capture.Frameset.Matching.{
  Kept, fill-Kept, all_equal-Holds, GivesBack, release-GivesBack, Discards, discard-Discards,
}
use hand_motion_capture.Frameset.Alignment.{
  IsAligned, SameStream, Paired-weaken, Paired-streams, Kept-IsAligned, receive-IsAligned,
}
use hand_motion_capture.Frameset.Alignment.Discarding.{discard-IsAligned}

pass-IsAligned : (ready : List Bool) (s : Assembly) → IsAligned s → IsAligned (pass ready s)
unfolding pass
pass-IsAligned ready s a = elim (Bool-cases (is_full lanes)) [
  | inr missing ↦ rw missing filled
  | inl full ↦ rw full (matched full)
]
  where
    lanes : List Lane
    lanes = fill ready s.lanes

    filled : IsAligned (record s { lanes = lanes })
    filled = Kept-IsAligned s lanes (fill-Kept ready s.lanes) a

    matched : is_full lanes ≡ true → IsAligned (match_frames lanes s)
    matched full = elim (Bool-cases (all_equal (max_timestamp 0 lanes) lanes)) [
      | inl equal ↦
          unfold match_frames receive in
          rw equal (
            receive-IsAligned (record s { lanes = lanes }) (max_timestamp 0 lanes)
              (all_equal-Holds (max_timestamp 0 lanes) lanes full equal) filled _ refl refl)
      | inr different ↦
          unfold match_frames in
          rw different (
            discard-IsAligned (record s { lanes = lanes }) (max_timestamp 0 lanes) full refl filled)
    ]

-- A pass neither makes nor loses a frame of a camera, nor does it change their order.
pub pass-streams :
    (ready : List Bool) (s : Assembly)
    → map stream_times (pass ready s).lanes ≡ map stream_times s.lanes
unfolding pass
pass-streams ready s = elim (Bool-cases (is_full lanes)) [
  | inr missing ↦ rw missing filled
  | inl full ↦ rw full (matched full ∙ filled)
]
  where
    lanes : List Lane
    lanes = fill ready s.lanes

    filled : map stream_times lanes ≡ map stream_times s.lanes
    filled = Paired-streams s.lanes lanes (
        Paired-weaken Kept SameStream s.lanes lanes (λ x y k. k.same_stream)
          (fill-Kept ready s.lanes))

    same : (m : ℕ) (x y : Lane) → Discards m x y → SameStream x y
    same m x y (inl k) = k.same_stream
    same m x y (inr (t, e', ne, k)) = k.same_stream

    matched :
        is_full lanes ≡ true
        → map stream_times (match_frames lanes s).lanes ≡ map stream_times lanes
    matched full =
        let m = max_timestamp 0 lanes in
        elim (Bool-cases (all_equal m lanes)) [
          | inl equal ↦
              unfold match_frames receive in
              rw equal (
                Paired-streams lanes (map release lanes) (
                  Paired-weaken (GivesBack m) SameStream lanes (map release lanes)
                    (λ x y k. k.same_stream)
                    (release-GivesBack m lanes (all_equal-Holds m lanes full equal))))
          | inr different ↦
              unfold match_frames in
              rw different (
                Paired-streams lanes (map (discard_other m) lanes) (
                  Paired-weaken (Discards m) SameStream lanes (map (discard_other m) lanes) (same m)
                    (discard-Discards m lanes full)))
        ]

pub handle-IsAligned : (e : Event) (s : Assembly) → IsAligned s → IsAligned (handle e s)
unfolding handle
handle-IsAligned (passes ready) s a = pass-IsAligned ready s a
handle-IsAligned takes s a = record {
  increasing = a.increasing;
  sound = a.sound;
  complete = a.complete;
}

handle-streams :
    (e : Event) (s : Assembly) → map stream_times (handle e s).lanes ≡ map stream_times s.lanes
unfolding handle
handle-streams (passes ready) s = pass-streams ready s
handle-streams takes s = refl

pub main_loop-IsAligned :
    (es : List Event) (s : Assembly) → IsAligned s → IsAligned (main_loop es s)
unfolding main_loop
main_loop-IsAligned [] s a = a
main_loop-IsAligned (e ∷ es) s a = main_loop-IsAligned es (handle e s) (handle-IsAligned e s a)

pub main_loop-streams :
    (es : List Event) (s : Assembly)
    → map stream_times (main_loop es s).lanes ≡ map stream_times s.lanes
unfolding main_loop
main_loop-streams [] s = refl
main_loop-streams (e ∷ es) s = main_loop-streams es (handle e s) ∙ handle-streams e s

-- The timestamps that each camera sends are in increasing order.
abbrev pub AllIncreasing : List (List TsFrameBuf) → Type 0
AllIncreasing streams = All (λ bufs. Increasing (times bufs)) streams

pub start-streams :
    (streams : List (List TsFrameBuf)) → map stream_times (start streams).lanes ≡ map times streams
unfolding start
start-streams streams = map-map _ _ streams

pub start-IsAligned :
    (streams : List (List TsFrameBuf)) → AllIncreasing streams → IsAligned (start streams)
unfolding start
start-IsAligned streams inc = record {
  increasing = increasing streams inc;
  sound = λ t h. absurd h;
  complete = λ t h a. absurd (nothing t streams a);
}
  where
    increasing :
        (xs : List (List TsFrameBuf))
        → AllIncreasing xs
        → All (λ l. Increasing (stream_times l)) (start xs).lanes
    increasing [] h = tt
    increasing (x ∷ xs) h = (h.0, increasing xs h.1)

    nothing :
        (t : ℕ) (xs : List (List TsFrameBuf))
        → Any (λ l. Has t (returned_times l)) (start xs).lanes
        → ⊥
    nothing t [] a = a
    nothing t (x ∷ xs) (inl h) = h
    nothing t (x ∷ xs) (inr a) = nothing t xs a

pub All-map :
    (t : ℕ) (lanes : List Lane)
    → All (Has t) (map stream_times lanes)
    → All (λ l. Has t (stream_times l)) lanes
All-map t [] h = tt
All-map t (l ∷ ls) h = (h.0, All-map t ls h.1)

pub Any-Has :
    (t : ℕ) (lanes : List Lane)
    → 1 ≤ length lanes
    → All (λ l. Has t (returned_times l)) lanes
    → Any (λ l. Has t (returned_times l)) lanes
Any-Has t [] n h = absurd (omega arith)
Any-Has t (l ∷ ls) n h = inl h.0

pub sent-Has :
    (t : ℕ) (lanes : List Lane)
    → All (λ l. Has t (returned_times l)) lanes
    → All (λ l. Has t (stream_times l)) lanes
sent-Has t [] h = tt
sent-Has t (l ∷ ls) h =
    (Has-append_left t (returned_times l) (pending l.current l.filled) h.0, sent-Has t ls h.1)
