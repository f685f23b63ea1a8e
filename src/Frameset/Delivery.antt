-- ===== src/Frameset/Delivery.antt =====
-- What frameset_server/src/main.c puts into the memory that it shares with the consumer.
use hand_motion_capture.Prelude.{
  ℕ, ◌≡◌, refl, sym, ◌∙◌, subst, Bool, true, false, List, [], ◌∷◌, ◌++◌, map, Option, none, some,
  arith, ◌==◌, Bool-cases, inl, inr, All, append-nil,
}
use hand_motion_capture.Frameset.{
  TsFrameBuf, Lane, Shared, Assembly, dequeue_filled, poll, fill, is_full, current_time,
  max_timestamp, all_equal, give_back, discard_other, release, picture, hand_over, receive,
  match_frames, pass, Event, passes, takes, handle, main_loop, start,
}
use hand_motion_capture.Frameset.Lanes.{Has, Any, Has-append_left, Has-append_right, Paired}
use hand_motion_capture.Frameset.Matching.{Holds, all_equal-Holds}

-- A buffer with this time and this picture.
abbrev pub IsFrame : ℕ → ℕ → TsFrameBuf → Type 0
IsFrame t frame b = (b.timestamp ≡ t) × (b.frame_buf ≡ frame)

-- One picture of each camera, in their order, from a buffer of the given time that was given back.
abbrev pub Delivers : ℕ → List Lane → List ℕ → Type 0
Delivers t [] [] = Unit
Delivers t (l ∷ ls) (f ∷ fs) = Any (IsFrame t f) l.returned × Delivers t ls fs
Delivers t _ _ = ⊥

abbrev pub IsDelivered : Option Shared → List Lane → List ℕ → Type 0
IsDelivered none lanes framesets = Unit
IsDelivered (some m) lanes framesets =
    Delivers m.timestamp lanes m.frames × Has m.timestamp framesets

-- Buffers are only added to those given back.
abbrev Grows : Lane → Lane → Type 0
Grows l l' = (more : List TsFrameBuf) × (l'.returned ≡ l.returned ++ more)

Any-append_left : (P : TsFrameBuf → Type 0) (xs ys : List TsFrameBuf) → Any P xs → Any P (xs ++ ys)
Any-append_left P [] ys h = absurd h
Any-append_left P (x ∷ xs) ys (inl h) = inl h
Any-append_left P (x ∷ xs) ys (inr h) = inr (Any-append_left P xs ys h)

Any-append_last :
    (P : TsFrameBuf → Type 0) (xs : List TsFrameBuf) (b : TsFrameBuf) → P b → Any P (xs ++ b ∷ [])
Any-append_last P [] b h = inl h
Any-append_last P (x ∷ xs) b h = inr (Any-append_last P xs b h)

Delivers-Grows :
    (t : ℕ) (xs ys : List Lane) (frames : List ℕ)
    → Paired Grows xs ys
    → Delivers t xs frames
    → Delivers t ys frames
Delivers-Grows t [] [] frames r h = h
Delivers-Grows t [] (y ∷ ys) frames r h = absurd r
Delivers-Grows t (x ∷ xs) [] frames r h = absurd r
Delivers-Grows t (x ∷ xs) (y ∷ ys) [] r h = absurd h
Delivers-Grows t (x ∷ xs) (y ∷ ys) (f ∷ fs) ((more, e), r) (h, hs) = (
  subst (Any (IsFrame t f)) (sym e) (Any-append_left (IsFrame t f) x.returned more h),
  Delivers-Grows t xs ys fs r hs,
)

IsDelivered-Grows :
    (m : Option Shared) (xs ys : List Lane) (ts more : List ℕ)
    → Paired Grows xs ys
    → IsDelivered m xs ts
    → IsDelivered m ys (ts ++ more)
IsDelivered-Grows none xs ys ts more r h = tt
IsDelivered-Grows (some m) xs ys ts more r (h, k) =
    (Delivers-Grows m.timestamp xs ys m.frames r h, Has-append_left m.timestamp ts more k)

Grows-refl : (l l' : Lane) → l'.returned ≡ l.returned → Grows l l'
Grows-refl l l' e = ([], e ∙ sym (append-nil l.returned))

poll-Grows : (ready : Bool) (l : Lane) → Grows l (poll ready l)
unfolding poll
poll-Grows ready l = on_current l.current
  where
    dequeued : (bufs : List TsFrameBuf) → (dequeue_filled ready bufs l).returned ≡ l.returned
    dequeued [] = refl
    dequeued (b ∷ bs) = ground arith

    on_current :
        (c : Option TsFrameBuf)
        → Grows l (elim c [ some b ↦ l | none ↦ dequeue_filled ready l.filled l ])
    on_current none = Grows-refl l (dequeue_filled ready l.filled l) (dequeued l.filled)
    on_current (some b) = Grows-refl l l refl

fill-Grows : (ready : List Bool) (lanes : List Lane) → Paired Grows lanes (fill ready lanes)
unfolding fill
fill-Grows ready [] = tt
fill-Grows [] (l ∷ ls) = (poll-Grows false l, fill-Grows [] ls)
fill-Grows (r ∷ rs) (l ∷ ls) = (poll-Grows r l, fill-Grows rs ls)

give_back-Grows : (c : Option TsFrameBuf) (l : Lane) → Grows l (give_back c l)
unfolding give_back
give_back-Grows none l = Grows-refl l l refl
give_back-Grows (some b) l = (b ∷ [], refl)

discard_other-Grows : (m : ℕ) (l : Lane) → Grows l (discard_other m l)
unfolding discard_other
discard_other-Grows m l = elim (Bool-cases (current_time l.current == m)) [
  | inl same ↦ rw same (Grows-refl l l refl)
  | inr other ↦ rw other (give_back-Grows l.current l)
]

map-Grows :
    (f : Lane → Lane) (lanes : List Lane)
    → ((l : Lane) → Grows l (f l))
    → Paired Grows lanes (map f lanes)
map-Grows f [] h = tt
map-Grows f (l ∷ ls) h = (h l, map-Grows f ls h)

release-Delivers :
    (m : ℕ) (lanes : List Lane)
    → All (Holds m) lanes
    → Delivers m (map release lanes) (map (λ l. picture l.current) lanes)
unfolding give_back
release-Delivers m [] h = tt
release-Delivers m (l ∷ ls) ((b, c, e), h) =
    (rw c (Any-append_last (IsFrame m b.frame_buf) l.returned b (e, refl)), release-Delivers m ls h)

-- What holds of the shared memory between two events.
abbrev pub Delivered : Assembly → Type 0
Delivered s = IsDelivered s.frameset_buf s.lanes s.framesets

pass-Delivered : (ready : List Bool) (s : Assembly) → Delivered s → Delivered (pass ready s)
unfolding pass
pass-Delivered ready s h = elim (Bool-cases (is_full lanes)) [
  | inr missing ↦ rw missing filled
  | inl full ↦ rw full (matched full)
]
  where
    lanes : List Lane
    lanes = fill ready s.lanes

    filled : IsDelivered s.frameset_buf lanes s.framesets
    filled =
        subst (IsDelivered s.frameset_buf lanes) (append-nil s.framesets) (
          IsDelivered-Grows s.frameset_buf s.lanes lanes s.framesets [] (fill-Grows ready s.lanes)
            h)

    received : (m : ℕ) → All (Holds m) lanes → Delivered (receive m lanes s)
    received m held = elim (Bool-cases (s.consumer_ready == 0)) [
      | inl waiting ↦
          unfold receive hand_over in
          rw waiting
            (release-Delivers m lanes held, Has-append_right m s.framesets (m ∷ []) (inl refl))
      | inr busy ↦
          unfold receive hand_over in
          rw busy (
            IsDelivered-Grows s.frameset_buf lanes (map release lanes) s.framesets (m ∷ [])
              (map-Grows release lanes (λ l. give_back-Grows l.current l)) filled)
    ]

    matched : is_full lanes ≡ true → Delivered (match_frames lanes s)
    matched full =
        let m = max_timestamp 0 lanes in
        elim (Bool-cases (all_equal m lanes)) [
          | inl equal ↦
              unfold match_frames in rw equal (received m (all_equal-Holds m lanes full equal))
          | inr different ↦
              unfold match_frames in
              rw different (
                subst (IsDelivered s.frameset_buf (map (discard_other m) lanes))
                  (append-nil s.framesets)
                  (IsDelivered-Grows s.frameset_buf lanes (map (discard_other m) lanes) s.framesets
                    [] (map-Grows (discard_other m) lanes (discard_other-Grows m)) filled))
        ]

main_loop-Delivered : (es : List Event) (s : Assembly) → Delivered s → Delivered (main_loop es s)
unfolding main_loop handle
main_loop-Delivered [] s h = h
main_loop-Delivered (passes ready ∷ es) s h =
    main_loop-Delivered es (pass ready s) (pass-Delivered ready s h)
main_loop-Delivered (takes ∷ es) s h = main_loop-Delivered es (handle takes s) h

-- After any number of whole passes of the loop, with any streams and any waits of the consumer in
-- between, what the server has left in the shared memory, if anything, is the picture of a buffer of each
-- camera that has that timestamp and was given back, with the timestamp of a frameset.
pub shared_frames :
    (streams : List (List TsFrameBuf)) (es : List Event) → Delivered (main_loop es (start streams))
unfolding start
shared_frames streams es = main_loop-Delivered es (start streams) tt
