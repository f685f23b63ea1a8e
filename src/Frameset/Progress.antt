-- ===== src/Frameset/Progress.antt =====
-- How far the loop of frameset_server/src/main.c gets if the queues of filled buffers keep up with it.
use hand_motion_capture.Prelude.{
  ℕ, zero, suc, ◌+◌, ◌≤◌, ◌<◌, ◌≡◌, refl, ap, ◌∙◌, subst, Bool, true, false, List, [], ◌∷◌, ◌++◌,
  map, Option, none, some, arith, ◌==◌, Bool-cases, ◌⊎◌, inl, inr, All, append-nil, length,
}
use hand_motion_capture.Frameset.{
  TsFrameBuf, Lane, Assembly, dequeue_filled, poll, fill, is_some, is_full, current_time,
  max_timestamp, all_equal, give_back, discard_other, release, receive, match_frames, pass, Event,
  passes, handle, main_loop,
}
use hand_motion_capture.Frameset.Lanes.{Has, Any, pending, returned_times, stream_times, Paired}
use hand_motion_capture.Frameset.Matching.{Kept, fill-Kept, is_some-some}

-- The frames of a camera that are still to be given back.
abbrev left : Lane → ℕ
left l = length (pending l.current l.filled)

unfoldable pub total_left : List Lane → ℕ
total_left [] = 0
total_left (l ∷ ls) = left l + total_left ls

-- Each of `n` queues has its next buffer.
unfoldable pub all_ready : ℕ → List Bool
all_ready zero = []
all_ready (suc n) = true ∷ all_ready n

-- A camera has no frame left.
abbrev pub IsSpent : List Lane → Type 0
IsSpent lanes = Any (λ l. pending l.current l.filled ≡ []) lanes

total_left-Kept : (xs ys : List Lane) → Paired Kept xs ys → total_left ys ≡ total_left xs
unfolding total_left
total_left-Kept [] [] r = refl
total_left-Kept [] (y ∷ ys) r = absurd r
total_left-Kept (x ∷ xs) [] r = absurd r
total_left-Kept (x ∷ xs) (y ∷ ys) r = rw (r.0.same_pending, total_left-Kept xs ys r.1) refl

IsSpent-Kept : (xs ys : List Lane) → Paired Kept xs ys → IsSpent xs → IsSpent ys
IsSpent-Kept [] ys r h = absurd h
IsSpent-Kept (x ∷ xs) [] r h = absurd r
IsSpent-Kept (x ∷ xs) (y ∷ ys) r (inl h) = inl (r.0.same_pending ∙ h)
IsSpent-Kept (x ∷ xs) (y ∷ ys) r (inr h) = inr (IsSpent-Kept xs ys r.1 h)

IsSpent-not_full : (lanes : List Lane) → IsSpent lanes → is_full lanes ≡ false
unfolding is_full
IsSpent-not_full [] h = absurd h
IsSpent-not_full (l ∷ ls) (inl h) = rw (none_held l.current l.filled h) refl
  where
    none_held :
        (c : Option TsFrameBuf) (bufs : List TsFrameBuf) → pending c bufs ≡ [] → is_some c ≡ false
    none_held none bufs e = refl
    none_held (some b) bufs e = absurd (cc e)
IsSpent-not_full (l ∷ ls) (inr h) = ground (arith, IsSpent-not_full ls h)

-- With every queue ready, a set is full unless a camera is spent.
fill-full :
    (lanes : List Lane) → IsSpent lanes ⊎ (is_full (fill (all_ready (length lanes)) lanes) ≡ true)
unfolding fill is_full all_ready
fill-full [] = inr refl
fill-full (l ∷ ls) = elim (polled l.current l.filled refl refl) [
  | inl spent ↦ inl (inl spent)
  | inr held ↦ elim (fill-full ls) [
    | inl spent ↦ inl (inr spent)
    | inr full ↦ inr (rw (held, full) refl)
  ]
]
  where
    polled :
        (c : Option TsFrameBuf) (bufs : List TsFrameBuf)
        → l.current ≡ c
        → l.filled ≡ bufs
        → (pending l.current l.filled ≡ []) ⊎ (is_some (poll true l).current ≡ true)
    polled none [] e f = inl (rw (e, f) refl)
    polled none (b ∷ bs) e f = inr (unfold poll dequeue_filled in rw (e, f) refl)
    polled (some b) bufs e f = inr (unfold poll in rw e refl)

left-give_back : (l : Lane) → is_some l.current ≡ true → suc (left (give_back l.current l)) ≡ left l
unfolding give_back
left-give_back l h = let (b, e) = is_some-some l.current h in rw e refl

left-release :
    (lanes : List Lane)
    → is_full lanes ≡ true
    → total_left (map release lanes) + length lanes ≡ total_left lanes
unfolding total_left is_full
left-release [] h = omega arith
left-release (l ∷ ls) h =
    let one = left-give_back l (ground arith) in omega (arith, one, left-release ls (ground arith))

left-discard :
    (m : ℕ) (lanes : List Lane)
    → is_full lanes ≡ true
    → (total_left (map (discard_other m) lanes) ≤ total_left lanes)
      × (all_equal m lanes ≡ false → total_left (map (discard_other m) lanes) < total_left lanes)
unfolding total_left is_full all_equal discard_other
left-discard m [] h = (omega arith, λ e. absurd (cc e))
left-discard m (l ∷ ls) h =
    let one = left-give_back l (ground arith) in
    let (no_more, fewer) = left-discard m ls (ground arith) in
    elim (Bool-cases (current_time l.current == m)) [
      | inl same ↦ rw same (omega (arith, no_more), λ e. omega (arith, fewer e))
      | inr other ↦ rw other (omega (arith, no_more, one), λ e. omega (arith, no_more, one))
    ]

-- A pass with every queue ready finds a camera spent, or gives a frame back.
pass-less :
    (s : Assembly)
    → 1 ≤ length s.lanes
    → IsSpent s.lanes
      ⊎ (total_left (pass (all_ready (length s.lanes)) s).lanes < total_left s.lanes)
unfolding pass
pass-less s n = elim (fill-full s.lanes) [
  | inl spent ↦ inl spent
  | inr full ↦ inr (rw full (matched full))
]
  where
    lanes : List Lane
    lanes = fill (all_ready (length s.lanes)) s.lanes

    same : total_left lanes ≡ total_left s.lanes
    same = total_left-Kept s.lanes lanes (fill-Kept (all_ready (length s.lanes)) s.lanes)

    count : (ready : List Bool) (ls : List Lane) → length (fill ready ls) ≡ length ls
    count ready [] = unfold fill in refl
    count [] (l ∷ ls) = unfold fill in ap suc (count [] ls)
    count (r ∷ rs) (l ∷ ls) = unfold fill in ap suc (count rs ls)

    matched : is_full lanes ≡ true → total_left (match_frames lanes s).lanes < total_left s.lanes
    matched full = elim (Bool-cases (all_equal (max_timestamp 0 lanes) lanes)) [
      | inl equal ↦
          unfold match_frames receive in
          rw equal (
            omega
              (arith, left-release lanes full, same, n, count (all_ready (length s.lanes)) s.lanes))
      | inr different ↦
          unfold match_frames in
          rw different
            (omega (arith, (left-discard (max_timestamp 0 lanes) lanes full).1 different, same))
    ]

-- A camera that is spent stays so.
pass-IsSpent : (ready : List Bool) (s : Assembly) → IsSpent s.lanes → IsSpent (pass ready s).lanes
unfolding pass
pass-IsSpent ready s h =
    let h' = IsSpent-Kept s.lanes (fill ready s.lanes) (fill-Kept ready s.lanes) h in
    rw (IsSpent-not_full (fill ready s.lanes) h') h'

total_left-IsSpent : (lanes : List Lane) → 1 ≤ length lanes → total_left lanes ≡ 0 → IsSpent lanes
unfolding total_left
total_left-IsSpent [] n h = absurd (omega arith)
total_left-IsSpent (l ∷ ls) n h = inl (empty (pending l.current l.filled) (omega arith))
  where
    empty : (xs : List ℕ) → length xs ≡ 0 → xs ≡ []
    empty [] e = refl
    empty (x ∷ xs) e = absurd (omega arith)

-- `k` passes of the loop with every queue ready.
unfoldable pub steady : ℕ → ℕ → List Event
steady zero cameras = []
steady (suc k) cameras = passes (all_ready cameras) ∷ steady k cameras

-- After as many passes as there are frames, a camera is spent.
pub steady-IsSpent :
    (k cameras : ℕ) (s : Assembly)
    → ((s' : Assembly) (ready : List Bool)
        → length s'.lanes ≡ cameras
        → length (pass ready s').lanes ≡ cameras)
    → 1 ≤ cameras
    → length s.lanes ≡ cameras
    → IsSpent s.lanes ⊎ (total_left s.lanes ≤ k)
    → IsSpent (main_loop (steady k cameras) s).lanes
unfolding main_loop steady handle
steady-IsSpent zero cameras s keep n e (inl spent) = spent
steady-IsSpent zero cameras s keep n e (inr l) =
    total_left-IsSpent s.lanes (omega arith) (omega arith)
steady-IsSpent (suc k) cameras s keep n e (inl spent) =
    steady-IsSpent k cameras (pass (all_ready cameras) s) keep n (keep s (all_ready cameras) e)
      (inl (pass-IsSpent (all_ready cameras) s spent))
steady-IsSpent (suc k) cameras s keep n e (inr l) =
    steady-IsSpent k cameras (pass (all_ready cameras) s) keep n (keep s (all_ready cameras) e)
      (elim (rw e at (pass-less s (omega arith))) [
        | inl spent ↦ inl (pass-IsSpent (all_ready cameras) s spent)
        | inr less ↦ inr (omega arith)
      ])

-- A camera that is spent has given all its timestamps back.
pub IsSpent-returned :
    (t : ℕ) (lanes : List Lane)
    → IsSpent lanes
    → All (λ l. Has t (stream_times l)) lanes
    → Any (λ l. Has t (returned_times l)) lanes
IsSpent-returned t [] h a = absurd h
IsSpent-returned t (l ∷ ls) (inl e) a =
    inl (subst (Has t) (ap (◌++◌ (returned_times l)) e ∙ append-nil (returned_times l)) a.0)
IsSpent-returned t (l ∷ ls) (inr h) a = inr (IsSpent-returned t ls h a.1)
