-- ===== src/Frameset/Alignment/Discarding.antt =====
-- The branch of the loop in frameset_server/src/main.c for timestamps that differ.
use hand_motion_capture.Prelude.{
  ℕ, ◌≤◌, ◌<◌, ◌≡◌, refl, sym, subst, true, List, [], ◌∷◌, map, arith, ◌⊎◌, inl, inr, All,
}
use hand_motion_capture.Frameset.{
  Lane, Assembly, is_full, current_time, max_timestamp, discard_other,
}
use hand_motion_capture.Frameset.Lanes.{
  Has, Any, Increasing, times, pending, returned_times, stream_times, Has-append_left, Has-before,
  Paired, All-Paired, Any-Paired_back,
}
use hand_motion_capture.Frameset.Matching.{
  max_timestamp_attained, is_some-some, Discards, discard-Discards,
}
use hand_motion_capture.Frameset.Alignment.{
  IsAligned, SameStream, Paired-weaken, keep-Increasing, keep_streams, Has-snoc,
}

Paired-All :
    (R : Lane → Lane → Type 0) (P : Lane → Type 0) (xs ys : List Lane)
    → Paired R xs ys
    → All P xs
    → Paired (λ x y. R x y × P x) xs ys
Paired-All R P [] [] r h = tt
Paired-All R P [] (y ∷ ys) r h = absurd r
Paired-All R P (x ∷ xs) [] r h = absurd r
Paired-All R P (x ∷ xs) (y ∷ ys) r h = ((r.0, h.0), Paired-All R P xs ys r.1 h.1)

-- The camera whose frame is the latest has given an earlier time back, if it sends that time at all.
latest_gave_back :
    (t m : ℕ) (lanes : List Lane)
    → t < m
    → is_full lanes ≡ true
    → All (λ l. Increasing (stream_times l)) lanes
    → All (λ l. Has t (stream_times l)) lanes
    → Any (λ l. current_time l.current ≡ m) lanes
    → Any (λ l. Has t (returned_times l)) lanes
unfolding is_full current_time
latest_gave_back t m [] l f inc h a = absurd a
latest_gave_back t m (x ∷ xs) l f inc h (inl e) =
    let (b, c) = is_some-some x.current (ground arith) in
    let time : b.timestamp ≡ m = rw c at e in
    let held : pending x.current x.filled ≡ m ∷ times x.filled = rw (c, time) refl in
    inl
      (Has-before t m (returned_times x) (times x.filled) (rw held at (inc.0)) l (rw held at (h.0)))
latest_gave_back t m (x ∷ xs) l f inc h (inr a) =
    inr (latest_gave_back t m xs l (ground arith) inc.1 h.1 a)

pub discard-IsAligned :
    (s : Assembly) (m : ℕ)
    → is_full s.lanes ≡ true
    → max_timestamp 0 s.lanes ≡ m
    → IsAligned s
    → IsAligned (record s { lanes = map (discard_other m) s.lanes })
discard-IsAligned s m f e a =
    let lanes' = map (discard_other m) s.lanes in
    let (attained, bound) = max_timestamp_attained 0 m s.lanes e in
    let r : Paired (Discards m) s.lanes lanes' = discard-Discards m s.lanes f in
    let within = Paired-All (Discards m) (λ l. current_time l.current ≤ m) s.lanes lanes' r bound in
    let streams = Paired-weaken (Discards m) SameStream s.lanes lanes' same r in
    record {
      increasing = keep-Increasing s.lanes lanes' streams a.increasing;
      sound = λ t h.
          All-Paired (Discards m) (λ l. Has t (returned_times l)) (λ l. Has t (returned_times l))
            s.lanes lanes' r (kept t) (a.sound t h);
      complete = λ t h g.
          let h' = keep_streams s.lanes lanes' streams t h in
          let g' =
            Any-Paired_back (λ x y. Discards m x y × (current_time x.current ≤ m))
              (λ l. Has t (returned_times l)) (λ l. Has t (returned_times l) ⊎ (t < m)) s.lanes
              lanes' within (gained t) g in
          a.complete t h' (elim (split t s.lanes g') [
            | inl old ↦ old
            | inr early ↦
                latest_gave_back t m s.lanes early f a.increasing h' (at_latest t early attained)
          ]);
    }
  where
    same : (x y : Lane) → Discards m x y → SameStream x y
    same x y (inl k) = k.same_stream
    same x y (inr (t, e', ne, k)) = k.same_stream

    kept :
        (t : ℕ) (x y : Lane) → Discards m x y → Has t (returned_times x) → Has t (returned_times y)
    kept t x y (inl k) h = subst (Has t) (sym k.same_returned) h
    kept t x y (inr (u, e', ne, k)) h =
        subst (Has t) (sym k.one_more) (Has-append_left t (returned_times x) (u ∷ []) h)

    gained :
        (t : ℕ) (x y : Lane)
        → Discards m x y × (current_time x.current ≤ m)
        → Has t (returned_times y)
        → Has t (returned_times x) ⊎ (t < m)
    gained t x y (inl k, l) h = inl (subst (Has t) k.same_returned h)
    gained t x y (inr (u, e', ne, k), l) h =
        elim (Has-snoc t u (returned_times x) (subst (Has t) k.one_more h)) [
          | inl old ↦ inl old
          | inr now ↦ inr (ground (arith, now, e', ne))
        ]

    split :
        (t : ℕ) (xs : List Lane)
        → Any (λ l. Has t (returned_times l) ⊎ (t < m)) xs
        → Any (λ l. Has t (returned_times l)) xs ⊎ (t < m)
    split t [] b = absurd b
    split t (x ∷ xs) (inl (inl old)) = inl (inl old)
    split t (x ∷ xs) (inl (inr now)) = inr now
    split t (x ∷ xs) (inr b) = elim (split t xs b) [ inl old ↦ inl (inr old) | inr now ↦ inr now ]

    at_latest :
        (t : ℕ)
        → t < m
        → (m ≡ 0) ⊎ Any (λ l. current_time l.current ≡ m) s.lanes
        → Any (λ l. current_time l.current ≡ m) s.lanes
    at_latest t early (inl zero_max) = absurd (omega arith)
    at_latest t early (inr later) = later
