-- ===== src/Frameset/Alignment.antt =====
-- The framesets that the loop of frameset_server/src/main.c finds, against the timestamps of the
-- cameras.
pub mod Discarding
pub mod Run
use mathlib.Core.List.{map-map}
use hand_motion_capture.Prelude.{
  ℕ, ◌≤◌, ◌<◌, ◌≡◌, refl, sym, ◌∙◌, subst, List, [], ◌∷◌, ◌++◌, map, ◌⊎◌, inl, inr, All,
}
use hand_motion_capture.Frameset.{Lane, Assembly, release}
use hand_motion_capture.Frameset.Lanes.{
  Has, Any, Increasing, returned_times, stream_times, Has-append, Has-append_left, Has-append_right,
  Paired, All-Paired, Any-Paired_back,
}
use hand_motion_capture.Frameset.Matching.{Kept, Holds, GivesBack, release-GivesBack}

-- The framesets found are the timestamps that all cameras have given back, and no timestamp that all
-- cameras send has been given back by one of them without being found.
pub record IsAligned (s : Assembly) : Type 0 where
  pub increasing : All (λ l. Increasing (stream_times l)) s.lanes
  pub sound : (t : ℕ) → Has t s.framesets → All (λ l. Has t (returned_times l)) s.lanes
  pub complete :
      (t : ℕ)
      → All (λ l. Has t (stream_times l)) s.lanes
      → Any (λ l. Has t (returned_times l)) s.lanes
      → Has t s.framesets

abbrev pub SameStream : Lane → Lane → Type 0
SameStream l l' = stream_times l' ≡ stream_times l

pub Paired-weaken :
    (R S : Lane → Lane → Type 0) (xs ys : List Lane)
    → ((x y : Lane) → R x y → S x y)
    → Paired R xs ys
    → Paired S xs ys
Paired-weaken R S [] [] f r = tt
Paired-weaken R S [] (y ∷ ys) f r = absurd r
Paired-weaken R S (x ∷ xs) [] f r = absurd r
Paired-weaken R S (x ∷ xs) (y ∷ ys) f r = (f x y r.0, Paired-weaken R S xs ys f r.1)

pub Paired-streams :
    (xs ys : List Lane) → Paired SameStream xs ys → map stream_times ys ≡ map stream_times xs
Paired-streams [] [] r = refl
Paired-streams [] (y ∷ ys) r = absurd r
Paired-streams (x ∷ xs) [] r = absurd r
Paired-streams (x ∷ xs) (y ∷ ys) r = rw (r.0, Paired-streams xs ys r.1) refl

module _ (lanes lanes' : List Lane) (r : Paired SameStream lanes lanes') where
  pub keep-Increasing :
      All (λ l. Increasing (stream_times l)) lanes → All (λ l. Increasing (stream_times l)) lanes'
  keep-Increasing =
      All-Paired SameStream (λ l. Increasing (stream_times l)) (λ l. Increasing (stream_times l))
        lanes lanes' r (λ x y e h. subst Increasing (sym e) h)

  pub keep_streams :
      (t : ℕ) → All (λ l. Has t (stream_times l)) lanes' → All (λ l. Has t (stream_times l)) lanes
  keep_streams t h = back lanes lanes' r h
    where
      back :
          (xs ys : List Lane)
          → Paired SameStream xs ys
          → All (λ l. Has t (stream_times l)) ys
          → All (λ l. Has t (stream_times l)) xs
      back [] [] q h = tt
      back [] (y ∷ ys) q h = absurd q
      back (x ∷ xs) [] q h = absurd q
      back (x ∷ xs) (y ∷ ys) q h = (subst (Has t) q.0 h.0, back xs ys q.1 h.1)

-- A step that gives nothing back and finds nothing.
pub Kept-IsAligned :
    (s : Assembly) (lanes : List Lane)
    → Paired Kept s.lanes lanes
    → IsAligned s
    → IsAligned (record s { lanes = lanes })
Kept-IsAligned s lanes r a =
    let streams = Paired-weaken Kept SameStream s.lanes lanes (λ x y k. k.same_stream) r in
    record {
      increasing = keep-Increasing s.lanes lanes streams a.increasing;
      sound = λ t h.
          All-Paired Kept (λ l. Has t (returned_times l)) (λ l. Has t (returned_times l)) s.lanes
            lanes r (λ x y k g. subst (Has t) (sym k.same_returned) g) (a.sound t h);
      complete = λ t h g. a.complete t (keep_streams s.lanes lanes streams t h) (
          Any-Paired_back Kept (λ l. Has t (returned_times l)) (λ l. Has t (returned_times l))
            s.lanes lanes r (λ x y k g'. subst (Has t) k.same_returned g') g);
    }

pub Has-snoc : (t m : ℕ) (xs : List ℕ) → Has t (xs ++ m ∷ []) → Has t xs ⊎ (t ≡ m)
Has-snoc t m xs h = elim (Has-append t xs (m ∷ []) h) [
  | inl before ↦ inl before
  | inr last ↦ inr (only last)
]
  where
    only : Has t (m ∷ []) → t ≡ m
    only (inl e) = e
    only (inr h') = absurd h'

-- A full set of one time is found, and given back.
pub receive-IsAligned :
    (s : Assembly) (m : ℕ)
    → All (Holds m) s.lanes
    → IsAligned s
    → (s' : Assembly) → s'.lanes ≡ map release s.lanes
    → s'.framesets ≡ s.framesets ++ m ∷ []
    → IsAligned s'
receive-IsAligned s m h a s' e f =
    let r : Paired (GivesBack m) s.lanes s'.lanes = rw e (release-GivesBack m s.lanes h) in
    let streams =
      Paired-weaken (GivesBack m) SameStream s.lanes s'.lanes (λ x y k. k.same_stream) r in
    record {
      increasing = keep-Increasing s.lanes s'.lanes streams a.increasing;
      sound = λ t g. elim (Has-snoc t m s.framesets (subst (Has t) f g)) [
        | inl old ↦
            All-Paired (GivesBack m) (λ l. Has t (returned_times l)) (λ l. Has t (returned_times l))
              s.lanes s'.lanes r
              (λ x y k b.
                subst (Has t) (sym k.one_more) (Has-append_left t (returned_times x) (m ∷ []) b))
              (a.sound t old)
        | inr now ↦
            All-Paired (GivesBack m) (Holds m) (λ l. Has t (returned_times l)) s.lanes s'.lanes r
              (λ x y k b.
                subst (Has t) (sym k.one_more)
                  (Has-append_right t (returned_times x) (m ∷ []) (inl now)))
              h
      ];
      complete = λ t g b. subst (Has t) (sym f) (
          found t (keep_streams s.lanes s'.lanes streams t g) (
            Any-Paired_back (GivesBack m) (λ l. Has t (returned_times l))
              (λ l. Has t (returned_times l) ⊎ (t ≡ m)) s.lanes s'.lanes r
              (λ x y k c. Has-snoc t m (returned_times x) (subst (Has t) k.one_more c)) b));
    }
  where
    split :
        (t : ℕ) (xs : List Lane)
        → Any (λ l. Has t (returned_times l) ⊎ (t ≡ m)) xs
        → Any (λ l. Has t (returned_times l)) xs ⊎ (t ≡ m)
    split t [] b = absurd b
    split t (x ∷ xs) (inl (inl old)) = inl (inl old)
    split t (x ∷ xs) (inl (inr now)) = inr now
    split t (x ∷ xs) (inr b) = elim (split t xs b) [ inl old ↦ inl (inr old) | inr now ↦ inr now ]

    found :
        (t : ℕ)
        → All (λ l. Has t (stream_times l)) s.lanes
        → Any (λ l. Has t (returned_times l) ⊎ (t ≡ m)) s.lanes
        → Has t (s.framesets ++ m ∷ [])
    found t g b = elim (split t s.lanes b) [
      | inl old ↦ Has-append_left t s.framesets (m ∷ []) (a.complete t g old)
      | inr now ↦ Has-append_right t s.framesets (m ∷ []) (inl now)
    ]
