-- ===== src/Frameset/Matching.antt =====
-- The steps of a pass in frameset_server/src/main.c, on all lanes at once.
use hand_motion_capture.Prelude.{
  ℕ, ◌≤◌, ◌≡◌, ◌≢◌, refl, sym, ap, ◌∙◌, Bool, true, false, List, [], ◌∷◌, ◌++◌, map, Option, none,
  some, arith, ltb, ◌==◌, Bool-cases, ◌⊎◌, inl, inr, All, append_assoc,
}
use hand_motion_capture.Frameset.{
  TsFrameBuf, Lane, dequeue_filled, poll, fill, is_some, is_full, current_time, max_timestamp,
  all_equal, give_back, discard_other, release,
}
use hand_motion_capture.Frameset.Lanes.{
  Any, times, pending, returned_times, stream_times, times-append, Paired,
}

-- A step that gives nothing back.
pub record Kept (l l' : Lane) : Type 0 where
  pub same_stream : stream_times l' ≡ stream_times l
  pub same_returned : returned_times l' ≡ returned_times l
  pub same_pending : pending l'.current l'.filled ≡ pending l.current l.filled

poll-Kept : (ready : Bool) (l : Lane) → Kept l (poll ready l)
unfolding poll
poll-Kept ready l = on_current l.current refl
  where
    on_filled :
        (bufs : List TsFrameBuf)
        → l.filled ≡ bufs
        → l.current ≡ none
        → Kept l (dequeue_filled ready bufs l)
    on_filled [] e c = record { same_stream = refl; same_returned = refl; same_pending = refl }
    on_filled (b ∷ bs) e c = elim (Bool-cases ready) [
      | inl now ↦ rw now (record {
        same_stream = rw (c, e) refl;
        same_returned = refl;
        same_pending = rw (c, e) refl;
      })
      | inr later ↦
          rw later (record { same_stream = refl; same_returned = refl; same_pending = refl })
    ]

    on_current :
        (c : Option TsFrameBuf)
        → l.current ≡ c
        → Kept l (elim c [ some b ↦ l | none ↦ dequeue_filled ready l.filled l ])
    on_current none e = on_filled l.filled refl e
    on_current (some b) e = record { same_stream = refl; same_returned = refl; same_pending = refl }

pub fill-Kept : (ready : List Bool) (lanes : List Lane) → Paired Kept lanes (fill ready lanes)
unfolding fill
fill-Kept ready [] = tt
fill-Kept [] (l ∷ ls) = (poll-Kept false l, fill-Kept [] ls)
fill-Kept (r ∷ rs) (l ∷ ls) = (poll-Kept r l, fill-Kept rs ls)

pub max_timestamp-ge : (m : ℕ) (lanes : List Lane) → m ≤ max_timestamp m lanes
unfolding max_timestamp
max_timestamp-ge m [] = omega arith
max_timestamp-ge m (l ∷ ls) =
    ground (arith, max_timestamp-ge m ls, max_timestamp-ge (current_time l.current) ls)

-- The maximum is where it began, or the time of a frame that is held, and no frame held is later.
pub max_timestamp_attained :
    (m n : ℕ) (lanes : List Lane)
    → max_timestamp m lanes ≡ n
    → ((n ≡ m) ⊎ Any (λ l. current_time l.current ≡ n) lanes)
      × All (λ l. current_time l.current ≤ n) lanes
unfolding max_timestamp
max_timestamp_attained m n [] e = (inl (sym e), tt)
max_timestamp_attained m n (l ∷ ls) e = elim (Bool-cases (ltb m (current_time l.current))) [
  | inl more ↦
      let e' : max_timestamp (current_time l.current) ls ≡ n = rw more at e in
      let (a, h) = max_timestamp_attained (current_time l.current) n ls e' in
      let within : current_time l.current ≤ n =
        rw e' at (max_timestamp-ge (current_time l.current) ls) in
      (elim a [ inl at_l ↦ inr (inl (sym at_l)) | inr later ↦ inr (inr later) ], (within, h))
  | inr less ↦
      let e' : max_timestamp m ls ≡ n = rw less at e in
      let (a, h) = max_timestamp_attained m n ls e' in
      let within : m ≤ n = rw e' at (max_timestamp-ge m ls) in
      (elim a [ inl start ↦ inl start | inr later ↦ inr (inr later) ], (ground arith, h))
]

-- Every frame is held, at the given time.
abbrev pub Holds : ℕ → Lane → Type 0
Holds m l = (b : TsFrameBuf) × (l.current ≡ some b) × (b.timestamp ≡ m)

pub is_some-some : (c : Option TsFrameBuf) → is_some c ≡ true → (b : TsFrameBuf) × (c ≡ some b)
is_some-some none h = absurd (cc h)
is_some-some (some b) h = (b, refl)

pub all_equal-Holds :
    (m : ℕ) (lanes : List Lane)
    → is_full lanes ≡ true
    → all_equal m lanes ≡ true
    → All (Holds m) lanes
unfolding is_full all_equal current_time
all_equal-Holds m [] f e = tt
all_equal-Holds m (l ∷ ls) f e =
    let (b, c) = is_some-some l.current (ground arith) in
    let time : current_time l.current ≡ m = unfold current_time in ground arith in
    ((b, c, (rw c at time)), all_equal-Holds m ls (ground arith) (ground arith))

-- A step that gives a frame of a given time back.
pub record GivesBack (m : ℕ) (l l' : Lane) : Type 0 where
  pub same_stream : stream_times l' ≡ stream_times l
  pub one_more : returned_times l' ≡ returned_times l ++ m ∷ []

give_back-GivesBack :
    (l : Lane) (b : TsFrameBuf)
    → l.current ≡ some b
    → GivesBack b.timestamp l (give_back l.current l)
unfolding give_back
give_back-GivesBack l b e = rw e (record {
  same_stream =
      ap (λ (ts : List ℕ). ts ++ times l.filled) (times-append l.returned (b ∷ []))
      ∙ append_assoc (times l.returned) (b.timestamp ∷ []) (times l.filled);
  one_more = times-append l.returned (b ∷ []);
})

pub release-GivesBack :
    (m : ℕ) (lanes : List Lane)
    → All (Holds m) lanes
    → Paired (GivesBack m) lanes (map release lanes)
release-GivesBack m [] h = tt
release-GivesBack m (l ∷ ls) ((b, c, e), h) =
    (rw e at (give_back-GivesBack l b c), release-GivesBack m ls h)

-- A frame of another time is given back, and one of this time is held on to.
abbrev pub Discards : ℕ → Lane → Lane → Type 0
Discards m l l' = Kept l l' ⊎ ((t : ℕ) × (t ≡ current_time l.current) × (t ≢ m) × GivesBack t l l')

discard_other-Discards :
    (m : ℕ) (l : Lane) → is_some l.current ≡ true → Discards m l (discard_other m l)
unfolding discard_other
discard_other-Discards m l f = elim (Bool-cases (current_time l.current == m)) [
  | inl same ↦
      rw same (inl (record { same_stream = refl; same_returned = refl; same_pending = refl }))
  | inr other ↦
      let (b, c) = is_some-some l.current f in
      let t : current_time l.current ≡ b.timestamp = unfold current_time in rw c in
      rw other (inr (b.timestamp, sym t, (λ e. ground (arith, t, e)), give_back-GivesBack l b c))
]

pub discard-Discards :
    (m : ℕ) (lanes : List Lane)
    → is_full lanes ≡ true
    → Paired (Discards m) lanes (map (discard_other m) lanes)
unfolding is_full
discard-Discards m [] f = tt
discard-Discards m (l ∷ ls) f =
    (discard_other-Discards m l (ground arith), discard-Discards m ls (ground arith))
