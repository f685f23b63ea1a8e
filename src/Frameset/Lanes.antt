-- ===== src/Frameset/Lanes.antt =====
-- The lanes of the loop in frameset_server/src/main.c: what each step does to the frames of one camera.
use hand_motion_capture.Prelude.{
  ℕ, ◌≤◌, ◌<◌, ◌≡◌, refl, ap, List, [], ◌∷◌, ◌++◌, map, Option, none, some, arith, ◌⊎◌, inl, inr,
  All,
}
use hand_motion_capture.Frameset.{TsFrameBuf, Lane}

abbrev pub Has : ℕ → List ℕ → Type 0
Has t [] = ⊥
Has t (x ∷ xs) = (t ≡ x) ⊎ Has t xs

-- Some element satisfies a predicate.
abbrev pub Any {ℓ} : {A : Type ℓ} → (A → Type 0) → List A → Type 0
Any P [] = ⊥
Any P (x ∷ xs) = P x ⊎ Any P xs

-- Strictly increasing.
abbrev pub Increasing : List ℕ → Type 0
Increasing [] = Unit
Increasing (x ∷ xs) = All (λ y. x < y) xs × Increasing xs

abbrev pub times : List TsFrameBuf → List ℕ
times = map (λ b. b.timestamp)

-- The frame that the loop holds, before those that are still to come.
abbrev pub pending : Option TsFrameBuf → List TsFrameBuf → List ℕ
pending none bufs = times bufs
pending (some b) bufs = b.timestamp ∷ times bufs

-- The timestamps given back, and all timestamps of the camera.
abbrev pub returned_times : Lane → List ℕ
returned_times l = times l.returned

abbrev pub stream_times : Lane → List ℕ
stream_times l = returned_times l ++ pending l.current l.filled

pub times-append : (xs ys : List TsFrameBuf) → times (xs ++ ys) ≡ times xs ++ times ys
times-append [] ys = refl
times-append (x ∷ xs) ys = ap (◌∷◌ x.timestamp) (times-append xs ys)

pub Has-append : (t : ℕ) (xs ys : List ℕ) → Has t (xs ++ ys) → Has t xs ⊎ Has t ys
Has-append t [] ys h = inr h
Has-append t (x ∷ xs) ys (inl e) = inl (inl e)
Has-append t (x ∷ xs) ys (inr h) = elim (Has-append t xs ys h) [
  | inl a ↦ inl (inr a)
  | inr b ↦ inr b
]

pub Has-append_left : (t : ℕ) (xs ys : List ℕ) → Has t xs → Has t (xs ++ ys)
Has-append_left t [] ys h = absurd h
Has-append_left t (x ∷ xs) ys (inl e) = inl e
Has-append_left t (x ∷ xs) ys (inr h) = inr (Has-append_left t xs ys h)

pub Has-append_right : (t : ℕ) (xs ys : List ℕ) → Has t ys → Has t (xs ++ ys)
Has-append_right t [] ys h = h
Has-append_right t (x ∷ xs) ys h = inr (Has-append_right t xs ys h)

All-Has : (t m : ℕ) (xs : List ℕ) → All (λ y. m < y) xs → Has t xs → m < t
All-Has t m [] a h = absurd h
All-Has t m (x ∷ xs) a (inl e) = omega (arith, e, a.0)
All-Has t m (x ∷ xs) a (inr h) = All-Has t m xs a.1 h

Increasing-append : (xs ys : List ℕ) → Increasing (xs ++ ys) → Increasing ys
Increasing-append [] ys h = h
Increasing-append (x ∷ xs) ys h = Increasing-append xs ys h.1

-- What comes before a later time in an increasing list comes before its position.
pub Has-before :
    (t m : ℕ) (xs ys : List ℕ) → Increasing (xs ++ m ∷ ys) → t < m → Has t (xs ++ m ∷ ys) → Has t xs
Has-before t m xs ys inc l h = elim (Has-append t xs (m ∷ ys) h) [
  | inl before ↦ before
  | inr after ↦ absurd (omega (arith, l, not_before after))
]
  where
    not_before : Has t (m ∷ ys) → m ≤ t
    not_before (inl e) = omega (arith, e)
    not_before (inr later) =
        omega (arith, All-Has t m ys (Increasing-append xs (m ∷ ys) inc).0 later)

-- Two lists of the same length, related element by element.
abbrev pub Paired : (Lane → Lane → Type 0) → List Lane → List Lane → Type 0
Paired R [] [] = Unit
Paired R (x ∷ xs) (y ∷ ys) = R x y × Paired R xs ys
Paired R _ _ = ⊥

module _ (R : Lane → Lane → Type 0) (P Q : Lane → Type 0) where
  pub All-Paired :
      (xs ys : List Lane)
      → Paired R xs ys
      → ((x y : Lane) → R x y → P x → Q y)
      → All P xs
      → All Q ys
  All-Paired [] [] r f h = tt
  All-Paired [] (y ∷ ys) r f h = absurd r
  All-Paired (x ∷ xs) [] r f h = absurd r
  All-Paired (x ∷ xs) (y ∷ ys) r f h = (f x y r.0 h.0, All-Paired xs ys r.1 f h.1)

  pub All-Paired_back :
      (xs ys : List Lane)
      → Paired R xs ys
      → ((x y : Lane) → R x y → P y → Q x)
      → All P ys
      → All Q xs
  All-Paired_back [] [] r f h = tt
  All-Paired_back [] (y ∷ ys) r f h = absurd r
  All-Paired_back (x ∷ xs) [] r f h = absurd r
  All-Paired_back (x ∷ xs) (y ∷ ys) r f h = (f x y r.0 h.0, All-Paired_back xs ys r.1 f h.1)

  pub Any-Paired_back :
      (xs ys : List Lane)
      → Paired R xs ys
      → ((x y : Lane) → R x y → P y → Q x)
      → Any P ys
      → Any Q xs
  Any-Paired_back [] [] r f h = absurd h
  Any-Paired_back [] (y ∷ ys) r f h = absurd r
  Any-Paired_back (x ∷ xs) [] r f h = absurd r
  Any-Paired_back (x ∷ xs) (y ∷ ys) r f (inl h) = inl (f x y r.0 h)
  Any-Paired_back (x ∷ xs) (y ∷ ys) r f (inr h) = inr (Any-Paired_back xs ys r.1 f h)
