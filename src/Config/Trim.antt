-- ===== src/Config/Trim.antt =====
-- `trim` of picam/src/config.cpp.
use mathlib.Core.List.{reverse-append, reverse-reverse}
use hand_motion_capture.Prelude.{
  ℕ, ◌≡◌, refl, sym, ap, ◌∙◌, subst, false, List, [], ◌∷◌, ◌++◌, reverse, Bool-cases, inl, inr,
}
use hand_motion_capture.Config.{is_trimmed, trim_front, trim}

-- The text does not begin with a character that `trim` takes off.
abbrev pub Unspaced : List ℕ → Type 0
Unspaced [] = Unit {0}
Unspaced (c ∷ cs) = is_trimmed c ≡ false

trim_front-Unspaced : (s : List ℕ) → Unspaced (trim_front s)
unfolding trim_front
trim_front-Unspaced [] = tt
trim_front-Unspaced (c ∷ cs) = elim (Bool-cases (is_trimmed c)) [
  | inl e ↦ rw e (trim_front-Unspaced cs)
  | inr e ↦ rw e e
]

trim_front_same : (s : List ℕ) → Unspaced s → trim_front s ≡ s
unfolding trim_front
trim_front_same [] h = refl
trim_front_same (c ∷ cs) h = rw h

Unspaced-prefix : (s t : List ℕ) → Unspaced (s ++ t) → Unspaced s
Unspaced-prefix [] t h = tt
Unspaced-prefix (c ∷ s) t h = h

-- What is trimmed at the front is a prefix.
trim_front-suffix : (s : List ℕ) → (w : List ℕ) × (s ≡ w ++ trim_front s)
unfolding trim_front
trim_front-suffix [] = ([], refl)
trim_front-suffix (c ∷ cs) = elim (Bool-cases (is_trimmed c)) [
  | inl e ↦ let (w, p) = trim_front-suffix cs in (c ∷ w, rw e (ap (◌∷◌ c) p))
  | inr e ↦ ([], rw e)
]

-- The text has nothing to trim at either end.
pub record IsTrimmed (s : List ℕ) : Type 0 where
  pub front : Unspaced s
  pub back : Unspaced (reverse s)

trim-IsTrimmed : (s : List ℕ) → IsTrimmed (trim s)
unfolding trim
trim-IsTrimmed s = record {
  front = trim_front-Unspaced (reverse (trim_front (reverse s)));
  back =
      let u = reverse (trim_front (reverse s)) in
      let (w, e) = trim_front-suffix u in
      Unspaced-prefix (reverse (trim_front u)) (reverse w) (
        subst Unspaced
          (sym (reverse-reverse (trim_front (reverse s)))
            ∙ (ap reverse e ∙ reverse-append w (trim_front u)))
          (trim_front-Unspaced (reverse s)));
}

pub trim_same : (s : List ℕ) → IsTrimmed s → trim s ≡ s
unfolding trim
trim_same s h = rw (trim_front_same (reverse s) h.back, reverse-reverse) (trim_front_same s h.front)

-- What is trimmed once has nothing more to trim.
pub trim_idem : (s : List ℕ) → trim (trim s) ≡ trim s
trim_idem s = trim_same (trim s) (trim-IsTrimmed s)
