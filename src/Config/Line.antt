-- ===== src/Config/Line.antt =====
-- A line of the configuration file as picam/src/config.cpp reads it.
use hand_motion_capture.Prelude.{
  ℕ, ◌≡◌, ◌≢◌, refl, sym, ap, ◌∙◌, false, List, [], ◌∷◌, ◌++◌, append_assoc, arith, ◌==◌, All,
}
use hand_motion_capture.Config.{
  Config, ok, lines, key_of, value_of, assign, assign_if, parse_line, parse_lines,
}
use hand_motion_capture.Config.Trim.{IsTrimmed, trim_same}

-- A text that stands on a line of its own after `=`.
pub record IsValue (v : List ℕ) : Type 0 where
  pub trimmed : IsTrimmed v
  pub one_line : All (λ c. (c == b'\n') ≡ false) v
  pub not_empty : v ≢ []

-- A key: no `=`, no `#` in front, and nothing to trim.
pub record IsKey (k : List ℕ) : Type 0 where
  pub trimmed : IsTrimmed k
  pub one_line : All (λ c. (c == b'\n') ≡ false) k
  pub plain : All (λ c. (c == b'=') ≡ false) k
  pub no_comment : All (λ c. (c == b'#') ≡ false) k
  pub not_empty : k ≢ []

-- `KEY=value`, a newline and what follows.
unfoldable pub line_then : List ℕ → List ℕ → List ℕ → List ℕ
line_then key value rest = key ++ (b'=' ∷ value ++ (b'\n' ∷ rest))

lines_line :
    (l rest : List ℕ)
    → All (λ c. (c == b'\n') ≡ false) l
    → lines (l ++ (b'\n' ∷ rest)) ≡ l ∷ lines rest
unfolding lines
lines_line [] rest h = refl
lines_line (c ∷ l) rest h = rw (h.0, lines_line l rest h.1)

key_of_lem : (k v : List ℕ) → All (λ c. (c == b'=') ≡ false) k → key_of (k ++ (b'=' ∷ v)) ≡ k
unfolding key_of
key_of_lem [] v h = refl
key_of_lem (c ∷ k) v h = rw (h.0, key_of_lem k v h.1)

value_of_lem : (k v : List ℕ) → All (λ c. (c == b'=') ≡ false) k → value_of (k ++ (b'=' ∷ v)) ≡ v
unfolding value_of
value_of_lem [] v h = refl
value_of_lem (c ∷ k) v h = rw (h.0, value_of_lem k v h.1)

pub All-append {κ} : (P : ℕ → Type κ) (xs ys : List ℕ) → All P xs → All P ys → All P (xs ++ ys)
All-append P [] ys hx hy = hy
All-append P (x ∷ xs) ys hx hy = (hx.0, All-append P xs ys hx.1 hy)

assign_if-assign :
    (k v : List ℕ) (c : Config) → IsTrimmed k → IsValue v → assign_if k v c ≡ assign k v c
unfolding assign_if
assign_if-assign k [] c h w = absurd (w.not_empty refl)
assign_if-assign k (x ∷ v) c h w = rw (trim_same k h, trim_same (x ∷ v) w.trimmed)

parse_line-assign :
    (k v : List ℕ) (c : Config)
    → IsKey k
    → IsValue v
    → parse_line (k ++ (b'=' ∷ v)) c ≡ assign k v c
unfolding parse_line
parse_line-assign [] v c h w = absurd (h.not_empty refl)
parse_line-assign (x ∷ k) v c h w =
    rw (h.no_comment.0, key_of_lem (x ∷ k) v h.plain, value_of_lem (x ∷ k) v h.plain)
      (assign_if-assign (x ∷ k) v c h.trimmed w)

-- One line of the file sets one field.
pub parse_lines_step :
    (k v rest : List ℕ) (c c' : Config)
    → IsKey k
    → IsValue v
    → assign k v c ≡ ok c'
    → parse_lines (lines (line_then k v rest)) c ≡ parse_lines (lines rest) c'
unfolding parse_lines line_then
parse_lines_step k v rest c c' h w e =
    let no_newline : All (λ d. (d == b'\n') ≡ false) (k ++ (b'=' ∷ v)) =
      All-append _ k (b'=' ∷ v) h.one_line (refl, w.one_line) in
    let split : lines (line_then k v rest) ≡ (k ++ (b'=' ∷ v)) ∷ lines rest =
      ap lines (sym (append_assoc k (b'=' ∷ v) (b'\n' ∷ rest)))
      ∙ lines_line (k ++ (b'=' ∷ v)) rest no_newline in
    rw split (ground (arith, parse_line-assign k v c h w ∙ e))
