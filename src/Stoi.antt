-- ===== src/Stoi.antt =====
-- `std::stoi` in base 10, as picam/src/config.cpp and picam/src/connection.cpp use it: leading white
-- space and a sign are read, what follows the digits is ignored, and both exceptions are results.
use hand_motion_capture.Prelude.{
  ℕ, zero, suc, ◌+◌, ◌-◌, ◌*◌, ◌^◌, Bool, true, false, ◌&&◌, ◌||◌, List, [], ◌∷◌, ℤ, pos, negsuc,
  ltb, leb, ◌==◌, if◌then◌else◌,
}

pub data StoiResult : Type 0 where
  ok : ℤ → StoiResult
  invalid_argument out_of_range : StoiResult

-- `isspace` in the C locale.
unfoldable pub is_space : ℕ → Bool
is_space c = c == 32 || (leb 9 c && leb c 13)

unfoldable pub is_digit : ℕ → Bool
is_digit c = leb b'0' c && leb c b'9'

unfoldable pub skip_space : List ℕ → List ℕ
unfolding is_space
skip_space [] = []
skip_space (c ∷ cs) = if is_space c then skip_space cs else c ∷ cs

unfoldable pub leading_digits : List ℕ → List ℕ
unfolding is_digit
leading_digits [] = []
leading_digits (c ∷ cs) = if is_digit c then c ∷ leading_digits cs else []

-- The number that a run of digits continues from `n`.
unfoldable pub value_from : ℕ → List ℕ → ℕ
value_from n [] = n
value_from n (c ∷ cs) = value_from (n * 10 + (c - b'0')) cs

-- The integer with that sign and magnitude, if an `int` holds it.
unfoldable pub signed_int : Bool → ℕ → StoiResult
signed_int false m = if ltb m (2 ^ 31) then ok (pos m) else out_of_range
signed_int true zero = ok (pos 0)
signed_int true (suc m) = if ltb m (2 ^ 31) then ok (negsuc m) else out_of_range

unfoldable pub convert : Bool → List ℕ → StoiResult
unfolding value_from signed_int
convert negative [] = invalid_argument
convert negative (c ∷ cs) = signed_int negative (value_from 0 (c ∷ cs))

unfoldable pub read_sign : List ℕ → StoiResult
unfolding convert leading_digits
read_sign [] = invalid_argument
read_sign (c ∷ cs) =
    if c == b'-'
    then convert true (leading_digits cs)
    else if c == b'+'
    then convert false (leading_digits cs)
    else convert false (leading_digits (c ∷ cs))

unfoldable pub stoi : List ℕ → StoiResult
unfolding skip_space read_sign
stoi cs = read_sign (skip_space cs)
