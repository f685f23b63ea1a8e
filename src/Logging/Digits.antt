-- ===== src/Logging/Digits.antt =====
-- The decimal printer `i_to_str` of picam/src/logging.cpp, read back by `std::stoi`.
use native.Mathlib.Nat.{pow-suc}
use hand_motion_capture.Prelude.{
  ℕ, zero, suc, ◌+◌, ◌/◌, ◌%◌, ◌^◌, ◌≤◌, ◌<◌, ◌≡◌, refl, sym, ap, ◌∙◌, subst, true, false, List, [],
  ◌∷◌, arith, ◌==◌, Bool-cases, inl, inr, All, length, ℤ, pos, negsuc, pos_part, neg_part,
}
use hand_motion_capture.Stoi.{ok, is_digit, leading_digits, value_from, signed_int, stoi}
use hand_motion_capture.Logging.{collect, negate, i_to_str}

value_from-collect :
    (room n : ℕ) (temp : List ℕ)
    → n < 10 ^ room
    → value_from 0 (collect room n temp) ≡ value_from n temp
unfolding collect value_from
value_from-collect zero n temp h = let e : n ≡ 0 = omega arith in rw e
value_from-collect (suc room) n temp h =
    ground (arith, value_from-collect room (n / 10) ((b'0' + n % 10) ∷ temp), pow-suc 10 room)

collect-digits :
    (room n : ℕ) (temp : List ℕ)
    → All (λ c. is_digit c ≡ true) temp
    → All (λ c. is_digit c ≡ true) (collect room n temp)
unfolding collect is_digit
collect-digits zero n temp h = h
collect-digits (suc room) n temp h =
    ground (arith, collect-digits room (n / 10) ((b'0' + n % 10) ∷ temp))

length-collect :
    (room n k : ℕ) (temp : List ℕ) → n < 10 ^ k → length (collect room n temp) ≤ k + length temp
unfolding collect
length-collect zero n k temp h = omega arith
length-collect (suc room) n zero temp h = ground arith
length-collect (suc room) n (suc k) temp h =
    ground (arith, length-collect room (n / 10) k ((b'0' + n % 10) ∷ temp), pow-suc 10 k)

-- A loop that starts with a digit in hand leaves one.
collect_cons :
    (room n x : ℕ) (temp : List ℕ) → (c : ℕ) × (cs : List ℕ) × (collect room n (x ∷ temp) ≡ c ∷ cs)
unfolding collect
collect_cons zero n x temp = (x, temp, refl)
collect_cons (suc room) n x temp = elim (Bool-cases (n == 0)) [
  | inl done ↦ (x, temp, rw done)
  | inr more ↦ rw more (collect_cons room (n / 10) (b'0' + n % 10) (x ∷ temp))
]

leading_digits-All : (ds : List ℕ) → All (λ c. is_digit c ≡ true) ds → leading_digits ds ≡ ds
unfolding leading_digits
leading_digits-All [] h = refl
leading_digits-All (c ∷ cs) h = rw (h.0, leading_digits-All cs h.1)

collect_cons_pos :
    (room n : ℕ) → 0 < n → 0 < room → (c : ℕ) × (cs : List ℕ) × (collect room n [] ≡ c ∷ cs)
unfolding collect
collect_cons_pos zero n p r = absurd (omega arith)
collect_cons_pos (suc room) zero p r = absurd (omega arith)
collect_cons_pos (suc room) (suc n) p r =
    let more : (suc n == 0) ≡ false = ground arith in
    rw more (collect_cons room (suc n / 10) (b'0' + suc n % 10) [])

-- The digits of a positive number: some, all of them digits, and of its value.
record Digits (n : ℕ) : Type 0 where
  head : ℕ
  tail : List ℕ
  collected : collect 16 n [] ≡ head ∷ tail
  all_digits : All (λ d. is_digit d ≡ true) (head ∷ tail)
  value : value_from 0 (head ∷ tail) ≡ n

collect-Digits : (n : ℕ) → 0 < n → n < 10 ^ 16 → Digits n
collect-Digits n p h =
    let (c, cs, e) = collect_cons_pos 16 n p (omega arith) in
    record {
      head = c;
      tail = cs;
      collected = e;
      all_digits = subst (All (λ d. is_digit d ≡ true)) e (collect-digits 16 n [] tt);
      value =
          ap (value_from 0) (sym e) ∙ (value_from-collect 16 n [] h ∙ unfold value_from in refl);
    }

stoi_digits :
    (c : ℕ) (cs : List ℕ)
    → All (λ d. is_digit d ≡ true) (c ∷ cs)
    → stoi (c ∷ cs) ≡ signed_int false (value_from 0 (c ∷ cs))
unfolding stoi is_digit
stoi_digits c cs h = ground (arith, leading_digits-All (c ∷ cs) h)

stoi_minus_digits :
    (c : ℕ) (cs : List ℕ)
    → All (λ d. is_digit d ≡ true) (c ∷ cs)
    → stoi (b'-' ∷ c ∷ cs) ≡ signed_int true (value_from 0 (c ∷ cs))
unfolding stoi
stoi_minus_digits c cs h = rw (leading_digits-All (c ∷ cs) h)

-- `std::stoi` reads back what `i_to_str` writes, for every `int` but the least.
pub stoi-i_to_str : (v : ℤ) → pos_part v < 2 ^ 31 → neg_part v < 2 ^ 31 → stoi (i_to_str v) ≡ ok v
unfolding i_to_str negate signed_int
stoi-i_to_str (pos zero) p q = unfold stoi in refl
stoi-i_to_str (pos (suc n)) p q =
    let d = collect-Digits (suc n) (omega arith) (omega arith) in
    rw (d.collected, stoi_digits d.head d.tail d.all_digits, d.value) (ground arith)
stoi-i_to_str (negsuc n) p q =
    let d = collect-Digits (suc n) (omega arith) (omega arith) in
    let positive : negate (negsuc n) ≡ pos (suc n) = ground arith in
    rw (positive, d.collected, stoi_minus_digits d.head d.tail d.all_digits, d.value) (ground arith)

-- The digits and the sign of an `int` fit in eleven bytes.
length-i_to_str :
    (v : ℤ) (k : ℕ)
    → pos_part v < 10 ^ suc k
    → neg_part v < 10 ^ suc k
    → length (i_to_str v) ≤ suc (suc k)
unfolding i_to_str negate
length-i_to_str (pos zero) k p q = omega arith
length-i_to_str (pos (suc n)) k p q = omega (arith, length-collect 16 (suc n) (suc k) [] p)
length-i_to_str (negsuc n) k p q =
    ground (arith, length-collect 16 (suc n) (suc k) [] q, length-collect 16 0 (suc k) [])

pub length-i_to_str_pos : (n k : ℕ) → n < 10 ^ suc k → length (i_to_str (pos n)) ≤ suc k
unfolding i_to_str
length-i_to_str_pos zero k p = omega arith
length-i_to_str_pos (suc n) k p = omega (arith, length-collect 16 (suc n) (suc k) [] p)

collect-ge :
    (room n : ℕ) (temp : List ℕ)
    → All (λ c. b'-' ≤ c) temp
    → All (λ c. b'-' ≤ c) (collect room n temp)
unfolding collect
collect-ge zero n temp h = h
collect-ge (suc room) n temp h = ground (arith, collect-ge room (n / 10) ((b'0' + n % 10) ∷ temp))

-- No character of a printed number comes before the minus sign.
pub i_to_str-ge : (v : ℤ) → All (λ c. b'-' ≤ c) (i_to_str v)
unfolding i_to_str
i_to_str-ge (pos zero) = omega arith
i_to_str-ge (pos (suc n)) = collect-ge 16 (suc n) [] tt
i_to_str-ge (negsuc n) = (omega arith, collect-ge 16 (pos_part (negate (negsuc n))) [] tt)
