-- ===== src/Sys.antt =====
-- System calls as the program sees them: a script of replies, used in the order of the calls.
use hand_motion_capture.Prelude.{ℕ, ◌≤◌, List, [], ◌∷◌}

-- What a call returns: a value that is not negative, or -1 with `errno`.
pub data Reply : Type 0 where
  ok : ℕ → Reply
  fail : ℕ → Reply

abbrev pub eintr : ℕ
eintr = 4

abbrev pub eagain : ℕ
eagain = 11

abbrev pub einval : ℕ
einval = 22

abbrev pub epipe : ℕ
epipe = 32

abbrev pub econnreset : ℕ
econnreset = 104

-- `write` that takes at least a byte each time.
abbrev pub Progress : List Reply → Type 0
Progress [] = Unit {0}
Progress (ok n ∷ replies) = (1 ≤ n) × Progress replies
Progress (fail e ∷ replies) = ⊥
