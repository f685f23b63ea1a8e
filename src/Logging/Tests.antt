-- ===== src/Logging/Tests.antt =====
-- Runs of the functions of picam/src/logging.cpp, and the theorems about them at concrete values.
use hand_motion_capture.Prelude.{◌≡◌, refl, some, List, [], ◌∷◌, arith, Returns, codes, pos, negsuc}
use hand_motion_capture.Sys.{Reply, ok, fail, eintr}
use hand_motion_capture.Logging.{
  i_to_str, civil_time, timestamp, print_civil, two_digits, three_digits,
}
use hand_motion_capture.Logging.Calendar.{IsCivil, civil_time-IsCivil}
use hand_motion_capture.Logging.Line.{info, log_msg}
use hand_motion_capture.Logging.Bounds.{Logs, log_msg-Logs}

prints : i_to_str (negsuc 41) ≡ codes "-42"
unfolding i_to_str
prints = refl

timestamp_runs : timestamp 1711550400 123456789 ≡ some (codes "2024-03-27 14:40:00.123456Z")
unfolding timestamp civil_time print_civil two_digits three_digits i_to_str
timestamp_runs = refl

civil_time-IsCivil_example :
    Returns (IsCivil 1711550400 123456789) (civil_time 1711550400 123456789)
civil_time-IsCivil_example = civil_time-IsCivil 1711550400 123456789 (omega arith)

abbrev replies : List Reply
replies = ok 10 ∷ fail eintr ∷ ok 100 ∷ []

log_msg-Logs_example :
    Logs
      (codes "main.cpp")
      (codes "go")
      info
      42
      1711550400
      0
      (log_msg (some 3) 1711550400 0 info (codes "main.cpp") (pos 42) (codes "go") replies)
log_msg-Logs_example =
    log_msg-Logs 3 1711550400 0 info (codes "main.cpp") 42 (codes "go") replies (omega arith)
      (omega arith) (omega arith) (omega arith)
