-- ===== src/Logging/File.antt =====
-- The log file of picam/src/logging.cpp: the static descriptor, and its opening and closing.
use hand_motion_capture.Prelude.{
  ℕ, ◌-◌, ◌≡◌, refl, arith, List, [], ◌∷◌, Option, none, some, ℤ, pos, negsuc, ◌==◌, if◌then◌else◌,
}
use hand_motion_capture.Sys.{Reply, ok, fail}
use hand_motion_capture.Logging.Line.{LogLevel, silent, log_msg}

-- `fd`, which is `none` for -1, and the descriptors that were given to `close`, newest first.
pub record LogFile : Type 0 where
  pub fd : Option ℕ
  pub closed : List ℕ

unfoldable pub setup_logging : Reply → LogFile → ℤ × LogFile
setup_logging (ok n) l = (pos 0, record l { fd = some n })
setup_logging (fail e) l = (if e == 0 then pos 0 else negsuc (e - 1), record l { fd = none })

-- The descriptor is closed, and kept.
unfoldable pub cleanup_logging : LogFile → LogFile
cleanup_logging l = elim l.fd [ none ↦ l | some n ↦ record l { closed = n ∷ l.closed } ]

abbrev pub fresh : LogFile
fresh = record { fd = none; closed = [] }

-- A file that was not opened is neither closed nor written.
pub setup_logging-fail :
    (e seconds nanos : ℕ) (lvl : LogLevel) (file : List ℕ) (line : ℤ) (log_str : List ℕ)
    (replies : List Reply)
    → ((cleanup_logging (setup_logging (fail e) fresh).1).closed ≡ [])
      × (log_msg (setup_logging (fail e) fresh).1.fd seconds nanos lvl file line log_str replies
          ≡ record { output = []; ending = silent })
unfolding setup_logging cleanup_logging log_msg
setup_logging-fail e seconds nanos lvl file line log_str replies = (refl, refl)

-- After the closing the descriptor is still the one that `log_msg` writes to.
pub cleanup_logging_keeps : (l : LogFile) → (cleanup_logging l).fd ≡ l.fd
unfolding cleanup_logging
cleanup_logging_keeps l = ground arith
