-- ===== src/Logging/Line.antt =====
-- `log_msg` of picam/src/logging.cpp: the line built in a buffer of 256 bytes, and the loop that
-- writes it out.
use hand_motion_capture.Prelude.{
  ℕ, ◌+◌, List, [], ◌∷◌, ◌++◌, Option, none, some, ltb, ◌==◌, if◌then◌else◌, length, take, drop, ℤ,
}
use hand_motion_capture.Sys.{Reply, ok, fail, eintr}
use hand_motion_capture.Logging.{i_to_str, timestamp}

pub data LogLevel : Type 0 where
  info debug warning error : LogLevel

-- "[INFO]", "[DEBUG]", "[WARNING]" and "[ERROR]".
unfoldable pub level_str : LogLevel → List ℕ
level_str info = b'[' ∷ b'I' ∷ b'N' ∷ b'F' ∷ b'O' ∷ b']' ∷ []
level_str debug = b'[' ∷ b'D' ∷ b'E' ∷ b'B' ∷ b'U' ∷ b'G' ∷ b']' ∷ []
level_str warning = b'[' ∷ b'W' ∷ b'A' ∷ b'R' ∷ b'N' ∷ b'I' ∷ b'N' ∷ b'G' ∷ b']' ∷ []
level_str error = b'[' ∷ b'E' ∷ b'R' ∷ b'R' ∷ b'O' ∷ b'R' ∷ b']' ∷ []

-- What `log_msg` puts into `buffer`.
unfoldable pub log_line : List ℕ → LogLevel → List ℕ → ℤ → List ℕ → List ℕ
log_line stamp lvl file line log_str =
    stamp
    ++ (b' ' ∷ level_str lvl
        ++ (b' ' ∷ file ++ (b':' ∷ i_to_str line ++ (b':' ∷ b' ' ∷ log_str ++ b'\n' ∷ []))))

abbrev pub buffer_size : ℕ
buffer_size = 256

-- How the writing ends: `overrun` if the line is longer than the buffer, `written` if the loop ran
-- to its end, `aborted` at an error, `waiting` where the script ends.
pub data Ending : Type 0 where
  silent overrun written aborted waiting : Ending

pub record Logged : Type 0 where
  pub output : List ℕ
  pub ending : Ending

-- The loop over `write`, one round for each reply.
unfoldable pub write_log : List Reply → List ℕ → ℕ → List ℕ → Logged
write_log [] buffer total output = record {
  output = output;
  ending = if ltb total (length buffer) then waiting else written;
}
write_log (fail e ∷ replies) buffer total output =
    let again = write_log replies buffer total output in
    if ltb total (length buffer)
    then (if e == eintr then again else record { output = output; ending = aborted })
    else record { output = output; ending = written }
write_log (ok n ∷ replies) buffer total output =
    let more = write_log replies buffer (total + n) (output ++ take n (drop total buffer)) in
    if ltb total (length buffer) then more else record { output = output; ending = written }

-- `fd` is `none` before `setup_logging` or after it failed.
unfoldable pub log_msg : Option ℕ → ℕ → ℕ → LogLevel → List ℕ → ℤ → List ℕ → List Reply → Logged
log_msg none seconds nanos lvl file line log_str replies = record { output = []; ending = silent }
log_msg (some fd) seconds nanos lvl file line log_str replies = elim (timestamp seconds nanos) [
  | none ↦ record { output = []; ending = waiting }
  | some stamp ↦
      let entry = log_line stamp lvl file line log_str in
      if ltb buffer_size (length entry)
      then record { output = []; ending = overrun }
      else write_log replies entry 0 []
]
