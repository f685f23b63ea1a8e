-- ===== src/Logging/Bounds.antt =====
-- The output of `log_msg` in picam/src/logging.cpp, and the length of its line.
use hand_motion_capture.Prelude.{
  ℕ, zero, suc, ◌+◌, ◌≤◌, ◌<◌, ◌≡◌, refl, ◌∙◌, true, false, List, [], ◌∷◌, ◌++◌, some, arith, ltb,
  ◌==◌, length, length-append, take, drop, drop_all, take-advance, ◌≢◌, ◌⊎◌, Returns, Returns-some,
  pos, Bool-cases, inl, inr, All, get_or,
}
use hand_motion_capture.Sys.{Reply, ok, fail, eintr, Progress}
use hand_motion_capture.Logging.{
  Civil, timestamp, two_digits, three_digits, print_civil, civil_time, seconds_in_month,
  seconds_per_month,
}
use hand_motion_capture.Logging.Digits.{length-i_to_str_pos}
use hand_motion_capture.Logging.Calendar.{IsCivil, civil_time-IsCivil, epoch_days}
use hand_motion_capture.Logging.Line.{
  LogLevel, info, level_str, log_line, buffer_size, Ending, written, overrun, aborted, waiting,
  Logged, write_log, log_msg,
}

-- What was written is the line up to some point, and all of it if the loop ran to its end.
pub record WritesPrefix (buffer : List ℕ) (l : Logged) : Type 0 where
  pub rest : List ℕ
  pub prefix : l.output ++ rest ≡ buffer
  pub complete : (rest ≡ []) ⊎ (l.ending ≢ written)

stop-WritesPrefix :
    (buffer : List ℕ) (total : ℕ) (output : List ℕ)
    → output ++ drop total buffer ≡ buffer
    → ltb total (length buffer) ≡ false
    → WritesPrefix buffer (record { output = output; ending = written })
stop-WritesPrefix buffer total output h done = record {
  rest = drop total buffer;
  prefix = h;
  complete = inl (drop_all total buffer (ground arith));
}

pause-WritesPrefix :
    (buffer : List ℕ) (total : ℕ) (output : List ℕ) (e : Ending)
    → output ++ drop total buffer ≡ buffer
    → e ≢ written
    → WritesPrefix buffer (record { output = output; ending = e })
pause-WritesPrefix buffer total output e h ne = record {
  rest = drop total buffer;
  prefix = h;
  complete = inr ne;
}

write_log-WritesPrefix :
    (replies : List Reply) (buffer : List ℕ) (total : ℕ) (output : List ℕ)
    → output ++ drop total buffer ≡ buffer
    → WritesPrefix buffer (write_log replies buffer total output)
unfolding write_log
write_log-WritesPrefix [] buffer total output h = elim (Bool-cases (ltb total (length buffer))) [
  | inl more ↦ rw more (pause-WritesPrefix buffer total output waiting h (λ e. cc))
  | inr done ↦ rw done (stop-WritesPrefix buffer total output h done)
]
write_log-WritesPrefix (fail e ∷ replies) buffer total output h =
    elim (Bool-cases (ltb total (length buffer))) [
      | inl more ↦ rw more (elim (Bool-cases (e == eintr)) [
        | inl again ↦ rw again (write_log-WritesPrefix replies buffer total output h)
        | inr other ↦ rw other (pause-WritesPrefix buffer total output aborted h (λ e. cc))
      ])
      | inr done ↦ rw done (stop-WritesPrefix buffer total output h done)
    ]
write_log-WritesPrefix (ok n ∷ replies) buffer total output h =
    elim (Bool-cases (ltb total (length buffer))) [
      | inl more ↦ rw more (
          write_log-WritesPrefix replies buffer (total + n) (output ++ take n (drop total buffer))
            (take-advance output buffer total n ∙ h))
      | inr done ↦ rw done (stop-WritesPrefix buffer total output h done)
    ]

-- If each write takes a byte or more, and there are as many replies as bytes to write, the loop runs to
-- its end.
pub write_log-written :
    (replies : List Reply) (buffer : List ℕ) (total : ℕ) (output : List ℕ)
    → Progress replies
    → length buffer ≤ total + length replies
    → (write_log replies buffer total output).ending ≡ written
unfolding write_log
write_log-written [] buffer total output p h = ground arith
write_log-written (fail e ∷ replies) buffer total output p h = absurd p
write_log-written (ok n ∷ replies) buffer total output p h =
    ground (
      arith,
      write_log-written replies buffer (total + n) (output ++ take n (drop total buffer)) p.1,
    )

length-two_digits : (n : ℕ) → n < 100 → length (two_digits n) ≤ 2
unfolding two_digits
length-two_digits n h = elim (Bool-cases (ltb n 10)) [
  | inl small ↦ rw small (omega (arith, length-i_to_str_pos n 0 (ground arith)))
  | inr large ↦ rw large (length-i_to_str_pos n 1 h)
]

length-three_digits : (n : ℕ) → n < 1000 → length (three_digits n) ≤ 3
unfolding three_digits
length-three_digits n h = elim (Bool-cases (ltb n 10)) [
  | inl small ↦
      let wide : ltb n 100 ≡ true = ground arith in
      rw (small, wide) (omega (arith, length-i_to_str_pos n 0 (ground arith)))
  | inr large ↦ rw large (elim (Bool-cases (ltb n 100)) [
    | inl short ↦ rw short (omega (arith, length-i_to_str_pos n 1 (ground arith)))
    | inr long ↦ rw long (length-i_to_str_pos n 2 h)
  ])
]

get_or_le : (xs : List ℕ) (i d b : ℕ) → All (λ x. x ≤ b) xs → d ≤ b → get_or xs i d ≤ b
get_or_le [] i d b h l = l
get_or_le (x ∷ xs) zero d b h l = h.0
get_or_le (x ∷ xs) (suc i) d b h l = get_or_le xs i d b h.1 l

seconds_in_month-le : (year month : ℕ) → seconds_in_month year month ≤ 2678400
unfolding seconds_in_month
seconds_in_month-le year month =
    ground (arith, get_or_le seconds_per_month month 0 2678400 (omega arith) (omega arith))

-- The format of a timestamp: at most 27 bytes up to the year 9999.
length-print_civil :
    (seconds nanos : ℕ) (c : Civil)
    → c.year ≤ 9999
    → IsCivil seconds nanos c
    → length (print_civil c) ≤ 27
unfolding print_civil
length-print_civil seconds nanos c y v = simp length-append (
    omega (
      arith,
      length-i_to_str_pos c.year 3 (omega arith),
      length-two_digits c.month (omega arith),
      length-two_digits c.day (omega (arith, seconds_in_month-le c.year c.month)),
      length-two_digits c.hour (omega arith),
      length-two_digits c.minute (omega arith),
      length-two_digits c.second (omega arith),
      length-three_digits c.millis (omega arith),
      length-three_digits c.micros (omega arith),
    ))

year-le :
    (seconds nanos : ℕ) (c : Civil)
    → seconds < 253402300800
    → IsCivil seconds nanos c
    → c.year ≤ 9999
unfolding epoch_days
year-le seconds nanos c h v = omega arith

timestamp_bound :
    (seconds nanos : ℕ)
    → seconds < 253402300800
    → nanos < 1_000_000_000
    → Returns (λ stamp. length stamp ≤ 27) (timestamp seconds nanos)
unfolding timestamp
timestamp_bound seconds nanos h k =
    let (c, e, v) =
      Returns-some (IsCivil seconds nanos) (civil_time seconds nanos)
        (civil_time-IsCivil seconds nanos k) in
    ground (arith, length-print_civil seconds nanos c (year-le seconds nanos c h v) v)

length-level_str : (lvl : LogLevel) → length (level_str lvl) ≤ 9
unfolding level_str
length-level_str info = omega arith
length-level_str _ = omega arith

length-log_line :
    (stamp : List ℕ) (lvl : LogLevel) (file : List ℕ) (line : ℕ) (log_str : List ℕ)
    → length stamp ≤ 27
    → line < 1_000_000
    → length file + length log_str ≤ 208
    → length (log_line stamp lvl file (pos line) log_str) ≤ buffer_size
unfolding log_line
length-log_line stamp lvl file line log_str s l h =
    simp length-append (omega (arith, length-level_str lvl, length-i_to_str_pos line 5 l))

-- What a call leaves in the log.
pub record Logs (file log_str : List ℕ) (lvl : LogLevel) (line seconds nanos : ℕ) (l : Logged)
    : Type 0 where
  pub stamp : List ℕ
  pub stamped : timestamp seconds nanos ≡ some stamp
  pub writes : WritesPrefix (log_line stamp lvl file (pos line) log_str) l
  pub no_overrun : l.ending ≢ overrun

write_log_no_overrun :
    (replies : List Reply) (buffer : List ℕ) (total : ℕ) (output : List ℕ)
    → (write_log replies buffer total output).ending ≢ overrun
unfolding write_log
write_log_no_overrun [] buffer total output = ground arith
write_log_no_overrun (fail e ∷ replies) buffer total output =
    ground (arith, write_log_no_overrun replies buffer total output)
write_log_no_overrun (ok n ∷ replies) buffer total output =
    ground (
      arith,
      write_log_no_overrun replies buffer (total + n) (output ++ take n (drop total buffer)),
    )

module _ (fd seconds nanos : ℕ) (lvl : LogLevel) (file : List ℕ) (line : ℕ) (log_str : List ℕ)
    (replies : List Reply) (recent : seconds < 253402300800) (tick : nanos < 1_000_000_000)
    (short : line < 1_000_000) (fits : length file + length log_str ≤ 208) where
  -- With an open log, an instant before the year 10000, a line number of at most six digits, and a file
  -- name and message of at most 208 bytes together, `log_msg` stays within its buffer and, whatever
  -- `write` replies, what it has written is a prefix of the line, and the whole of it if its loop ran
  -- to the end.
  pub log_msg-Logs :
      Logs file log_str lvl line seconds nanos
        (log_msg (some fd) seconds nanos lvl file (pos line) log_str replies)
  unfolding log_msg
  log_msg-Logs =
      let (stamp, e, s) =
        Returns-some (λ stamp. length stamp ≤ 27) (timestamp seconds nanos)
          (timestamp_bound seconds nanos recent tick) in
      let entry = log_line stamp lvl file (pos line) log_str in
      let roomy : ltb buffer_size (length entry) ≡ false =
        ground (arith, length-log_line stamp lvl file line log_str s short fits) in
      let logs : Logs file log_str lvl line seconds nanos (write_log replies entry 0 []) = record {
        stamp = stamp;
        stamped = e;
        writes = write_log-WritesPrefix replies entry 0 [] refl;
        no_overrun = write_log_no_overrun replies entry 0 [];
      } in
      rw (e, log_msg) (rw roomy logs)
