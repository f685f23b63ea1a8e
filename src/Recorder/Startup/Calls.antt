-- ===== src/Recorder/Startup/Calls.antt =====
-- The calls of picam/src/main.cpp that set up scheduling, the timer, the signals and the socket, each of which
-- the start gives up on if it fails. Their replies come from the script of the process.
use hand_motion_capture.Prelude.{ℕ, ◌-◌, ◌==◌, Bool, List, ◌∷◌, ℤ, pos, negsuc, if◌then◌else◌}
use hand_motion_capture.Sys.{Reply, ok, fail}
use hand_motion_capture.Connection.State.{
  Proc, Outcome, returns, waits, throws, undefined, exhausted, Status, success, error, syscall,
}
use hand_motion_capture.Connection.{bind_udp}

pub data Signal : Type 0 where
  sigusr1 sigio sigint sigterm : Signal

-- What the start of the program does, and what its end undoes.
pub data Effect : Type 0 where
  log_opened semaphore_made camera_made connection_made encoder_made pinned realtime timer_made
        udp_bound async_set owner_set :
      Effect
  handles : Signal → Effect
  encoder_freed connection_closed camera_closed semaphore_freed : Effect

-- `loop_ctl_sem`, `cam`, `conn` and the local `encoder` that are not null.
pub record Objects : Type 0 where
  pub semaphore : Bool
  pub camera : Bool
  pub connection : Bool
  pub encoder : Bool

-- What was done so far, newest first.
pub record Setup : Type 0 where
  pub objects : Objects
  pub proc : Proc
  pub effects : List Effect

-- A part of the start goes on, stops with a return value, throws, or waits for the system.
pub data Progress : Type 0 where
  goes : Setup → Progress
  stops : ℤ → Setup → Progress
  threw : Setup → Progress
  held : Setup → Progress
  trapped : Progress

infixl 5 ◌>>=◌
abbrev pub ◌>>=◌ : Progress → (Setup → Progress) → Progress
goes s >>= f = f s
stops e s >>= f = stops e s
threw s >>= f = threw s
held s >>= f = held s
trapped >>= f = trapped

-- -errno
abbrev pub negated : ℕ → ℤ
negated e = if e == 0 then pos 0 else negsuc (e - 1)

-- A system call that returns -errno from the function around it if it fails.
unfoldable pub replied : Effect → Setup → Outcome Reply → Progress
replied e s (returns (ok n) p) = goes (record s { proc = p; effects = e ∷ s.effects })
replied e s (returns (fail x) p) = stops (negated x) (record s { proc = p })
replied e s (waits p) = held s
replied e s (throws x p) = threw s
replied e s undefined = trapped
replied e s exhausted = trapped

unfoldable pub call : Effect → Setup → Progress
unfolding replied
call e s = replied e s (syscall s.proc)

unfoldable pub init_realtime_scheduling : Setup → Progress
unfolding call
init_realtime_scheduling s = call pinned s >>= call realtime

unfoldable pub init_timer : Setup → Progress
unfolding call
init_timer s = call timer_made s

-- The four calls of `sigaction`, up to the first that fails.
unfoldable pub init_signals : Setup → Progress
unfolding call
init_signals s =
    call (handles sigusr1) s
    >>= call (handles sigio)
    >>= call (handles sigint)
    >>= call (handles sigterm)

-- F_SETFL with O_ASYNC, and F_SETOWN.
unfoldable pub init_sigio : Setup → Progress
unfolding call
init_sigio s = call async_set s >>= call owner_set

-- `if ((ret = conn->bind_udp()) < 0) return ret;`
unfoldable pub after_bind_udp : Setup → Outcome Status → Progress
after_bind_udp s (returns success p) = goes (record s { proc = p; effects = udp_bound ∷ s.effects })
after_bind_udp s (returns (error e) p) = stops (negated e) (record s { proc = p })
after_bind_udp s (waits p) = held (record s { proc = p })
after_bind_udp s (throws x p) = threw (record s { proc = p })
after_bind_udp s undefined = trapped
after_bind_udp s exhausted = trapped

-- The five tests before the loop.
unfoldable pub attach : Setup → Progress
unfolding init_realtime_scheduling init_timer init_signals after_bind_udp init_sigio
attach s =
    init_realtime_scheduling s
    >>= init_timer
    >>= init_signals
    >>= (λ t. after_bind_udp t (bind_udp t.proc))
    >>= init_sigio
