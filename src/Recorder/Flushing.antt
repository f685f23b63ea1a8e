-- ===== src/Recorder/Flushing.antt =====
-- `flush_encoder` of picam/src/main.cpp, and how a part of the main thread goes.
use hand_motion_capture.Prelude.{ℕ, zero, suc, true, false, List, Option, none, some, length, ◌==◌}
use hand_motion_capture.Sys.{econnreset}
use hand_motion_capture.Connection.State.{
  Proc, Outcome, returns, waits, throws, undefined, exhausted, Status, success, error,
}
use hand_motion_capture.Connection.{stream_pkt}
use hand_motion_capture.Videnc
use hand_motion_capture.Videnc.{Avcodec}

-- How a part of the main thread goes: done, held up in a system call, or undefined behaviour.
pub data Turn {ℓ} (A : Type ℓ) : Type ℓ where
  done : A → Turn A
  blocked trapped : Turn A

-- How `flush_encoder` ends: its status, or an exception.
pub data Flushed : Type 0 where
  flushed : Status → Proc → Flushed
  flush_failed : Proc → Flushed

-- A packet of the flush was streamed; `again` goes on with the loop.
unfoldable pub flush_next : (Proc → Turn Flushed) → Outcome Status → Turn Flushed
flush_next again (returns success p) = again p
flush_next again (returns (error e) p) = elim (e == econnreset) [
  | true ↦ done (flushed (error e) p)
  | false ↦ again p
]
flush_next again (waits p) = blocked
flush_next again (throws e p) = done (flush_failed p)
flush_next again undefined = trapped
flush_next again exhausted = trapped

module _ (av : Avcodec) where
  unfoldable pub flush_received :
      (Videnc.Videnc av → Proc → Turn Flushed)
      → Proc
      → Videnc.Result (Option (List ℕ) × Videnc.Videnc av)
      → Turn Flushed
  unfolding flush_next
  flush_received again p Videnc.Result.runtime_error = done (flush_failed p)
  flush_received again p (Videnc.Result.ok (none, v)) = done (flushed success p)
  flush_received again p (Videnc.Result.ok (some bytes, v)) =
      flush_next (again v) (stream_pkt bytes p)

  -- The loop of `flush_encoder`. A packet takes a timestamp, and with none left `stream_pkt` is
  -- undefined, so a round for each timestamp and one more are enough (`Flush`).
  unfoldable pub drain : ℕ → Videnc.Videnc av → Proc → Turn Flushed
  unfolding flush_received
  drain zero v p = trapped
  drain (suc fuel) v p = flush_received (drain fuel) p (Videnc.recv_frame av v)

  unfoldable pub flush_started : Proc → Videnc.Result (Videnc.Videnc av) → Turn Flushed
  unfolding drain
  flush_started p Videnc.Result.runtime_error = done (flush_failed p)
  flush_started p (Videnc.Result.ok v) = drain (suc (length p.conn.frame_timestamps)) v p

  unfoldable pub flush_encoder : Videnc.Videnc av → Proc → Turn Flushed
  unfolding flush_started
  flush_encoder v p = flush_started p (Videnc.flush av v)
