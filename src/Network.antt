-- ===== src/Network.antt =====
-- frameset_server/src/network.c: the sockets of the server. `Network.Sockets` has the calls that open
-- them; here is the reading from a stream.
pub mod Sockets
mod Tests
use hand_motion_capture.Prelude.{
  ℕ, ◌-◌, List, [], ◌∷◌, ◌++◌, ℤ, pos, negsuc, length, take, drop, min, ◌==◌, if◌then◌else◌,
}
use hand_motion_capture.Sys.{eintr, eagain}

-- How a `recv` with MSG_WAITALL goes: it waits for all bytes or the end of the stream, it is cut short
-- after some bytes by a signal or a timeout, or it fails with an `errno`.
pub data Recv : Type 0 where
  whole : Recv
  short fails : ℕ → Recv

-- The bytes to come, and how the next calls go; past the script they are whole.
pub record Stream : Type 0 where
  pub incoming : List ℕ
  pub script : List Recv
  pub errno : ℕ

-- What `recv_from_stream` returns, and the bytes that it writes.
pub record Reading : Type 0 where
  pub ret : ℤ
  pub bytes : List ℕ
  pub stream : Stream

abbrev pub negative : ℕ → ℤ
negative n = if n == 0 then pos 0 else negsuc (n - 1)

abbrev pub etimedout : ℕ
etimedout = 110

-- EWOULDBLOCK is EAGAIN.
unfoldable pub error_code : ℕ → ℤ
error_code e =
    if e == eintr then negative eintr else if e == eagain then negative etimedout else negative e

unfoldable pub read_bytes : ℕ → List Recv → Stream → Reading
read_bytes n script s = record {
  ret = pos (length (take n s.incoming));
  bytes = take n s.incoming;
  stream = record s { incoming = drop n s.incoming; script = script };
}

unfoldable pub recv_scripted : ℕ → List Recv → Stream → Reading
unfolding read_bytes error_code
recv_scripted size [] s = read_bytes size [] s
recv_scripted size (whole ∷ rest) s = read_bytes size rest s
recv_scripted size (short n ∷ rest) s = read_bytes (min n size) rest s
recv_scripted size (fails e ∷ rest) s = record {
  ret = error_code e;
  bytes = [];
  stream = record s { script = rest; errno = e };
}

unfoldable pub recv_from_stream : ℕ → Stream → Reading
unfolding recv_scripted
recv_from_stream size s = recv_scripted size s.script s
