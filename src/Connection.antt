-- ===== src/Connection.antt =====
-- picam/src/connection.cpp: the TCP stream to the server and the UDP socket for its messages.
-- Calls of `LOG` are left out: they touch nothing but the log file.
pub mod Reconnect
pub mod State
pub mod Frame
pub mod Transmit
pub mod Streams
pub mod Reopening
mod Tests
use hand_motion_capture.Prelude.{
  ℕ, zero, suc, ◌+◌, ◌<◌, true, false, ◌||◌, List, [], ◌∷◌, ◌++◌, Option, none, some, length, take,
  drop, ltb, ◌==◌, if◌then◌else◌, ltb_ℤ, pos, le_bytes, u32_mod, ◌%◌, u64_mod, ◌-◌,
}
use hand_motion_capture.Sys.{Reply, ok, fail, eintr, einval, epipe, econnreset}
use hand_motion_capture.Stoi.{StoiResult, stoi}
use State.{
  Connection, Event, opened, connected, bound, closed, wrote, slept, Proc, Exception, Outcome,
  returns, waits, throws, undefined, exhausted, M, ◌>>=◌, Status, success, error, syscall, note,
  set_tcpfd, set_udpfd,
}

abbrev pub max_retries : ℕ
max_retries = 3

-- "EOSTREAM"
abbrev pub end_stream_bytes : List ℕ
end_stream_bytes = b'E' ∷ b'O' ∷ b'S' ∷ b'T' ∷ b'R' ∷ b'E' ∷ b'A' ∷ b'M' ∷ []

-- Both constructors, and the destructor.
abbrev unset_port : List ℕ
unset_port = b'U' ∷ b'N' ∷ b'S' ∷ b'E' ∷ b'T' ∷ b'_' ∷ b'P' ∷ b'O' ∷ b'R' ∷ b'T' ∷ []

unfoldable pub unconfigured : Connection
unconfigured = record {
  tcpfd = none;
  udpfd = none;
  server_ip =
      b'U' ∷ b'N' ∷ b'S' ∷ b'E' ∷ b'T' ∷ b'_' ∷ b'S' ∷ b'E' ∷ b'R' ∷ b'V' ∷ b'E' ∷ b'R' ∷ [];
  tcp_port = unset_port;
  udp_port = unset_port;
  frame_timestamps = [];
}

unfoldable pub configured : List ℕ → List ℕ → List ℕ → Connection
configured server_ip tcp_port udp_port = record {
  tcpfd = none;
  udpfd = none;
  server_ip = server_ip;
  tcp_port = tcp_port;
  udp_port = udp_port;
  frame_timestamps = [];
}

close_tcp : Option ℕ → Proc → Proc
close_tcp none p = p
close_tcp (some fd) p = set_tcpfd none (note (closed fd) p)

close_udp : Option ℕ → Proc → Proc
close_udp none p = p
close_udp (some fd) p = set_udpfd none (note (closed fd) p)

unfoldable pub discon_tcp : Proc → Proc
unfolding close_tcp
discon_tcp p = close_tcp p.conn.tcpfd p

unfoldable pub destroy : Proc → Proc
unfolding close_tcp close_udp
destroy p = let q = close_tcp p.conn.tcpfd p in close_udp q.conn.udpfd q

-- `std::stoi(port)`, which may throw, and the test of its range.
unfoldable pub with_port : List ℕ → M Status → M Status
with_port port next p = elim (stoi port) [
  | StoiResult.ok n ↦
      if ltb_ℤ n (pos 1) || ltb_ℤ (pos 65535) n then returns (error einval) p else next p
  | StoiResult.invalid_argument ↦ throws Exception.invalid_argument p
  | StoiResult.out_of_range ↦ throws Exception.out_of_range p
]

-- `while (connect(...) < 0)`, and `while (bind(...) < 0)`: a retry on EINTR only.
unfoldable pub retry_eintr : ℕ → Event → M Status
retry_eintr zero done p = exhausted
retry_eintr (suc fuel) done p =
    (syscall >>= λ r. elim r [
      | ok n ↦ λ q. returns success (note done q)
      | fail e ↦
          λ q. elim (e == eintr) [ true ↦ retry_eintr fuel done q | false ↦ returns (error e) q ]
    ])
      p

-- `inet_pton`, whose failure is read off `errno`, and the loop over `connect`.
unfoldable pub after_inet_pton : ℕ → Reply → M Status
after_inet_pton fd (ok (suc n)) q = retry_eintr (suc (length q.replies)) (connected fd) q
after_inet_pton fd _ q = returns (if q.errno == 0 then error einval else error q.errno) q

unfoldable pub convert_ip : ℕ → M Status
unfolding after_inet_pton
convert_ip fd = syscall >>= after_inet_pton fd

unfoldable pub open_tcp : M Status
open_tcp = syscall >>= λ r. elim r [
  | fail e ↦ λ q. returns (error e) (set_tcpfd none q)
  | ok fd ↦
      λ q. with_port q.conn.tcp_port (convert_ip fd) (set_tcpfd (some fd) (note (opened fd) q))
]

-- A descriptor that is not negative counts as a connection.
unfoldable pub conn_tcp : M Status
conn_tcp p = elim p.conn.tcpfd [ some fd ↦ returns success p | none ↦ open_tcp p ]

unfoldable pub open_udp : M Status
open_udp = syscall >>= λ r. elim r [
  | fail e ↦ λ q. returns (error e) (set_udpfd none q)
  | ok fd ↦ λ q.
      with_port q.conn.udp_port (λ s. retry_eintr (suc (length s.replies)) (bound fd) s)
        (set_udpfd (some fd) (note (opened fd) q))
]

unfoldable pub bind_udp : M Status
bind_udp p = elim p.conn.udpfd [ some fd ↦ returns success p | none ↦ open_udp p ]

-- `recvfrom`, whose -1 becomes the largest `size_t`.
unfoldable pub recv_msg : M ℕ
recv_msg =
    syscall >>= λ r. elim r [ ok n ↦ λ q. returns n q | fail e ↦ λ q. returns (u64_mod - 1) q ]

-- The body of `while (tcpfd < 0)` after `conn_tcp`; `again` goes on with the loop. `none` is the
-- return of -ECONNRESET.
unfoldable pub after_conn_tcp : (ℕ → M (Option ℕ)) → ℕ → Status → M (Option ℕ)
after_conn_tcp again retries success q = again retries q
after_conn_tcp again retries (error e) q = elim (suc retries == max_retries) [
  | true ↦ returns none q
  | false ↦ again (suc retries) (note slept q)
]

-- `while (tcpfd < 0)`, with the retries counted so far.
unfoldable pub reconnect : ℕ → ℕ → M (Option ℕ)
reconnect zero retries p = exhausted
reconnect (suc fuel) retries p = elim p.conn.tcpfd [
  | some fd ↦ returns (some retries) p
  | none ↦ (conn_tcp >>= after_conn_tcp (reconnect fuel) retries) p
]

-- What the write of a round leads to: the total written, or the code to return.
pub data Round : Type 0 where
  next : ℕ → Round
  stop : Status → Round

unfoldable pub after_write : ℕ → List ℕ → ℕ → Reply → M Round
after_write fd buffer total (ok n) q =
    returns (next (total + n)) (note (wrote fd (take n (drop total buffer))) q)
after_write fd buffer total (fail e) q =
    if e == eintr
    then returns (next total) q
    else if e == epipe || e == econnreset
    then returns (next total) (set_tcpfd none (note (closed fd) q))
    else returns (stop (error e)) q

unfoldable pub write_some : List ℕ → ℕ → M Round
write_some buffer total p = elim p.conn.tcpfd [
  | none ↦ undefined
  | some fd ↦ (syscall >>= after_write fd buffer total) p
]

unfoldable pub after_round : (ℕ → ℕ → M Status) → ℕ → Round → M Status
after_round again retries (next total) q = again retries total q
after_round again retries (stop status) q = returns status q

unfoldable pub after_reconnect : (ℕ → ℕ → M Status) → List ℕ → ℕ → Option ℕ → M Status
after_reconnect again buffer total none q = returns (error econnreset) q
after_reconnect again buffer total (some retries) q =
    (write_some buffer total >>= after_round again retries) q

-- The loop `while (total_written < size)`, which `stream_pkt` and `end_stream` spell out alike. The
-- first argument is the fuel, also that of the inner loop.
unfoldable pub transmit : ℕ → List ℕ → ℕ → ℕ → M Status
transmit zero buffer retries total p = exhausted
transmit (suc fuel) buffer retries total p = elim (ltb total (length buffer)) [
  | false ↦ returns success p
  | true ↦ (reconnect (suc fuel) retries >>= after_reconnect (transmit fuel buffer) buffer total) p
]

-- The timestamp, the size and the payload, as `memcpy` lays them out on a little-endian machine.
unfoldable pub packet : ℕ → List ℕ → List ℕ
packet timestamp payload =
    le_bytes 8 timestamp ++ (le_bytes 4 (length payload % u32_mod) ++ payload)

abbrev pub pop_timestamp : List ℕ → Proc → Proc
pop_timestamp rest p = record p { conn = record (p.conn) { frame_timestamps = rest } }

-- `front` and `pop` of an empty queue are undefined. Each round uses a reply, so the fuel suffices.
unfoldable pub stream_pkt : List ℕ → M Status
stream_pkt payload p = elim p.conn.frame_timestamps [
  | [] ↦ undefined
  | timestamp ∷ rest ↦
      transmit (suc (length p.replies)) (packet timestamp payload) 0 0 (pop_timestamp rest p)
]

unfoldable pub end_stream : M Status
end_stream p = transmit (suc (length p.replies)) end_stream_bytes 0 0 p
