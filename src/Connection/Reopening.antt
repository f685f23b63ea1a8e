-- ===== src/Connection/Reopening.antt =====
-- The connecting anew of picam/src/connection.cpp, and what it does to a packet.
use native.Mathlib.Nat.{zero-add}
use hand_motion_capture.Prelude.{
  ℕ, suc, ◌+◌, ◌≤◌, ◌<◌, ◌≡◌, refl, ap, ◌∙◌, List, ◌∷◌, none, some, length, arith, ◌≢◌, take, drop,
  take_all, pos, length-drop,
}
use hand_motion_capture.Sys.{Reply, ok, fail, eintr, epipe}
use hand_motion_capture.Stoi.{StoiResult, stoi}
use hand_motion_capture.Connection.State.{
  opened, connected, closed, wrote, Proc, returns, success, error, syscall, note,
}
use hand_motion_capture.Connection.{
  conn_tcp, open_tcp, with_port, convert_ip, after_inet_pton, retry_eintr, after_conn_tcp,
  reconnect, after_write, write_some, after_round, after_reconnect, transmit, packet, stream_pkt,
  pop_timestamp,
}
use hand_motion_capture.Connection.Streams.{transmit-ok, transmit-epipe, transmit_done}

-- A port that `conn_tcp` accepts.
abbrev pub IsPort : List ℕ → ℕ → Type 0
IsPort port n = (stoi port ≡ StoiResult.ok (pos n)) × (1 ≤ n) × (n ≤ 65535)

-- The three calls that open a connection.
conn_tcp_opens :
    (p : Proc) (port fd m c : ℕ) (replies : List Reply)
    → p.conn.tcpfd ≡ none
    → IsPort p.conn.tcp_port port
    → p.replies ≡ ok fd ∷ ok (suc m) ∷ ok c ∷ replies
    → conn_tcp p
      ≡ returns success (record p {
        conn = record (p.conn) { tcpfd = some fd };
        replies = replies;
        events = connected fd ∷ opened fd ∷ p.events;
      })
unfolding conn_tcp open_tcp with_port convert_ip after_inet_pton retry_eintr syscall
conn_tcp_opens p port fd m c replies e v r = ground arith

-- The state after a refused connection: the socket is not closed.
abbrev pub refused : ℕ → ℕ → List Reply → Proc → Proc
refused fd e replies p = record p {
  conn = record (p.conn) { tcpfd = some fd };
  replies = replies;
  errno = e;
  events = opened fd ∷ p.events;
}

-- If the address is converted but `connect` fails, with another error than EINTR, `conn_tcp`
-- returns that error with the new socket left in `tcpfd`, and so the next call returns success without
-- a connection. The port must be one that `conn_tcp` accepts.
pub conn_tcp-refused :
    (p : Proc) (port fd m e : ℕ) (replies : List Reply)
    → p.conn.tcpfd ≡ none
    → IsPort p.conn.tcp_port port
    → e ≢ eintr
    → p.replies ≡ ok fd ∷ ok (suc m) ∷ fail e ∷ replies
    → (conn_tcp p ≡ returns (error e) (refused fd e replies p))
      × (conn_tcp (refused fd e replies p) ≡ returns success (refused fd e replies p))
unfolding conn_tcp open_tcp with_port convert_ip after_inet_pton retry_eintr syscall
conn_tcp-refused p port fd m e replies d v n r = (ground arith, refl)

-- One round of the loop on a closed socket that is opened anew.
transmit_reopens :
    (fuel : ℕ) (buffer : List ℕ) (retries total : ℕ) (p : Proc) (port fd m c n : ℕ)
    (replies : List Reply)
    → total < length buffer
    → p.conn.tcpfd ≡ none
    → IsPort p.conn.tcp_port port
    → p.replies ≡ ok fd ∷ ok (suc m) ∷ ok c ∷ ok n ∷ replies
    → transmit (suc (suc fuel)) buffer retries total p
      ≡ transmit (suc fuel) buffer retries (total + n) (record p {
        conn = record (p.conn) { tcpfd = some fd };
        replies = replies;
        events = wrote fd (take n (drop total buffer)) ∷ connected fd ∷ opened fd ∷ p.events;
      })
unfolding transmit reconnect after_reconnect write_some syscall after_write after_round
    after_conn_tcp
transmit_reopens fuel buffer retries total p port fd m c n replies l e v r =
    ground (arith, conn_tcp_opens p port fd m c (ok n ∷ replies) e v r)

-- If the server takes `k` bytes of the packet and the next write fails with EPIPE, the program
-- closes the socket, connects anew, and sends the rest of the packet on the new connection: that
-- stream begins in the middle of a packet. The port is one that `conn_tcp` accepts, `k` is below the
-- length of the packet, and one write takes what is left.
pub stream_pkt_resumes :
    (payload : List ℕ) (p : Proc) (timestamp port fd fd' m c k n : ℕ) (rest : List ℕ)
    (replies : List Reply)
    → p.conn.frame_timestamps ≡ timestamp ∷ rest
    → p.conn.tcpfd ≡ some fd
    → IsPort p.conn.tcp_port port
    → p.replies ≡ ok k ∷ fail epipe ∷ ok fd' ∷ ok (suc m) ∷ ok c ∷ ok n ∷ replies
    → k < length (packet timestamp payload)
    → k + n ≡ length (packet timestamp payload)
    → (q : Proc) × (stream_pkt payload p ≡ returns success q)
      × (q.events
          ≡ wrote fd' (drop k (packet timestamp payload))
            ∷ connected fd'
            ∷ opened fd'
            ∷ closed fd
            ∷ wrote fd (take k (packet timestamp payload))
            ∷ p.events)
unfolding stream_pkt
stream_pkt_resumes payload p timestamp port fd fd' m c k n rest replies t o v r l e =
    let buffer = packet timestamp payload in
    let start = pop_timestamp rest p in
    let left = length replies in
    let before : Proc =
      note (wrote fd (take k buffer))
        (record start { replies = fail epipe ∷ ok fd' ∷ ok (suc m) ∷ ok c ∷ ok n ∷ replies }) in
    let lost : Proc = record before {
      conn = record (before.conn) { tcpfd = none };
      replies = ok fd' ∷ ok (suc m) ∷ ok c ∷ ok n ∷ replies;
      errno = epipe;
      events = closed fd ∷ before.events;
    } in
    let after : Proc = record lost {
      conn = record (lost.conn) { tcpfd = some fd' };
      replies = replies;
      events = wrote fd' (take n (drop (0 + k) buffer)) ∷ connected fd' ∷ opened fd' ∷ lost.events;
    } in
    let entry : stream_pkt payload p ≡ transmit (suc (6 + left)) buffer 0 0 start =
      ground (arith, ap (length {0}) r) in
    let six : 6 + left ≡ suc (suc (suc (suc (2 + left)))) = omega arith in
    let tail : take n (drop (0 + k) buffer) ≡ drop k buffer =
      rw zero-add (take_all n (drop k buffer) (omega (arith, length-drop k buffer))) in
    let run : stream_pkt payload p ≡ returns success after =
      entry
      ∙ (ap (λ (f : ℕ). transmit (suc f) buffer 0 0 start) six
          ∙ (transmit-ok (suc (suc (suc (suc (2 + left))))) buffer 0 0 fd start
                (fail epipe ∷ ok fd' ∷ ok (suc m) ∷ ok c ∷ ok n ∷ replies) (omega arith) o k r
              ∙ (transmit-epipe (suc (suc (suc (2 + left)))) buffer 0 (0 + k) fd before
                    (ok fd' ∷ ok (suc m) ∷ ok c ∷ ok n ∷ replies) (omega arith) o refl
                  ∙ (transmit_reopens (suc (2 + left)) buffer 0 (0 + k) lost port fd' m c n replies
                        (omega arith) refl v refl
                      ∙ transmit_done (suc (2 + left)) buffer 0 (0 + k + n) after
                          (omega arith))))) in
    (
      after,
      run,
      ap
          (λ (bytes : List ℕ).
            wrote fd' bytes
            ∷ connected fd'
            ∷ opened fd'
            ∷ closed fd
            ∷ wrote fd (take k buffer)
            ∷ p.events)
          tail,
    )
