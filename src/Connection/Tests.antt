-- ===== src/Connection/Tests.antt =====
-- Runs of the methods of picam/src/connection.cpp, and the theorems about them at concrete scripts.
use hand_motion_capture.Prelude.{
  ◌≡◌, refl, some, none, List, [], ◌∷◌, ◌++◌, arith, codes, take, drop, le_bytes,
}
use hand_motion_capture.Sys.{Reply, ok, fail, epipe}
use hand_motion_capture.Stoi.{stoi}
use hand_motion_capture.Connection.State.{
  Connection, opened, connected, closed, wrote, Proc, returns, success, sent,
}
use hand_motion_capture.Connection.{packet, stream_pkt, pop_timestamp}
use hand_motion_capture.Connection.Frame.{Ensures}
use hand_motion_capture.Connection.Transmit.{SentSome, Transmitted}
use hand_motion_capture.Connection.Streams.{stream_pkt_sends, stream_pkt_succeeds}
use hand_motion_capture.Connection.Reopening.{IsPort, stream_pkt_resumes}

abbrev camera : Connection
camera = record {
  tcpfd = some 3;
  udpfd = none;
  server_ip = codes "192.168.86.100";
  tcp_port = codes "12345";
  udp_port = codes "22345";
  frame_timestamps = 7 ∷ [];
}

abbrev process : List Reply → Proc
process replies = record { conn = camera; replies = replies; errno = 0; events = [] }

abbrev offline : List Reply → Proc
offline replies = record {
  conn = record camera { tcpfd = none };
  replies = replies;
  errno = 0;
  events = [];
}

IsPort-12345 : IsPort (codes "12345") 12345
unfolding stoi
IsPort-12345 = (refl, omega arith, omega arith)

stream_pkt_sends_example :
    Ensures
      (Transmitted [] (packet 7 (1 ∷ 2 ∷ [])) (pop_timestamp [] (process (ok 5 ∷ []))))
      (SentSome [] (packet 7 (1 ∷ 2 ∷ [])) (pop_timestamp [] (process (ok 5 ∷ []))))
      (stream_pkt (1 ∷ 2 ∷ []) (process (ok 5 ∷ [])))
unfolding sent
stream_pkt_sends_example = stream_pkt_sends (1 ∷ 2 ∷ []) (process (ok 5 ∷ [])) 7 [] refl

abbrev bytewise : List Reply
bytewise =
    ok 1 ∷ ok 1 ∷ ok 1 ∷ ok 1 ∷ ok 1 ∷ ok 1 ∷ ok 1 ∷ ok 1 ∷ ok 1 ∷ ok 1 ∷ ok 1 ∷ ok 1 ∷ ok 1 ∷ []

stream_pkt_succeeds_example :
    (q : Proc) × (stream_pkt (9 ∷ []) (process bytewise) ≡ returns success q)
    × (sent q.events ≡ sent [] ++ packet 7 (9 ∷ []))
    × (q.conn.frame_timestamps ≡ [])
unfolding packet le_bytes
stream_pkt_succeeds_example =
    stream_pkt_succeeds (9 ∷ []) (process bytewise) 7 3 [] refl refl (omega arith) (omega arith)

abbrev broken_off : List Reply
broken_off = ok 4 ∷ fail epipe ∷ ok 5 ∷ ok 1 ∷ ok 0 ∷ ok 9 ∷ []

-- The new connection starts in the middle of the packet.
stream_pkt_resumes_example :
    (q : Proc) × (stream_pkt (9 ∷ []) (process broken_off) ≡ returns success q)
    × (q.events
        ≡ wrote 5 (drop 4 (packet 7 (9 ∷ [])))
          ∷ connected 5
          ∷ opened 5
          ∷ closed 3
          ∷ wrote 3 (take 4 (packet 7 (9 ∷ [])))
          ∷ [])
unfolding packet le_bytes
stream_pkt_resumes_example =
    stream_pkt_resumes (9 ∷ []) (process broken_off) 7 12345 3 5 0 0 4 9 [] [] refl refl
      IsPort-12345 refl (omega arith) (omega arith)

-- ECONNREFUSED is 111.
abbrev refusing : List Reply
refusing = ok 6 ∷ ok 1 ∷ fail 111 ∷ []
