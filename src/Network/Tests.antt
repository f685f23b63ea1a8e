-- ===== src/Network/Tests.antt =====
-- The calls of frameset_server/src/network.c at concrete answers of the system.
use hand_motion_capture.Prelude.{ℕ, ◌+◌, ◌≡◌, refl, false, [], ◌∷◌, some}
use hand_motion_capture.Sys.{ok, fail}
use hand_motion_capture.CamConf.{CamConf}
use hand_motion_capture.Network.{negative}
use hand_motion_capture.Network.Sockets.{setup_stream, left_by, broadcast_msg, datagram_for}

abbrev camera : ℕ → CamConf
camera n = record {
  eth_ip = 10 + n;
  wifi_ip = 20 + n;
  tcp_port = 12345;
  udp_port = 22345;
  id = n;
  name = [];
}

-- The second `setsockopt` fails, and the socket stays open.
leaks_socket :
    left_by (setup_stream (ok 5 ∷ ok 0 ∷ fail 12 ∷ ok 0 ∷ ok 0 ∷ []) (3 ∷ []))
    ≡ some (negative 12, 5 ∷ 3 ∷ [])
unfolding setup_stream
leaks_socket = refl

-- The interface is down, and the second message is refused.
sends_one :
    (broadcast_msg (ok 3) (some false) (camera 1 ∷ camera 2 ∷ []) (7 ∷ []) (ok 1 ∷ fail 101 ∷ [])).1
    ≡ datagram_for false (7 ∷ []) (camera 1) ∷ []
unfolding broadcast_msg
sends_one = refl
