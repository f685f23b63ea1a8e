-- ===== src/System/Broadcast.antt =====
-- The start of a recording: the broadcast of frameset_server/src/main.c and the signal handler of
-- picam/src/main.cpp.
use hand_motion_capture.Prelude.{
  ℕ, suc, ◌+◌, ◌*◌, ◌<◌, ◌≡◌, Bool, List, [], ◌∷◌, Option, some, arith, All, le_bytes, pos, u64_mod,
}
use hand_motion_capture.Sys.{Reply, ok, fail}
use hand_motion_capture.Timer.{Timespec, ns_per_s}
use hand_motion_capture.CamConf.{CamConf}
use hand_motion_capture.Network.Sockets.{Datagram, is_eth_conn, send_all, broadcast_msg}
use hand_motion_capture.Videnc.{Avcodec}
use hand_motion_capture.Recorder.{Recorder, io_signal_handler}
use hand_motion_capture.Recorder.Stop.{timestamp_message}
use hand_motion_capture.System.{start_timestamp, broadcast_start}

module _ (av : Avcodec) where
  -- A recorder that gets the datagram takes this time for the start, and is woken once.
  abbrev pub Begins : ℕ → Datagram → Type 0
  Begins t d =
      (r : Recorder av)
      → io_signal_handler av (some d.msg) r ≡ record r { timestamp = t; sem = suc r.sem }

  send_all-Begins :
      (eth_conn : Bool) (t : ℕ) (ret : _) (confs : List CamConf) (replies : List Reply)
      → t < u64_mod
      → All (Begins t) (send_all eth_conn (le_bytes 8 t) ret confs replies).1
  unfolding send_all
  send_all-Begins eth_conn t ret [] replies h = tt
  send_all-Begins eth_conn t ret (c ∷ cs) (fail e ∷ rest) h = tt
  send_all-Begins eth_conn t ret (c ∷ cs) (ok n ∷ rest) h =
      ((λ r. timestamp_message av t r h), send_all-Begins eth_conn t (pos n) cs rest h)
  send_all-Begins eth_conn t ret (c ∷ cs) [] h =
      ((λ r. timestamp_message av t r h), send_all-Begins eth_conn t _ cs [] h)

  start_timestamp-lt : (ts : Timespec) → start_timestamp ts < u64_mod
  unfolding start_timestamp
  start_timestamp-lt ts = omega arith

  start_timestamp_exact :
      (ts : Timespec)
      → (ts.tv_sec + 1) * ns_per_s + ts.tv_nsec < u64_mod
      → start_timestamp ts ≡ (ts.tv_sec + 1) * ns_per_s + ts.tv_nsec
  unfolding start_timestamp
  start_timestamp_exact ts h = omega arith

  broadcast-Begins :
      (ts : Timespec) (socket : Reply) (flags : Option Bool) (confs : List CamConf)
      (replies : List Reply)
      → All (Begins (start_timestamp ts)) (broadcast_start ts socket flags confs replies).1
  unfolding broadcast_start broadcast_msg
  broadcast-Begins ts (fail e) flags confs replies = tt
  broadcast-Begins ts (ok fd) flags confs replies =
      send_all-Begins (is_eth_conn flags) (start_timestamp ts) (pos 0) confs replies
        (start_timestamp-lt ts)

  -- Whatever the system answers to the server, each datagram that it sends sets the recorder that gets it
  -- to the same time, one second after the server's clock, and wakes it once.
  pub broadcast_starts :
      (ts : Timespec) (socket : Reply) (flags : Option Bool) (confs : List CamConf)
      (replies : List Reply)
      → (ts.tv_sec + 1) * ns_per_s + ts.tv_nsec < u64_mod
      → All
          (Begins ((ts.tv_sec + 1) * ns_per_s + ts.tv_nsec))
          (broadcast_start ts socket flags confs replies).1
  broadcast_starts ts socket flags confs replies h =
      rw (start_timestamp_exact ts h) at (broadcast-Begins ts socket flags confs replies)
