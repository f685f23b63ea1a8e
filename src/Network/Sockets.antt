-- ===== src/Network/Sockets.antt =====
-- `setup_stream`, `accept_conn` and `broadcast_msg` of frameset_server/src/network.c, over a script of
-- what the system answers.
use hand_motion_capture.Prelude.{
  ℕ, zero, suc, ◌≡◌, refl, Bool, true, false, not, ◌&&◌, List, [], ◌∷◌, map, Option, none, some, ℤ,
  pos, length, take, ◌==◌, if◌then◌else◌,
}
use hand_motion_capture.Sys.{Reply, ok, fail, eagain}
use hand_motion_capture.CamConf.{CamConf}
use hand_motion_capture.Network.{negative, etimedout}

-- The descriptors that are open, newest first.
pub record Sockets : Type 0 where
  pub replies : List Reply
  pub opened : List ℕ

-- A return value, or a call that the script does not answer.
pub data Result : Type 0 where
  returns : ℤ → Sockets → Result
  waits : Result

-- `err_cleanup`: the socket is closed, and `ret` returned.
abbrev closing : ℕ → List Reply → List ℕ → Result
closing e rest before = returns (negative e) (record { replies = rest; opened = before })

abbrev keeping : ℕ → ℕ → List Reply → List ℕ → Result
keeping e fd rest before = returns (negative e) (record { replies = rest; opened = fd ∷ before })

unfoldable pub after_bind : ℕ → List Reply → List ℕ → Result
after_bind fd [] before = waits
after_bind fd (fail e ∷ rest) before = closing e rest before
after_bind fd (ok n ∷ rest) before =
    returns (pos fd) (record { replies = rest; opened = fd ∷ before })

unfoldable pub after_options : ℕ → List Reply → List ℕ → Result
unfolding after_bind
after_options fd [] before = waits
after_options fd (fail e ∷ rest) before = closing e rest before
after_options fd (ok n ∷ rest) before = after_bind fd rest before

-- The two calls of `setsockopt`, after a failure of which the function returns at once.
unfoldable pub set_options : ℕ → ℕ → List Reply → List ℕ → Result
unfolding after_options
set_options zero fd replies before = after_options fd replies before
set_options (suc k) fd [] before = waits
set_options (suc k) fd (fail e ∷ rest) before = keeping e fd rest before
set_options (suc k) fd (ok n ∷ rest) before = set_options k fd rest before

unfoldable pub setup_stream : List Reply → List ℕ → Result
unfolding set_options
setup_stream [] before = waits
setup_stream (fail e ∷ rest) before =
    returns (negative e) (record { replies = rest; opened = before })
setup_stream (ok fd ∷ rest) before = set_options 2 fd rest before

unfoldable pub after_accept : ℕ → List Reply → List ℕ → Result
after_accept fd [] before = waits
after_accept fd (fail e ∷ rest) before = closing e rest before
after_accept fd (ok n ∷ rest) before =
    returns (pos fd) (record { replies = rest; opened = fd ∷ before })

unfoldable pub accept_conn : List Reply → List ℕ → Result
unfolding after_accept
accept_conn [] before = waits
accept_conn (fail e ∷ rest) before =
    returns (if e == eagain then negative etimedout else negative e)
      (record { replies = rest; opened = before })
accept_conn (ok fd ∷ rest) before = after_accept fd rest before

-- `is_eth_conn`, on whether `ioctl` succeeded and the interface is running.
unfoldable pub is_eth_conn : Option Bool → Bool
is_eth_conn none = true
is_eth_conn (some running) = if not running then false else true

abbrev pub is_ok : Reply → Bool
is_ok (ok n) = true
is_ok (fail e) = false

-- The descriptor, or the `errno` of the first call that fails.
abbrev pub first_failure : ℕ → List Reply → ℤ
first_failure fd [] = pos fd
first_failure fd (ok n ∷ rest) = first_failure fd rest
first_failure fd (fail e ∷ rest) = negative e

-- The result and the open descriptors.
abbrev pub left_by : Result → Option (ℤ × List ℕ)
left_by (returns ret s) = some (ret, s.opened)
left_by waits = none

-- With a socket, `setup_stream` returns it if the two calls of `setsockopt`, `bind` and `listen` succeed,
-- and otherwise the code of the first that fails. A failure of `bind` or `listen` closes the socket; one
-- of `setsockopt` leaves it open.
pub setup_stream_opened :
    (fd : ℕ) (reuse keep bound listening : Reply) (rest : List Reply) (before : List ℕ)
    → left_by (setup_stream (ok fd ∷ reuse ∷ keep ∷ bound ∷ listening ∷ rest) before)
      ≡ some (
        first_failure fd (reuse ∷ keep ∷ bound ∷ listening ∷ []),
        if is_ok reuse && is_ok keep && not (is_ok bound && is_ok listening)
            then before
            else fd ∷ before,
      )
unfolding setup_stream
setup_stream_opened fd (fail e) keep bound listening rest before = refl
setup_stream_opened fd (ok a) (fail e) bound listening rest before = refl
setup_stream_opened fd (ok a) (ok b) (fail e) listening rest before = refl
setup_stream_opened fd (ok a) (ok b) (ok c) (fail e) rest before = refl
setup_stream_opened fd (ok a) (ok b) (ok c) (ok d) rest before = refl

-- A datagram: the address, the port and the bytes.
pub record Datagram : Type 0 where
  pub address : ℕ
  pub port : ℕ
  pub msg : List ℕ

abbrev pub datagram_for : Bool → List ℕ → CamConf → Datagram
datagram_for eth_conn msg c = record {
  address = if eth_conn then c.eth_ip else c.wifi_ip;
  port = c.udp_port;
  msg = msg;
}

-- The loop over the cameras, with the answers of `sendto`; past the script it sends all bytes. The
-- result is `ret` and what was sent.
unfoldable pub send_all : Bool → List ℕ → ℤ → List CamConf → List Reply → ℤ × List Datagram
send_all eth_conn msg ret [] replies = (ret, [])
send_all eth_conn msg ret (c ∷ cs) (fail e ∷ rest) = (negative e, [])
send_all eth_conn msg ret (c ∷ cs) (ok n ∷ rest) =
    let later = send_all eth_conn msg (pos n) cs rest in
    (later.0, datagram_for eth_conn msg c ∷ later.1)
send_all eth_conn msg ret (c ∷ cs) [] =
    let later = send_all eth_conn msg (pos (length msg)) cs [] in
    (later.0, datagram_for eth_conn msg c ∷ later.1)

-- The socket is closed on every path.
unfoldable pub broadcast_msg :
    Reply → Option Bool → List CamConf → List ℕ → List Reply → ℤ × List Datagram
unfolding send_all is_eth_conn
broadcast_msg (fail e) flags confs msg replies = (negative e, [])
broadcast_msg (ok fd) flags confs msg replies =
    send_all (is_eth_conn flags) msg (pos 0) confs replies

-- The answers up to the first failure.
abbrev pub sent_before_failure : ℕ → List Reply → ℕ
sent_before_failure cameras [] = cameras
sent_before_failure zero (r ∷ rest) = 0
sent_before_failure (suc cameras) (fail e ∷ rest) = 0
sent_before_failure (suc cameras) (ok n ∷ rest) = suc (sent_before_failure cameras rest)

take-map : (f : CamConf → Datagram) (cs : List CamConf) → take (length cs) (map f cs) ≡ map f cs
take-map f [] = refl
take-map f (c ∷ cs) = rw (take-map f cs) refl

send_all-take :
    (eth_conn : Bool) (msg : List ℕ) (ret : ℤ) (confs : List CamConf) (replies : List Reply)
    → (send_all eth_conn msg ret confs replies).1
      ≡ take (sent_before_failure (length confs) replies) (map (datagram_for eth_conn msg) confs)
unfolding send_all
send_all-take eth_conn msg ret [] [] = refl
send_all-take eth_conn msg ret [] (r ∷ rest) = refl
send_all-take eth_conn msg ret (c ∷ cs) [] =
    rw (send_all-take eth_conn msg (pos (length msg)) cs []) refl
send_all-take eth_conn msg ret (c ∷ cs) (fail e ∷ rest) = refl
send_all-take eth_conn msg ret (c ∷ cs) (ok n ∷ rest) =
    rw (send_all-take eth_conn msg (pos n) cs rest) refl

-- The message goes to the cameras in the order of the configuration, each on the network that is in
-- use, up to the first that `sendto` fails for.
pub broadcast_msg_sends :
    (fd : ℕ) (flags : Option Bool) (confs : List CamConf) (msg : List ℕ) (replies : List Reply)
    → (broadcast_msg (ok fd) flags confs msg replies).1
      ≡ take
          (sent_before_failure (length confs) replies)
          (map (datagram_for (is_eth_conn flags) msg) confs)
unfolding broadcast_msg
broadcast_msg_sends fd flags confs msg replies =
    send_all-take (is_eth_conn flags) msg (pos 0) confs replies
