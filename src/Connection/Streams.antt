-- ===== src/Connection/Streams.antt =====
-- `stream_pkt` and `end_stream` of picam/src/connection.cpp as wholes.
use hand_motion_capture.Prelude.{
  ℕ, zero, suc, ◌+◌, ◌≤◌, ◌<◌, ◌≡◌, refl, ◌∙◌, List, [], ◌∷◌, ◌++◌, none, some, length, arith, ltb,
  Bool-cases, inl, inr, take, drop, append-nil,
}
use hand_motion_capture.Sys.{Reply, ok, fail, epipe, Progress}
use hand_motion_capture.Connection.State.{
  closed, wrote, Proc, returns, success, syscall, note, sent,
}
use hand_motion_capture.Connection.{
  reconnect, after_write, write_some, after_round, after_reconnect, transmit, packet,
  end_stream_bytes, stream_pkt, end_stream, pop_timestamp,
}
use hand_motion_capture.Connection.Frame.{Ensures}
use hand_motion_capture.Connection.Transmit.{Sent, SentSome, Transmitted, transmit_lem}

-- With a timestamp queued, whatever the system replies, `stream_pkt` takes the oldest and is never
-- undefined or out of fuel. Wherever it stops, at a return, an exception or a missing reply, the bytes
-- handed to the network since the start are a prefix of the packet, in order and without gaps, it
-- has slept at most twice, and the other timestamps are untouched. If it returns success, the
-- bytes are the whole packet.
pub stream_pkt_sends :
    (payload : List ℕ) (p : Proc) (timestamp : ℕ) (rest : List ℕ)
    → p.conn.frame_timestamps ≡ timestamp ∷ rest
    → Ensures
        (Transmitted (sent p.events) (packet timestamp payload) (pop_timestamp rest p))
        (SentSome (sent p.events) (packet timestamp payload) (pop_timestamp rest p))
        (stream_pkt payload p)
unfolding stream_pkt
stream_pkt_sends payload p timestamp rest e =
    ground (arith, transmit_lem (packet timestamp payload) (pop_timestamp rest p))

-- The same for `end_stream` and the notice: never undefined or out of fuel, a prefix of the notice
-- wherever it stops, at most two sleeps, the timestamps untouched, and the whole notice on success.
pub end_stream_sends :
    (p : Proc)
    → Ensures
        (Transmitted (sent p.events) end_stream_bytes p)
        (SentSome (sent p.events) end_stream_bytes p)
        (end_stream p)
unfolding end_stream
end_stream_sends p = transmit_lem end_stream_bytes p

-- One round of the loop on a connected socket, for each reply of `write`.
module _ (fuel : ℕ) (buffer : List ℕ) (retries total fd : ℕ) (p : Proc) (replies : List Reply)
    (more : total < length buffer) (open_fd : p.conn.tcpfd ≡ some fd) where
  pub transmit-ok :
      (n : ℕ)
      → p.replies ≡ ok n ∷ replies
      → transmit (suc fuel) buffer retries total p
        ≡ transmit fuel buffer retries
            (total + n)
            (note (wrote fd (take n (drop total buffer))) (record p { replies = replies }))
  unfolding transmit reconnect after_reconnect write_some syscall after_write after_round
  transmit-ok n r = ground arith

  pub transmit-epipe :
      p.replies ≡ fail epipe ∷ replies
      → transmit (suc fuel) buffer retries total p
        ≡ transmit fuel buffer retries total (record p {
          conn = record (p.conn) { tcpfd = none };
          replies = replies;
          errno = epipe;
          events = closed fd ∷ p.events;
        })
  unfolding transmit reconnect after_reconnect write_some syscall after_write after_round
  transmit-epipe r = ground arith

pub transmit_done :
    (fuel : ℕ) (buffer : List ℕ) (retries total : ℕ) (p : Proc)
    → length buffer ≤ total
    → transmit (suc fuel) buffer retries total p ≡ returns success p
unfolding transmit
transmit_done fuel buffer retries total p h = ground arith

-- A connected socket that takes a byte or more each time.
transmit_succeeds :
    (fuel : ℕ) (buffer : List ℕ) (retries total fd : ℕ) (p : Proc) (replies : List Reply)
    → p.conn.tcpfd ≡ some fd
    → p.replies ≡ replies
    → Progress replies
    → length buffer ≤ total + length replies
    → length replies < fuel
    → (q : Proc) × (transmit fuel buffer retries total p ≡ returns success q)
      × (q.conn.tcpfd ≡ some fd)
unfolding transmit
transmit_succeeds zero buffer retries total fd p replies c r g l h = absurd (omega arith)
transmit_succeeds (suc fuel) buffer retries total fd p [] c r g l h = (p, ground arith, c)
transmit_succeeds (suc fuel) buffer retries total fd p (fail e ∷ replies) c r g l h = absurd g
transmit_succeeds (suc fuel) buffer retries total fd p (ok n ∷ replies) c r g l h =
    elim (Bool-cases (ltb total (length buffer))) [
      | inr done ↦ (p, ground arith, c)
      | inl more ↦
          let q : Proc =
            note (wrote fd (take n (drop total buffer))) (record p { replies = replies }) in
          let (z, e, o) =
            transmit_succeeds fuel buffer retries (total + n) fd q replies c refl g.1 (omega arith)
              (omega arith) in
          (z, transmit-ok fuel buffer retries total fd p replies (ground arith) c n r ∙ e, o)
    ]

module _ (payload : List ℕ) (p : Proc) (timestamp fd : ℕ) (rest : List ℕ)
    (t : p.conn.frame_timestamps ≡ timestamp ∷ rest) (c : p.conn.tcpfd ≡ some fd)
    (g : Progress p.replies) (l : length (packet timestamp payload) ≤ length p.replies) where
  -- The same as `stream_pkt_succeeds`, and the connection stays open.
  pub stream_pkt_stays :
      (q : Proc) × (stream_pkt payload p ≡ returns success q)
      × (sent q.events ≡ sent p.events ++ packet timestamp payload)
      × (q.conn.frame_timestamps ≡ rest)
      × (q.conn.tcpfd ≡ some fd)
  unfolding stream_pkt
  stream_pkt_stays =
      let start = pop_timestamp rest p in
      let (q, e, o) =
        transmit_succeeds (suc (length p.replies)) (packet timestamp payload) 0 0 fd start p.replies
          c refl g (omega arith) (omega arith) in
      let s : Sent (sent p.events) (packet timestamp payload) [] start q =
        rw e at (transmit_lem (packet timestamp payload) start) in
      (q, ground (arith, e), ground (arith, s, append-nil (sent q.events)), s.same_timestamps, o)

-- On an open connection, with a timestamp queued, writes that each take a byte or more, and as many
-- replies as the packet has bytes, `stream_pkt` returns success, has sent the whole packet and taken
-- one timestamp.
pub stream_pkt_succeeds :
    (payload : List ℕ) (p : Proc) (timestamp fd : ℕ) (rest : List ℕ)
    → p.conn.frame_timestamps ≡ timestamp ∷ rest
    → p.conn.tcpfd ≡ some fd
    → Progress p.replies
    → length (packet timestamp payload) ≤ length p.replies
    → (q : Proc) × (stream_pkt payload p ≡ returns success q)
      × (sent q.events ≡ sent p.events ++ packet timestamp payload)
      × (q.conn.frame_timestamps ≡ rest)
stream_pkt_succeeds payload p timestamp fd rest t c g l =
    let (q, e, s, k, o) = stream_pkt_stays payload p timestamp fd rest t c g l in (q, e, s, k)
