-- ===== src/Connection/Transmit.antt =====
-- The loop that writes a packet, in picam/src/connection.cpp: what reaches the network, and how
-- often a connection is tried.
use hand_motion_capture.Prelude.{
  ℕ, zero, suc, ◌≤◌, ◌<◌, ◌≡◌, refl, false, ◌||◌, List, [], Option, none, some, length, arith, ltb,
  ◌==◌, Bool-cases, Option-cases, inl, inr, ◌≢◌, drop, take-advance, drop_all,
}
use hand_motion_capture.Sys.{Reply, ok, fail, eintr, epipe, econnreset}
use hand_motion_capture.Connection.State.{
  Proc, M, ◌>>=◌, Status, success, error, syscall, sent, naps,
}
use hand_motion_capture.Connection.{
  Round, next, stop, reconnect, after_write, write_some, after_round, after_reconnect, transmit,
}
use hand_motion_capture.Connection.Frame.{Ensures, Ensures-and_then, Replied, syscall-Replied}
use hand_motion_capture.Connection.Reconnect.{
  Sending, Sending-SentSome, Reconnected, reconnect-Reconnected,
}
pub use hand_motion_capture.Connection.Reconnect.{Sent, SentSome}

-- After a write: on with the loop and one reply fewer, or a return.
abbrev Rounded : List ℕ → List ℕ → Proc → ℕ → ℕ → Round → Proc → Type 0
Rounded base buffer start retries limit (next total) q =
    Sending base buffer start retries total q × (suc (length q.replies) ≤ limit)
Rounded base buffer start retries limit (stop status) q =
    (status ≢ success) × SentSome base buffer start q

after_write-Rounded :
    (base buffer : List ℕ) (start : Proc) (fd retries total limit : ℕ) (p : Proc)
    → Sending base buffer start retries total p
    → length p.replies ≤ limit
    → (r : Reply) (q : Proc) → Replied p q
    → Ensures
        (Rounded base buffer start retries limit)
        (SentSome base buffer start)
        (after_write fd buffer total r q)
unfolding after_write sent naps
after_write-Rounded base buffer start fd retries total limit p s l (ok n) q h =
    ground (arith, take-advance (sent p.events) buffer total n)
after_write-Rounded base buffer start fd retries total limit p s l (fail e) q h =
    elim (Bool-cases (e == eintr)) [
      | inl again ↦ rw again (ground arith)
      | inr other ↦ rw other (elim (Bool-cases (e == epipe || e == econnreset)) [
        | inl lost ↦ rw lost (ground arith)
        | inr failed ↦
            rw failed (λ x. cc, Sending-SentSome base buffer start retries total q (ground arith))
      ])
    ]

write_some-Rounded :
    (base buffer : List ℕ) (start : Proc) (retries total limit : ℕ) (p : Proc)
    → Sending base buffer start retries total p
    → length p.replies ≤ limit
    → p.conn.tcpfd ≢ none
    → Ensures
        (Rounded base buffer start retries limit)
        (SentSome base buffer start)
        (write_some buffer total p)
unfolding write_some
write_some-Rounded base buffer start retries total limit p s l c =
    elim (Option-cases p.conn.tcpfd) [
      | inl e ↦ absurd (c e)
      | inr (fd, e) ↦
          let written : Ensures (Rounded base buffer start retries limit)
              (SentSome base buffer start) ((syscall >>= after_write fd buffer total) p) =
            Ensures-and_then (λ r q. Replied p q) (λ q. q ≡ p) _ _ (syscall p)
              (after_write fd buffer total) (syscall-Replied p)
              (λ q e'. rw e' (Sending-SentSome base buffer start retries total p s))
              (after_write-Rounded base buffer start fd retries total limit p s l) in
          ground (arith, written)
    ]

-- What `transmit` promises when it returns: all of the buffer went out if the status is 0.
abbrev pub Transmitted : List ℕ → List ℕ → Proc → Status → Proc → Type 0
Transmitted base buffer start success q = Sent base buffer [] start q
Transmitted base buffer start (error e) q = SentSome base buffer start q

after_reconnect-Transmitted :
    (base buffer : List ℕ) (start : Proc) (total limit : ℕ) (again : ℕ → ℕ → M Status)
    → ((r t : ℕ) (q : Proc)
        → Sending base buffer start r t q
        → suc (length q.replies) ≤ limit
        → Ensures (Transmitted base buffer start) (SentSome base buffer start) (again r t q))
    → (tried : Option ℕ) (q : Proc) → Reconnected base buffer start total limit tried q
    → Ensures
        (Transmitted base buffer start)
        (SentSome base buffer start)
        (after_reconnect again buffer total tried q)
unfolding after_reconnect after_round
after_reconnect-Transmitted base buffer start total limit again ih none q h = h
after_reconnect-Transmitted base buffer start total limit again ih (some retries) q (s, l, c) =
    Ensures-and_then (Rounded base buffer start retries limit) (SentSome base buffer start) _ _
      (write_some buffer total q) (after_round again retries)
      (write_some-Rounded base buffer start retries total limit q s l c) (λ _ h. h) on_round
  where
    on_round :
        (r : Round) (z : Proc)
        → Rounded base buffer start retries limit r z
        → Ensures
            (Transmitted base buffer start)
            (SentSome base buffer start)
            (after_round again retries r z)
    on_round (next total') z h = ih retries total' z h.0 h.1
    on_round (stop success) z h = absurd (h.0 refl)
    on_round (stop (error e)) z h = h.1

transmit-Transmitted :
    (fuel : ℕ) (base buffer : List ℕ) (start : Proc) (retries total : ℕ) (p : Proc)
    → Sending base buffer start retries total p
    → length p.replies < fuel
    → Ensures
        (Transmitted base buffer start)
        (SentSome base buffer start)
        (transmit fuel buffer retries total p)
unfolding transmit
transmit-Transmitted zero base buffer start retries total p s l = absurd (omega arith)
transmit-Transmitted (suc fuel) base buffer start retries total p s l =
    elim (Bool-cases (ltb total (length buffer))) [
      | inr done ↦ rw (done, Ensures) (sent_all done)
      | inl more ↦
          rw (more, Ensures)
            (Ensures-and_then (Reconnected base buffer start total (length p.replies))
              (SentSome base buffer start) _ _ (reconnect (suc fuel) retries p)
              (after_reconnect (transmit fuel buffer) buffer total)
              (reconnect-Reconnected base buffer start (suc fuel) retries total (length p.replies) p
                s l (omega arith))
              (λ _ h. h)
              (after_reconnect-Transmitted base buffer start total (length p.replies)
                (transmit fuel buffer)
                (λ r t q s' u. transmit-Transmitted fuel base buffer start r t q s' (omega arith))))
    ]
  where
    sent_all : ltb total (length buffer) ≡ false → Sent base buffer [] start p
    sent_all done =
        let none_left : drop total buffer ≡ [] = drop_all total buffer (ground arith) in
        record {
          progress = rw none_left at s.progress;
          at_most_twice = omega arith;
          same_timestamps = s.same_timestamps;
        }

-- A whole call, from the start of the buffer.
pub transmit_lem :
    (buffer : List ℕ) (p : Proc)
    → Ensures
        (Transmitted (sent p.events) buffer p)
        (SentSome (sent p.events) buffer p)
        (transmit (suc (length p.replies)) buffer 0 0 p)
transmit_lem buffer p =
    transmit-Transmitted (suc (length p.replies)) (sent p.events) buffer p 0 0 p (ground arith)
      (omega arith)
