-- ===== src/Connection/Reconnect.antt =====
-- The loop `while (tcpfd < 0)` of picam/src/connection.cpp, inside the sending of a buffer.
use hand_motion_capture.Prelude.{
  ℕ, zero, suc, ◌+◌, ◌≤◌, ◌<◌, ◌≡◌, false, List, ◌++◌, Option, none, some, length, arith, ◌==◌,
  Bool-cases, Option-cases, inl, inr, ◌≢◌, drop,
}
use hand_motion_capture.Connection.State.{
  slept, Proc, M, ◌>>=◌, Status, success, error, note, sent, naps,
}
use hand_motion_capture.Connection.{conn_tcp, max_retries, after_conn_tcp, reconnect}
use hand_motion_capture.Connection.Frame.{Ensures, Ensures-and_then, Quiet, conn_tcp-Quiet}

-- The sending of `buffer` after `base` has got as far as `total`, and slept once for each retry.
-- The other values are those at the start.
pub record Sending (base buffer : List ℕ) (start : Proc) (retries total : ℕ) (p : Proc)
    : Type 0 where
  pub progress : sent p.events ++ drop total buffer ≡ base ++ buffer
  pub slept_each : naps p.events ≡ naps start.events + retries
  pub below_limit : retries < max_retries
  pub same_timestamps : p.conn.frame_timestamps ≡ start.conn.frame_timestamps
  pub fewer : length p.replies ≤ length start.replies

-- Wherever the run stops, it has sent a prefix of `buffer`, has slept at most twice, and has left
-- the timestamps alone.
pub record Sent (base buffer rest : List ℕ) (start q : Proc) : Type 0 where
  pub progress : sent q.events ++ rest ≡ base ++ buffer
  pub at_most_twice : naps q.events ≤ naps start.events + 2
  pub same_timestamps : q.conn.frame_timestamps ≡ start.conn.frame_timestamps

abbrev pub SentSome : List ℕ → List ℕ → Proc → Proc → Type 0
SentSome base buffer start q = (rest : List ℕ) × Sent base buffer rest start q

pub Sending-SentSome :
    (base buffer : List ℕ) (start : Proc) (retries total : ℕ) (p : Proc)
    → Sending base buffer start retries total p
    → SentSome base buffer start p
Sending-SentSome base buffer start retries total p s = (drop total buffer, ground arith)

Quiet-Sending :
    (base buffer : List ℕ) (start : Proc) (retries total k : ℕ) (p q : Proc)
    → Sending base buffer start retries total p
    → Quiet k p q
    → Sending base buffer start retries total q
Quiet-Sending base buffer start retries total k p q s h = ground arith

-- Back from `while (tcpfd < 0)`: given up, or connected with `limit` replies left at most.
abbrev pub Reconnected : List ℕ → List ℕ → Proc → ℕ → ℕ → Option ℕ → Proc → Type 0
Reconnected base buffer start total limit none q = SentSome base buffer start q
Reconnected base buffer start total limit (some retries) q =
    Sending base buffer start retries total q × (length q.replies ≤ limit) × (q.conn.tcpfd ≢ none)

retry-Sending :
    (base buffer : List ℕ) (start : Proc) (retries total : ℕ) (p : Proc)
    → Sending base buffer start retries total p
    → (suc retries == max_retries) ≡ false
    → Sending base buffer start (suc retries) total (note slept p)
unfolding sent naps
retry-Sending base buffer start retries total p s e = ground arith

after_conn_tcp-Reconnected :
    (base buffer : List ℕ) (start : Proc) (retries total limit : ℕ) (p : Proc)
    (again : ℕ → M (Option ℕ))
    → Sending base buffer start retries total p
    → ((r : ℕ) (q : Proc)
        → Sending base buffer start r total q
        → suc (length q.replies) ≤ length p.replies
        → Ensures
            (Reconnected base buffer start total limit)
            (SentSome base buffer start)
            (again r q))
    → (status : Status) (q : Proc) → Quiet 1 p q
    → Ensures
        (Reconnected base buffer start total limit)
        (SentSome base buffer start)
        (after_conn_tcp again retries status q)
unfolding after_conn_tcp
after_conn_tcp-Reconnected base buffer start retries total limit p again s ih success q h =
    ih retries q (Quiet-Sending base buffer start retries total 1 p q s h) (ground arith)
after_conn_tcp-Reconnected base buffer start retries total limit p again s ih (error e) q h =
    elim (Bool-cases (suc retries == max_retries)) [
      | inl last ↦ rw (last, Ensures) (Sending-SentSome base buffer start retries total q s')
      | inr more ↦
          rw (more, Ensures)
            (ih (suc retries) (note slept q)
              (retry-Sending base buffer start retries total q s' more) (ground arith))
    ]
  where
    s' : Sending base buffer start retries total q
    s' = Quiet-Sending base buffer start retries total 1 p q s h

pub reconnect-Reconnected :
    (base buffer : List ℕ) (start : Proc) (fuel retries total limit : ℕ) (p : Proc)
    → Sending base buffer start retries total p
    → length p.replies < fuel
    → length p.replies ≤ limit
    → Ensures
        (Reconnected base buffer start total limit)
        (SentSome base buffer start)
        (reconnect fuel retries p)
unfolding reconnect
reconnect-Reconnected base buffer start zero retries total limit p s l k = absurd (omega arith)
reconnect-Reconnected base buffer start (suc fuel) retries total limit p s l k =
    elim (Option-cases p.conn.tcpfd) [
      | inl e ↦
          let tried : Ensures (Reconnected base buffer start total limit)
              (SentSome base buffer start)
              ((conn_tcp >>= after_conn_tcp (reconnect fuel) retries) p) =
            Ensures-and_then (λ _ q. Quiet 1 p q) (Quiet 0 p) _ _ (conn_tcp p)
              (after_conn_tcp (reconnect fuel) retries) (conn_tcp-Quiet p e)
              (λ q h.
                Sending-SentSome base buffer start retries total q
                  (Quiet-Sending base buffer start retries total 0 p q s h))
              (after_conn_tcp-Reconnected base buffer start retries total limit p (reconnect fuel) s
                (λ r q s' u.
                  reconnect-Reconnected base buffer start fuel r total limit q s' (omega arith)
                    (omega arith))) in
          ground (arith, tried)
      | inr (fd, e) ↦ ground arith
    ]
