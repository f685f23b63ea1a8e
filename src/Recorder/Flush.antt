-- ===== src/Recorder/Flush.antt =====
-- The loop of `flush_encoder` in picam/src/main.cpp, and the fuel that the model gives it.
use hand_motion_capture.Prelude.{
  ℕ, zero, suc, ◌+◌, ◌≤◌, ◌≡◌, refl, List, [], ◌∷◌, Option, none, some, length, arith, ◌==◌,
  Bool-cases, inl, inr,
}
use hand_motion_capture.Sys.{econnreset}
use hand_motion_capture.Connection.State.{
  Proc, Outcome, returns, waits, throws, undefined, exhausted, Status, success, error, sent,
}
use hand_motion_capture.Connection.{stream_pkt, packet, pop_timestamp}
use hand_motion_capture.Connection.Frame.{Ensures}
use hand_motion_capture.Connection.Transmit.{SentSome, Transmitted}
use hand_motion_capture.Connection.Streams.{stream_pkt_sends}
use hand_motion_capture.Videnc
use hand_motion_capture.Videnc.{Avcodec}
use hand_motion_capture.Recorder.Flushing.{Turn, Flushed, flush_next, flush_received, drain}

-- Without a timestamp left, a packet cannot be sent.
pub stream_pkt_nil :
    (payload : List ℕ) (p : Proc) → p.conn.frame_timestamps ≡ [] → stream_pkt payload p ≡ undefined
unfolding stream_pkt
stream_pkt_nil payload p e = ground arith

-- What follows a packet sees the timestamps without their first.
flush_next_same :
    (first second : Proc → Turn Flushed) (base buffer rest : List ℕ) (start : Proc)
    (o : Outcome Status)
    → start.conn.frame_timestamps ≡ rest
    → Ensures (Transmitted base buffer start) (SentSome base buffer start) o
    → ((q : Proc) → q.conn.frame_timestamps ≡ rest → first q ≡ second q)
    → flush_next first o ≡ flush_next second o
unfolding flush_next
flush_next_same first second base buffer rest start (returns success q) e s h =
    h q (ground (arith, s.same_timestamps))
flush_next_same first second base buffer rest start (returns (error c) q) e s h =
    elim (Bool-cases (c == econnreset)) [
      | inl given_up ↦ rw (flush_next, given_up) refl
      | inr other ↦ rw (flush_next, other) (h q (ground (arith, s.1.same_timestamps)))
    ]
flush_next_same first second base buffer rest start (waits q) e s h = refl
flush_next_same first second base buffer rest start (throws x q) e s h = refl
flush_next_same first second base buffer rest start undefined e s h = refl
flush_next_same first second base buffer rest start exhausted e s h = refl

module _ (av : Avcodec) where
  -- What a round does with the answer of the encoder, with and without a timestamp.
  module _ (first second : Videnc.Videnc av → Proc → Turn Flushed) (p : Proc) where
    received_nil :
        p.conn.frame_timestamps ≡ []
        → (x : Videnc.Result (Option (List ℕ) × Videnc.Videnc av))
        → flush_received av first p x ≡ flush_received av second p x
    unfolding flush_received flush_next
    received_nil e Videnc.Result.runtime_error = refl
    received_nil e (Videnc.Result.ok (none, w)) = refl
    received_nil e (Videnc.Result.ok (some payload, w)) = rw (stream_pkt_nil payload p e) refl

    received_cons :
        (t : ℕ) (rest : List ℕ)
        → p.conn.frame_timestamps ≡ t ∷ rest
        → ((w : Videnc.Videnc av) (q : Proc)
            → q.conn.frame_timestamps ≡ rest
            → first w q ≡ second w q)
        → (x : Videnc.Result (Option (List ℕ) × Videnc.Videnc av))
        → flush_received av first p x ≡ flush_received av second p x
    unfolding flush_received
    received_cons t rest e h Videnc.Result.runtime_error = refl
    received_cons t rest e h (Videnc.Result.ok (none, w)) = refl
    received_cons t rest e h (Videnc.Result.ok (some payload, w)) =
        flush_next_same (first w) (second w) (sent p.events) (packet t payload) rest
          (pop_timestamp rest p) (stream_pkt payload p) refl (stream_pkt_sends payload p t rest e)
          (h w)

  drain_same :
      (timestamps : List ℕ) (n m : ℕ) (v : Videnc.Videnc av) (p : Proc)
      → p.conn.frame_timestamps ≡ timestamps
      → suc (length timestamps) ≤ n
      → suc (length timestamps) ≤ m
      → drain av n v p ≡ drain av m v p
  unfolding drain
  drain_same timestamps zero m v p e h k = absurd (omega arith)
  drain_same timestamps (suc n) zero v p e h k = absurd (omega arith)
  drain_same [] (suc n) (suc m) v p e h k =
      received_nil (drain av n) (drain av m) p e (Videnc.recv_frame av v)
  drain_same (t ∷ rest) (suc n) (suc m) v p e h k =
      received_cons (drain av n) (drain av m) p t rest e
        (λ w q same. drain_same rest n m w q same (omega arith) (omega arith))
        (Videnc.recv_frame av v)

  -- The fuel of the loop of `flush_encoder` is enough: a round for each queued timestamp and one more
  -- give the same as any larger number of rounds, whatever the encoder and the system answer.
  pub drain_enough_fuel :
      (timestamps : List ℕ) (extra : ℕ) (v : Videnc.Videnc av) (p : Proc)
      → p.conn.frame_timestamps ≡ timestamps
      → drain av (suc (length timestamps) + extra) v p ≡ drain av (suc (length timestamps)) v p
  drain_enough_fuel timestamps extra v p e =
      drain_same timestamps (suc (length timestamps) + extra) (suc (length timestamps)) v p e
        (omega arith) (omega arith)
