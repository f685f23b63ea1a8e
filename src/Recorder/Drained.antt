-- ===== src/Recorder/Drained.antt =====
-- The loop of `flush_encoder` in picam/src/main.cpp against a description of its runs without fuel.
use hand_motion_capture.Prelude.{
  ℕ, zero, suc, ◌≡◌, ◌≢◌, refl, sym, ap, ◌∙◌, List, [], ◌∷◌, Option, none, some, length, arith,
  ◌==◌, Bool-cases, inl, inr, ◌↔◌, true, false, subst, ◌⊎◌,
}
use hand_motion_capture.Sys.{econnreset}
use hand_motion_capture.Connection.State.{
  Proc, Outcome, returns, waits, throws, undefined, exhausted, Status, success, error, Exception,
}
use hand_motion_capture.Connection.{stream_pkt}
use hand_motion_capture.Connection.Streams.{stream_pkt_sends}
use hand_motion_capture.Videnc
use hand_motion_capture.Videnc.{Avcodec}
use hand_motion_capture.Recorder.Flushing.{
  Turn, done, Flushed, flushed, flush_failed, flush_next, flush_received, drain,
}
use hand_motion_capture.Recorder.Flush.{stream_pkt_nil}

module _ (av : Avcodec) where
  -- The runs of the loop that end: with no packet left, with a reset connection, or with an exception.
  pub data Drains : Videnc.Videnc av → Proc → Flushed → Type 0 where
    emptied :
        {v v' : Videnc.Videnc av} {p : Proc}
        → Videnc.recv_frame av v ≡ Videnc.Result.ok (none, v')
        → Drains v p (flushed success p)
    encoder_failed :
        {v : Videnc.Videnc av} {p : Proc}
        → Videnc.recv_frame av v ≡ Videnc.Result.runtime_error
        → Drains v p (flush_failed p)
    reset :
        {v v' : Videnc.Videnc av} {p q : Proc} {payload : List ℕ}
        → Videnc.recv_frame av v ≡ Videnc.Result.ok (some payload, v')
        → stream_pkt payload p ≡ returns (error econnreset) q
        → Drains v p (flushed (error econnreset) q)
    streamed :
        {v v' : Videnc.Videnc av} {p q : Proc} {payload : List ℕ} {o : Flushed}
        → Videnc.recv_frame av v ≡ Videnc.Result.ok (some payload, v')
        → stream_pkt payload p ≡ returns success q
        → Drains v' q o
        → Drains v p o
    lost :
        {v v' : Videnc.Videnc av} {p q : Proc} {payload : List ℕ} {o : Flushed} {e : ℕ}
        → Videnc.recv_frame av v ≡ Videnc.Result.ok (some payload, v')
        → stream_pkt payload p ≡ returns (error e) q
        → e ≢ econnreset
        → Drains v' q o
        → Drains v p o
    thrown :
        {v v' : Videnc.Videnc av} {p q : Proc} {payload : List ℕ} {x : Exception}
        → Videnc.recv_frame av v ≡ Videnc.Result.ok (some payload, v')
        → stream_pkt payload p ≡ throws x q
        → Drains v p (flush_failed q)

  module _ (again : Videnc.Videnc av → Proc → Turn Flushed)
      (rest : (v : Videnc.Videnc av) (p : Proc) (o : Flushed) → again v p ≡ done o → Drains v p o)
      (v : Videnc.Videnc av) (p : Proc) (o : Flushed) where
    next-Drains :
        (v' : Videnc.Videnc av) (payload : List ℕ) (y : Outcome Status)
        → Videnc.recv_frame av v ≡ Videnc.Result.ok (some payload, v')
        → stream_pkt payload p ≡ y
        → flush_next (again v') y ≡ done o
        → Drains v p o
    unfolding flush_next
    next-Drains v' payload (returns success q) r s e = streamed r s (rest v' q o e)
    next-Drains v' payload (returns (error c) q) r s e =
        on_error c s e (Bool-cases (c == econnreset))
      where
        on_error :
            (c : ℕ)
            → stream_pkt payload p ≡ returns (error c) q
            → flush_next (again v') (returns (error c) q) ≡ done o
            → ((c == econnreset) ≡ true) ⊎ ((c == econnreset) ≡ false)
            → Drains v p o
        on_error c s e (inl same) =
            let g : flush_next (again v') (returns (error c) q) ≡ done (flushed (error c) q) =
              rw (flush_next, same) refl in
            let f : flushed (error c) q ≡ o = cc (sym g ∙ e) in
            let k : c ≡ econnreset = ground arith in
            subst (Drains v p) (sym (ap (λ (n : ℕ). flushed (error n) q) k) ∙ f)
              (reset r (s ∙ ap (λ (n : ℕ). returns (error n) q) k))
        on_error c s e (inr other) =
            lost r s (λ k. absurd (ground arith)) (rest v' q o (rw (flush_next, other) at e))
    next-Drains v' payload (waits q) r s e = absurd (cc e)
    next-Drains v' payload (throws x q) r s e = subst (Drains v p) (cc e) (thrown r s)
    next-Drains v' payload undefined r s e = absurd (cc e)
    next-Drains v' payload exhausted r s e = absurd (cc e)

    received-Drains :
        (x : Videnc.Result (Option (List ℕ) × Videnc.Videnc av))
        → Videnc.recv_frame av v ≡ x
        → flush_received av again p x ≡ done o
        → Drains v p o
    unfolding flush_received
    received-Drains Videnc.Result.runtime_error r e = subst (Drains v p) (cc e) (encoder_failed r)
    received-Drains (Videnc.Result.ok (none, w)) r e = subst (Drains v p) (cc e) (emptied r)
    received-Drains (Videnc.Result.ok (some payload, w)) r e =
        next-Drains w payload (stream_pkt payload p) r refl e

  drain-Drains :
      (n : ℕ) (v : Videnc.Videnc av) (p : Proc) (o : Flushed)
      → drain av n v p ≡ done o
      → Drains v p o
  unfolding drain
  drain-Drains zero v p o e = absurd (cc e)
  drain-Drains (suc n) v p o e =
      received-Drains (drain av n) (drain-Drains n) v p o (Videnc.recv_frame av v) refl e

  -- After a packet the queue has lost its first timestamp.
  took_one :
      (payload : List ℕ) (p q : Proc) (s : Status) (t : ℕ) (rest : List ℕ)
      → p.conn.frame_timestamps ≡ t ∷ rest
      → stream_pkt payload p ≡ returns s q
      → q.conn.frame_timestamps ≡ rest
  took_one payload p q success t rest e f =
      (rw f at (stream_pkt_sends payload p t rest e)).same_timestamps
  took_one payload p q (error c) t rest e f =
      (rw f at (stream_pkt_sends payload p t rest e)).1.same_timestamps

  Drains-drain :
      (timestamps : List ℕ) (v : Videnc.Videnc av) (p : Proc) (o : Flushed)
      → p.conn.frame_timestamps ≡ timestamps
      → Drains v p o
      → drain av (suc (length timestamps)) v p ≡ done o
  unfolding drain flush_received flush_next
  Drains-drain timestamps v p _ t (emptied r) = rw r refl
  Drains-drain timestamps v p _ t (encoder_failed r) = rw r refl
  Drains-drain timestamps v p _ t (reset r s) = rw (r, s) refl
  Drains-drain timestamps v p _ t (thrown r s) = rw (r, s) refl
  Drains-drain [] v p o t (streamed {payload = payload} r s d) =
      absurd (cc (sym (stream_pkt_nil payload p t) ∙ s))
  Drains-drain (x ∷ xs) v p o t (streamed {v' = v'} {q = q} {payload = payload} r s d) =
      rw (r, s) (Drains-drain xs v' q o (took_one payload p q success x xs t s) d)
  Drains-drain [] v p o t (lost {payload = payload} r s n d) =
      absurd (cc (sym (stream_pkt_nil payload p t) ∙ s))
  Drains-drain (x ∷ xs) v p o t (lost {v' = v'} {q = q} {payload = payload} {e = e} r s n d) =
      let other : (e == econnreset) ≡ false = ground (arith, n) in
      rw (r, s)
        (rw (flush_next, other)
          (Drains-drain xs v' q o (took_one payload p q (error e) x xs t s) d))

  -- With a round for each queued timestamp and one more, the loop of the model ends in a way exactly if the
  -- loop of the code does: when the encoder has no packet left, at the first packet that finds the
  -- connection reset, and no later, or with an exception; other errors do not end it.
  pub drain_iff :
      (timestamps : List ℕ) (v : Videnc.Videnc av) (p : Proc) (o : Flushed)
      → p.conn.frame_timestamps ≡ timestamps
      → (drain av (suc (length timestamps)) v p ≡ done o) ↔ Drains v p o
  drain_iff timestamps v p o t =
      (drain-Drains (suc (length timestamps)) v p o, Drains-drain timestamps v p o t)
