-- ===== src/StreamMgr/Release.antt =====
-- What `stream_mgr_fn` of frameset_server/src/stream_mgr.c has released when it ends.
use hand_motion_capture.Prelude.{
  ℕ, ◌≤◌, ◌≡◌, refl, true, false, List, [], ◌∷◌, none, pos, negsuc, Bool-cases, ◌⊎◌, inl, inr, All,
}
use hand_motion_capture.Sys.{Reply, ok, fail}
use hand_motion_capture.Queue.{init_queue}
use hand_motion_capture.Decoder.Resources.{nothing_held, init_decoder}
use hand_motion_capture.Network.Sockets.{Result, returns, waits}
use hand_motion_capture.StreamMgr.Setup.{
  Given, Ended, ended, is_success, after_init_queue, after_affinity, stream_mgr_fn,
}

-- A failure comes with an `errno`.
abbrev pub IsReal : Reply → Type 0
IsReal (ok n) = Unit
IsReal (fail e) = 1 ≤ e

abbrev pub HasFailure : List Reply → Type 0
HasFailure [] = ⊥
HasFailure (ok n ∷ rest) = HasFailure rest
HasFailure (fail e ∷ rest) = Unit

-- A descriptor that is returned has been opened, and an error code comes from a call that failed.
abbrev Opens : List Reply → List ℕ → Result → Type 0
Opens replies before (returns (pos fd) s) =
    (s.opened ≡ fd ∷ before) × All IsReal s.replies × (HasFailure s.replies → HasFailure replies)
Opens replies before (returns (negsuc e) s) = HasFailure replies
Opens replies before waits = Unit

-- The loop does not go to `shutdown_cleanup`, or one of the calls before it fails.
abbrev pub Fails : Given → Type 0
Fails g =
    (g.shuts_down ≡ false)
    ⊎ ((is_success (init_decoder g.decoder).0 ≡ false) ⊎ HasFailure g.replies)

-- If the thread ends, it does so by a shutdown and holds nothing more than before, and it does what is
-- undefined only after a failure.
abbrev pub Releases : Given → List ℕ → Ended → Type 0
Releases g before (ended held opened) =
    (g.shuts_down ≡ true) × (held ≡ nothing_held) × (opened ≡ before)
Releases g before Ended.waits = Unit
Releases g before Ended.undefined = Fails g

no_queue-undefined :
    (g : Given) (before : List ℕ) (a : Reply)
    → g.queue_memory ≡ none
    → after_affinity g before a ≡ Ended.undefined
unfolding after_affinity after_init_queue init_queue
no_queue-undefined g before (ok n) q = rw q refl
no_queue-undefined g before (fail e) q = refl

-- If the buffer of the encoded frames or the queue is not allocated, or the thread is not pinned, the
-- thread cleans up a decoder that was never initialised, which is undefined.
pub stream_mgr_fn-undefined :
    (g : Given) (before : List ℕ)
    → (g.enc_frame_buf ≡ false) ⊎ (((e : ℕ) × (g.affinity ≡ fail e)) ⊎ (g.queue_memory ≡ none))
    → stream_mgr_fn g before ≡ Ended.undefined
unfolding stream_mgr_fn
stream_mgr_fn-undefined g before h = elim (Bool-cases g.enc_frame_buf) [
  | inr missing ↦ rw missing refl
  | inl present ↦ rw present (elim h [
    | inl missing ↦ absurd (cc (present, missing))
    | inr (inl (e, unpinned)) ↦ unfold after_affinity in rw unpinned refl
    | inr (inr q) ↦ no_queue-undefined g before g.affinity q
  ])
]
