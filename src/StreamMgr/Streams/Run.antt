-- ===== src/StreamMgr/Streams/Run.antt =====
-- Turns of the thread of frameset_server/src/stream_mgr.c that each take a packet.
use hand_motion_capture.Prelude.{
  ℕ, suc, ◌+◌, ◌≤◌, ◌<◌, ◌≡◌, refl, sym, ◌∙◌, Bool, true, false, List, [], ◌∷◌, ◌++◌, map, some,
  arith, length, All, append_assoc, append-nil, if◌then◌else◌,
}
use hand_motion_capture.Connection.{packet}
use hand_motion_capture.Queue.{Queue}
use hand_motion_capture.Queue.Refinement.{Holds, enqueue-Holds}
use hand_motion_capture.Frameset.{TsFrameBuf}
use hand_motion_capture.Decoder.{Avcodec, decode_packet}
use hand_motion_capture.StreamMgr.{
  Worker, Input, Next, proceed, again, err_cleanup, shutdown_cleanup, undefined, turn, go_on, turns,
  start_worker,
}
use hand_motion_capture.StreamMgr.Order.{InOrder, Ends}
use hand_motion_capture.StreamMgr.Order.Reading.{turns_max}
use hand_motion_capture.StreamMgr.Order.Turns.{Paired, turn-InOrder, start_worker-InOrder}
use hand_motion_capture.StreamMgr.Wire.{coming, read_packet-packet}
use hand_motion_capture.StreamMgr.Streams.{
  IsReadable, stream_of, IsSupplied, dequeue-Dequeued, IsHealthy, Took, GoesOn, Took-decode,
}

module _ (av : Avcodec) (Open : av.Context → Type 0) where
  GoesOn-if :
      (P : Worker av → Type 0) (b : Bool) (x y : Next av)
      → b ≡ true
      → GoesOn av Open P x
      → GoesOn av Open P (if b then x else y)
  GoesOn-if P true x y e h = h
  GoesOn-if P false x y e h = absurd (cc e)

  -- One turn takes one packet.
  Took-turn :
      (healthy : IsHealthy av Open) (n timestamp e : ℕ) (payload rest : List ℕ) (i : Input)
      (w : Worker av)
      → IsReadable timestamp payload
      → IsSupplied i
      → n < turns_max
      → InOrder av n 0 w
      → Open w.viddec
      → w.incoming_stream ≡ true
      → w.stream ≡ coming (packet timestamp payload ++ rest) e
      → GoesOn av Open (Took av Open ((timestamp, payload) ∷ []) rest e w) (turn av i w)
  unfolding turn decode_packet
  Took-turn healthy n timestamp e payload rest i w p ((memory, m), (b, f)) l h o reading s =
      let q = w.timestamp_queue in
      let bound = h.bounded in
      let (r, k, h') =
        enqueue-Holds memory timestamp q h.waiting h.holds (omega (arith, l, bound))
          (rw h.eight_bytes (omega (arith, l, bound))) in
      let w' : Worker av = record w {
        stream = coming rest e;
        timestamp_queue = r;
        timestamps = w.timestamps ++ timestamp ∷ [];
      } in
      let reads =
        read_packet-packet av timestamp e payload rest (some memory) w r p.in_range p.not_end p.fits
          s k in
      let (accepted, o') = healthy.accepts payload w.viddec o in
      let took : Took av Open ((timestamp, payload) ∷ []) rest e w (record w' {
        viddec = (av.send_packet (some payload) w.viddec).1;
        packets = w.packets ++ payload ∷ [];
      }) =
        record {
          stream_left = refl;
          reading = reading;
          timestamps_read = refl;
          packets_read = refl;
          still_open = o';
        } in
      rw (m, f, reads)
        (GoesOn-if (Took av Open ((timestamp, payload) ∷ []) rest e w) w.incoming_stream _ _ reading
          (Took-decode av Open healthy b payload (av.send_packet (some payload) w.viddec)
            ((timestamp, payload) ∷ []) rest e w w' accepted o'
            (dequeue-Dequeued r (h.waiting ++ timestamp ∷ []) h') took))

  GoesOn-go_on :
      (P Q R : Worker av → Type 0) (o : Next av) (f : Worker av → Next av)
      → GoesOn av Open P o
      → Ends av Q o
      → ((w : Worker av) → P w → Q w → GoesOn av Open R (f w))
      → GoesOn av Open R (go_on av f o)
  unfolding go_on
  GoesOn-go_on P Q R (again w) f p q k = k w p q
  GoesOn-go_on P Q R (proceed w) f p q k = absurd p
  GoesOn-go_on P Q R (err_cleanup w) f p q k = absurd p
  GoesOn-go_on P Q R (shutdown_cleanup w) f p q k = absurd p
  GoesOn-go_on P Q R undefined f p q k = absurd p

  -- What a turn takes adds up.
  Took-more :
      (p : ℕ × List ℕ) (ps : List (ℕ × List ℕ)) (rest rest' : List ℕ) (e : ℕ) (w w' w'' : Worker av)
      → Took av Open (p ∷ []) rest' e w w'
      → Took av Open ps rest e w' w''
      → Took av Open (p ∷ ps) rest e w w''
  Took-more p ps rest rest' e w w' w'' h k = record {
    stream_left = k.stream_left;
    reading = k.reading;
    timestamps_read =
        k.timestamps_read
        ∙ rw h.timestamps_read (append_assoc w.timestamps (p.0 ∷ []) (map (λ p. p.0) ps));
    packets_read =
        k.packets_read ∙ rw h.packets_read (append_assoc w.packets (p.1 ∷ []) (map (λ p. p.1) ps));
    still_open = k.still_open;
  }

  GoesOn-weaken :
      (P Q : Worker av → Type 0) (o : Next av)
      → ((w : Worker av) → P w → Q w)
      → GoesOn av Open P o
      → GoesOn av Open Q o
  GoesOn-weaken P Q (again w) f h = f w h
  GoesOn-weaken P Q (proceed w) f h = absurd h
  GoesOn-weaken P Q (err_cleanup w) f h = absurd h
  GoesOn-weaken P Q (shutdown_cleanup w) f h = absurd h
  GoesOn-weaken P Q undefined f h = absurd h

  abbrev pub TookInOrder : List (ℕ × List ℕ) → List ℕ → ℕ → Worker av → Worker av → Type 0
  TookInOrder packets rest e w w' = Took av Open packets rest e w w' × Paired av w'

  Took-turns :
      (healthy : IsHealthy av Open) (n e : ℕ) (packets : List (ℕ × List ℕ)) (rest : List ℕ)
      (inputs : List Input) (w : Worker av)
      → All (λ p. IsReadable p.0 p.1) packets
      → All IsSupplied inputs
      → length inputs ≡ length packets
      → n + length packets < turns_max
      → InOrder av n 0 w
      → Open w.viddec
      → w.incoming_stream ≡ true
      → w.stream ≡ coming (stream_of packets rest) e
      → GoesOn av Open (TookInOrder packets rest e w) (turns av inputs w)
  unfolding turns
  Took-turns healthy n e [] rest [] w r i l b h o reading s = (
    record {
      stream_left = s;
      reading = reading;
      timestamps_read = sym (append-nil w.timestamps);
      packets_read = sym (append-nil w.packets);
      still_open = o;
    },
    (h.waiting, h.in_order),
  )
  Took-turns healthy n e [] rest (i ∷ is) w r s l b h o reading st = absurd (omega (arith, l))
  Took-turns healthy n e (p ∷ ps) rest [] w r s l b h o reading st = absurd (omega (arith, l))
  Took-turns healthy n e (p ∷ ps) rest (i ∷ is) w (r, rs) (s, ss) l b h o reading st =
      let bound : n < turns_max = omega (arith, b) in
      let tail = stream_of ps rest in
      GoesOn-go_on (Took av Open (p ∷ []) tail e w) (InOrder av (suc n) 0)
        (TookInOrder (p ∷ ps) rest e w) (turn av i w) (turns av is)
        (Took-turn healthy n p.0 e p.1 tail i w r s bound h o reading st)
        (turn-InOrder av n i w bound h)
        (λ w' t h'.
          GoesOn-weaken (TookInOrder ps rest e w') (TookInOrder (p ∷ ps) rest e w) (turns av is w')
            (λ w'' k. (Took-more p ps rest tail e w w' w'' t k.0, k.1))
            (Took-turns healthy (suc n) e ps rest is w' rs ss (omega (arith, l)) (omega (arith, b))
              h' t.still_open t.reading t.stream_left))

  -- With a decoder that reports no error before it is flushed, memory, and buffers to fill, and from a
  -- fresh decoder and an empty queue of at most 8 slots: a stream of fewer than 2^26 packets as picam's
  -- `stream_pkt` lays them out, read without a call cut short, is taken in as many turns. The thread has
  -- then read exactly the timestamps and given exactly the payloads to the decoder, in order, is at the
  -- end of the last packet, and has handed the first of the timestamps on with the pictures.
  pub turns-stream_of :
      (viddec : av.Context) (q : Queue) (buf : TsFrameBuf) (e : ℕ) (packets : List (ℕ × List ℕ))
      (rest : List ℕ) (inputs : List Input)
      → IsHealthy av Open
      → Open viddec
      → av.backlog viddec ≡ 0
      → Holds q []
      → q.type_size ≡ 8
      → q.capacity ≤ 8
      → All (λ p. IsReadable p.0 p.1) packets
      → All IsSupplied inputs
      → length inputs ≡ length packets
      → length packets < turns_max
      → GoesOn av Open
          (λ w.
            (w.stream ≡ coming rest e)
            × ((w.timestamps ≡ map (λ p. p.0) packets)
                × ((w.packets ≡ map (λ p. p.1) packets) × Paired av w)))
          (turns av inputs (start_worker av viddec (coming (stream_of packets rest) e) q buf))
  unfolding start_worker
  turns-stream_of viddec q buf e packets rest inputs healthy o z h s b r i l m =
      let w : Worker av = start_worker av viddec (coming (stream_of packets rest) e) q buf in
      GoesOn-weaken (TookInOrder packets rest e w) _ (turns av inputs w)
        (λ w' t. (t.0.stream_left, (t.0.timestamps_read, (t.0.packets_read, t.1))))
        (Took-turns healthy 0 e packets rest inputs w r i l (omega (arith, m))
          (start_worker-InOrder av viddec (coming (stream_of packets rest) e) q buf z h s b) o refl
          refl)
