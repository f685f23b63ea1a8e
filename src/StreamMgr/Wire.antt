-- ===== src/StreamMgr/Wire.antt =====
-- The packets of picam/src/connection.cpp as frameset_server/src/stream_mgr.c reads them.
use hand_motion_capture.Prelude.{
  ℕ, ◌%◌, ◌≤◌, ◌<◌, ◌≡◌, refl, sym, ◌∙◌, true, false, List, [], ◌∷◌, ◌++◌, Option, pos, arith, ltb,
  length, take-append_length, drop-append_length, append_assoc, le_bytes, of_le_bytes, same_bytes,
  u64_mod, u32_mod,
}
use hand_motion_capture.Connection.{end_stream_bytes, packet}
use hand_motion_capture.Recorder.Stop.{of_le_bytes-le_bytes, length-le_bytes}
use hand_motion_capture.Queue
use hand_motion_capture.Queue.{Queue}
use hand_motion_capture.Network.{Stream, recv_from_stream, recv_scripted, read_bytes}
use hand_motion_capture.Decoder.{Avcodec, decode_packet, flush_decoder}
use hand_motion_capture.StreamMgr.{
  encoded_frame_buf_size, same_ℤ, Worker, decode, read_frame, read_frame_size, after_enqueue,
  after_flush, read_packet,
}

-- A stream whose calls of `recv` are all whole.
abbrev pub coming : List ℕ → ℕ → Stream
coming bytes errno = record { incoming = bytes; script = []; errno = errno }

read_whole :
    (n e : ℕ) (xs ys : List ℕ)
    → length xs ≡ n
    → recv_from_stream n (coming (xs ++ ys) e)
      ≡ record { ret = pos n; bytes = xs; stream = coming ys e }
unfolding recv_from_stream recv_scripted read_bytes
read_whole n e xs ys h = rw (sym h, take-append_length xs ys, drop-append_length xs ys) refl

same_ℤ-pos : (n : ℕ) → same_ℤ (pos n) (pos n) ≡ true
same_ℤ-pos n = ground arith

module _ (av : Avcodec) where
  read_payload :
      (e : ℕ) (payload rest : List ℕ) (w : Worker av)
      → length payload ≤ encoded_frame_buf_size
      → w.stream ≡ coming (payload ++ rest) e
      → read_frame av (length payload) w
        ≡ decode av payload
            (decode_packet av payload w.viddec)
            (record w { stream = coming rest e })
  unfolding read_frame
  read_payload e payload rest w l s =
      let fits : ltb encoded_frame_buf_size (length payload) ≡ false = ground arith in
      simp (fits, s, read_whole (length payload) e payload rest refl, same_ℤ-pos (length payload))
        refl

  read_size :
      (e : ℕ) (payload rest : List ℕ) (w : Worker av)
      → length payload ≤ encoded_frame_buf_size
      → w.stream ≡ coming (le_bytes 4 (length payload) ++ (payload ++ rest)) e
      → read_frame_size av w
        ≡ decode av payload
            (decode_packet av payload w.viddec)
            (record w { stream = coming rest e })
  unfolding read_frame_size
  read_size e payload rest w l s =
      let size : of_le_bytes (le_bytes 4 (length payload)) ≡ length payload =
        of_le_bytes-le_bytes 4 (length payload) (omega (arith, l)) in
      simp
        (
          s,
          read_whole 4 e (le_bytes 4 (length payload)) (payload ++ rest)
              (length-le_bytes 4 (length payload)),
          size,
        )
        (read_payload e payload rest (record w { stream = coming (payload ++ rest) e }) l refl)

  -- A packet of a timestamp below 2^64 that is not spelled as the bytes which end the stream, with a
  -- payload that fits into the buffer of 6400 bytes, as picam's `stream_pkt` lays it out: if no `recv` is
  -- cut short and `enqueue` takes the timestamp, the thread puts exactly this timestamp into its queue,
  -- gives exactly these bytes to the decoder, and leaves what follows the packet in the stream.
  pub read_packet-packet :
      (timestamp e : ℕ) (payload rest : List ℕ) (memory : Option (ℕ → ℕ)) (w : Worker av)
      (q : Queue)
      → timestamp < u64_mod
      → same_bytes (le_bytes 8 timestamp) end_stream_bytes ≡ false
      → length payload ≤ encoded_frame_buf_size
      → w.stream ≡ coming (packet timestamp payload ++ rest) e
      → Queue.enqueue memory timestamp w.timestamp_queue ≡ Queue.Outcome.returns q
      → read_packet av memory w
        ≡ decode av payload (decode_packet av payload w.viddec) (record w {
          stream = coming rest e;
          timestamp_queue = q;
          timestamps = w.timestamps ++ timestamp ∷ [];
        })
  unfolding read_packet after_enqueue packet
  read_packet-packet timestamp e payload rest memory w q t d l s f =
      let size : length payload % u32_mod ≡ length payload = omega (arith, l) in
      let value : of_le_bytes (le_bytes 8 timestamp) ≡ timestamp =
        of_le_bytes-le_bytes 8 timestamp (omega (arith, t)) in
      let bytes = le_bytes 4 (length payload) ++ (payload ++ rest) in
      let layout : w.stream ≡ coming (le_bytes 8 timestamp ++ bytes) e =
        s
        ∙ simp
            (
              size,
              append_assoc (le_bytes 8 timestamp) (le_bytes 4 (length payload) ++ payload) rest,
              append_assoc (le_bytes 4 (length payload)) payload rest,
            )
            refl in
      simp
        (
          layout,
          read_whole 8 e (le_bytes 8 timestamp) bytes (length-le_bytes 8 timestamp),
          d,
          value,
          f,
        )
        (read_size e payload rest
          (record w {
            stream = coming bytes e;
            timestamp_queue = q;
            timestamps = w.timestamps ++ timestamp ∷ [];
          })
          l refl)

  -- The bytes of picam's `end_stream`, where no `recv` is cut short, make the thread flush the decoder and
  -- read no more from the stream.
  pub read_packet-end_stream :
      (e : ℕ) (rest : List ℕ) (memory : Option (ℕ → ℕ)) (w : Worker av)
      → w.stream ≡ coming (end_stream_bytes ++ rest) e
      → read_packet av memory w
        ≡ after_flush av (flush_decoder av w.viddec) (record w { stream = coming rest e })
  unfolding read_packet
  read_packet-end_stream e rest memory w s =
      simp (s, read_whole 8 e end_stream_bytes rest refl) refl
