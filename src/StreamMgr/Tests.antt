-- ===== src/StreamMgr/Tests.antt =====
-- The thread of frameset_server/src/stream_mgr.c on a small stream, with the decoder of the tests.
use hand_motion_capture.Prelude.{
  pos, ℕ, ◌≡◌, refl, Bool, true, false, List, [], ◌∷◌, ◌++◌, some, arith, le_bytes, of_le_bytes,
}
use hand_motion_capture.Connection.{end_stream_bytes, packet}
use hand_motion_capture.Sys.{ok}
use hand_motion_capture.Decoder.Resources.{Answers}
use hand_motion_capture.StreamMgr.Setup.{Given}
use hand_motion_capture.Queue
use hand_motion_capture.Queue.{Queue}
use hand_motion_capture.SpscQueue.{write_slot}
use hand_motion_capture.Frameset.{TsFrameBuf}
use hand_motion_capture.Network.{Stream, fails, recv_from_stream}
use hand_motion_capture.Decoder.{recv_frame, decode_packet}
use hand_motion_capture.Decoder.Sample.{small_decoder}
use hand_motion_capture.StreamMgr.{
  Worker, Next, again, err_cleanup, shutdown_cleanup, decode, read_packet, turns, start_worker,
}
use hand_motion_capture.StreamMgr.Order.{Ends}
use hand_motion_capture.StreamMgr.Order.Turns.{Paired, frames_in_order}
use hand_motion_capture.StreamMgr.Streams.{GoesOn, stream_of}
use hand_motion_capture.StreamMgr.Streams.Run.{turns-stream_of}
use hand_motion_capture.StreamMgr.Sample.{
  empty_queue, empty_queue-Holds, buffer, input, IsOpen, small_decoder-IsHealthy,
}
use hand_motion_capture.StreamMgr.Wire.{coming, read_packet-packet}

abbrev two_packets : List ℕ
two_packets = packet 1000 (1 ∷ 2 ∷ []) ++ packet 2000 (3 ∷ []) ++ end_stream_bytes

abbrev worker : Stream → Worker small_decoder
worker stream = start_worker small_decoder (false, []) stream empty_queue (buffer 0)

-- The buffers handed on, whichever way the thread ends.
abbrev handed : Next small_decoder → List TsFrameBuf
handed (Next.proceed w) = w.sent
handed (again w) = w.sent
handed (err_cleanup w) = w.sent
handed (shutdown_cleanup w) = w.sent
handed Next.undefined = []

two_frames :
    handed (turns small_decoder (input ∷ input ∷ []) (worker (coming two_packets 0)))
    ≡ record { timestamp = 1000; frame_buf = 2 } ∷ record { timestamp = 2000; frame_buf = 1 } ∷ []
unfolding turns start_worker packet le_bytes Queue.enqueue Queue.dequeue recv_from_stream
    of_le_bytes recv_frame write_slot
two_frames = refl

abbrev ends_by_error : Next small_decoder → Bool
ends_by_error (err_cleanup w) = true
ends_by_error _ = false

-- A read that a signal interrupts, and the end of the stream, go to `err_cleanup`.
interrupted :
    ends_by_error (
      turns small_decoder
        (input ∷ [])
        (worker (record { incoming = []; script = fails 4 ∷ []; errno = 0 })))
    ≡ true
unfolding turns start_worker recv_from_stream
interrupted = refl

finished :
    ends_by_error
      (turns small_decoder (input ∷ input ∷ input ∷ input ∷ []) (worker (coming two_packets 0)))
    ≡ true
unfolding turns start_worker packet le_bytes Queue.enqueue Queue.dequeue recv_from_stream
    of_le_bytes recv_frame write_slot
finished = refl

frames_in_order_example :
    Ends small_decoder
      (Paired small_decoder)
      (turns small_decoder (input ∷ input ∷ []) (worker (coming two_packets 0)))
frames_in_order_example =
    frames_in_order small_decoder (false, []) (coming two_packets 0) empty_queue (buffer 0)
      (input ∷ input ∷ []) refl empty_queue-Holds refl (omega arith) (omega arith)

abbrev fresh : Stream → Worker small_decoder
fresh stream = record {
  viddec = (false, []);
  stream = stream;
  timestamp_queue = empty_queue;
  current_buf = buffer 0;
  incoming_stream = true;
  sent = [];
  timestamps = [];
  packets = [];
}

read_packet-packet_example :
    read_packet small_decoder input.memory (fresh (coming (packet 1000 (1 ∷ 2 ∷ []) ++ 9 ∷ []) 0))
    ≡ decode small_decoder
        (1 ∷ 2 ∷ [])
        (true, (false, 2 ∷ []))
        (record (fresh (coming (9 ∷ []) 0)) {
          timestamp_queue = record empty_queue {
            slots = write_slot 0 1000 (λ i. 0);
            size = 1;
            tail = 1;
          };
          timestamps = 1000 ∷ [];
        })
unfolding le_bytes Queue.enqueue decode_packet
read_packet-packet_example =
    read_packet-packet small_decoder 1000 0 (1 ∷ 2 ∷ []) (9 ∷ []) input.memory
      (fresh (coming (packet 1000 (1 ∷ 2 ∷ []) ++ 9 ∷ []) 0))
      (record empty_queue { slots = write_slot 0 1000 (λ i. 0); size = 1; tail = 1 }) (omega arith)
      refl (omega arith) refl refl

abbrev read_pairs : List (ℕ × List ℕ)
read_pairs = (1000, 1 ∷ 2 ∷ []) ∷ (2000, 3 ∷ []) ∷ []

turns-stream_of_example :
    GoesOn small_decoder IsOpen
      (λ w.
        (w.stream ≡ coming end_stream_bytes 0)
        × ((w.timestamps ≡ 1000 ∷ 2000 ∷ [])
            × ((w.packets ≡ (1 ∷ 2 ∷ []) ∷ (3 ∷ []) ∷ []) × Paired small_decoder w)))
      (turns small_decoder
        (input ∷ input ∷ [])
        (worker (coming (stream_of read_pairs end_stream_bytes) 0)))
turns-stream_of_example =
    turns-stream_of small_decoder IsOpen (false, []) empty_queue (buffer 0) 0 read_pairs
      end_stream_bytes (input ∷ input ∷ []) small_decoder-IsHealthy refl refl empty_queue-Holds refl
      (omega arith)
      (
        record { in_range = omega arith; not_end = unfold le_bytes in refl; fits = omega arith },
        (
          record { in_range = omega arith; not_end = unfold le_bytes in refl; fits = omega arith },
          tt,
        ),
      )
      (((λ i. 0, refl), (buffer 0, refl)), (((λ i. 0, refl), (buffer 0, refl)), tt)) refl
      (omega arith)

abbrev working_decoder : Answers
working_decoder = record {
  finds_decoder = true;
  allocates_context = true;
  create_device = pos 0;
  references_device = true;
  open_codec = pos 0;
  allocates_frame = true;
  allocates_hw_frame = true;
  allocates_packet = true;
  get_buffer = pos 0;
}

-- All calls succeed, and the loop ends by a shutdown.
abbrev given : Given
given = record {
  enc_frame_buf = true;
  affinity = ok 0;
  queue_memory = some (λ i. 0);
  decoder = working_decoder;
  replies = ok 5 ∷ ok 0 ∷ ok 0 ∷ ok 0 ∷ ok 0 ∷ ok 6 ∷ ok 0 ∷ [];
  shuts_down = true;
}
