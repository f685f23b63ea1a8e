-- ===== src/StreamMgr/Sample.antt =====
-- What the runs of frameset_server/src/stream_mgr.c in the tests are given: an empty queue, memory, a
-- buffer, and the small decoder.
use hand_motion_capture.Prelude.{ℕ, ◌≡◌, refl, true, false, List, [], ◌∷◌, some, arith, inl}
use hand_motion_capture.Queue.{Queue}
use hand_motion_capture.Queue.Refinement.{Holds}
use hand_motion_capture.SpscQueue.Window.{window}
use hand_motion_capture.Frameset.{TsFrameBuf}
use hand_motion_capture.Decoder.Sample.{small_decoder}
use hand_motion_capture.StreamMgr.{Input}
use hand_motion_capture.StreamMgr.Streams.{IsHealthy, Gives}

abbrev pub empty_queue : Queue
empty_queue = record {
  slots = λ i. 0;
  allocated = 64;
  type_size = 8;
  capacity = 8;
  size = 0;
  head = 0;
  tail = 0;
}

pub empty_queue-Holds : Holds empty_queue []
unfolding window
empty_queue-Holds = record {
  some_room = omega arith;
  head_in = omega arith;
  tail_in = omega arith;
  size_in = omega arith;
  ring = inl refl;
  holds = refl;
  no_wrap = omega arith;
  capacity_in = omega arith;
  buffer = refl;
}

abbrev pub buffer : ℕ → TsFrameBuf
buffer n = record { timestamp = 0; frame_buf = n }

abbrev pub input : Input
input = record { memory = some (λ i. 0); next_buf = some (buffer 0) }

-- The small decoder before it is flushed.
abbrev pub IsOpen : small_decoder.Context → Type 0
IsOpen c = c.0 ≡ false

small_accepts :
    (bytes : List ℕ) (c : small_decoder.Context)
    → IsOpen c
    → ((small_decoder.send_packet (some bytes) c).0 ≡ true)
      × IsOpen (small_decoder.send_packet (some bytes) c).1
small_accepts bytes (ended, pictures) o = (refl, o)

small_answers :
    (c : small_decoder.Context)
    → IsOpen c
    → Gives small_decoder IsOpen (small_decoder.receive_frame c)
small_answers (false, []) o = o
small_answers (false, p ∷ pictures) o = (refl, o)
small_answers (true, []) o = absurd (cc o)
small_answers (true, p ∷ pictures) o = (refl, o)

pub small_decoder-IsHealthy : IsHealthy small_decoder IsOpen
small_decoder-IsHealthy = record { accepts = small_accepts; answers = small_answers }
