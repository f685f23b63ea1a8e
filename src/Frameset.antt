-- ===== src/Frameset.antt =====
-- frameset_server/src/main.c: the loop that lines up the frames of all cameras by timestamp. The queue
-- of filled buffers of a camera is the list of what its thread will enqueue, oldest first; whether the
-- thread has got as far when the loop looks is an argument of the pass.
pub mod Lanes
pub mod Matching
pub mod Alignment
pub mod Progress
pub mod Exact
pub mod Delivery
pub mod Startup
pub mod Exits
pub mod Released
pub mod Filling
mod Tests
use hand_motion_capture.Prelude.{
  ℕ, ◌-◌, Bool, true, false, ◌&&◌, List, [], ◌∷◌, ◌++◌, map, Option, none, some, ltb, ◌==◌,
  if◌then◌else◌,
}

-- `struct ts_frame_buf`, with its picture as a number.
pub record TsFrameBuf : Type 0 where
  pub timestamp : ℕ
  pub frame_buf : ℕ

-- What belongs to one camera: its entry in `current_frames`, the queue of filled buffers, and the
-- buffers that were enqueued as empty again, oldest first.
pub record Lane : Type 0 where
  pub current : Option TsFrameBuf
  pub filled : List TsFrameBuf
  pub returned : List TsFrameBuf

-- The memory that is shared with the consumer.
pub record Shared : Type 0 where
  pub frames : List ℕ
  pub timestamp : ℕ

-- `framesets` holds the timestamps that were logged as received, oldest first; `consumer_ready` is the
-- value of the semaphore.
pub record Assembly : Type 0 where
  pub lanes : List Lane
  pub framesets : List ℕ
  pub consumer_ready : ℕ
  pub frameset_buf : Option Shared

-- `spsc_dequeue(&filled_frame_consumer_qs[i])`, which finds a buffer only if the thread has put one.
unfoldable pub dequeue_filled : Bool → List TsFrameBuf → Lane → Lane
dequeue_filled ready [] l = l
dequeue_filled ready (b ∷ bs) l = if ready then record l { current = some b; filled = bs } else l

-- An entry that is set already is left alone.
unfoldable pub poll : Bool → Lane → Lane
unfolding dequeue_filled
poll ready l = elim l.current [ some b ↦ l | none ↦ dequeue_filled ready l.filled l ]

unfoldable pub fill : List Bool → List Lane → List Lane
unfolding poll
fill ready [] = []
fill [] (l ∷ ls) = poll false l ∷ fill [] ls
fill (r ∷ rs) (l ∷ ls) = poll r l ∷ fill rs ls

abbrev pub is_some {ℓ} : {A : Type ℓ} → Option A → Bool
is_some none = false
is_some (some a) = true

unfoldable pub is_full : List Lane → Bool
is_full [] = true
is_full (l ∷ ls) = is_some l.current && is_full ls

-- The timestamp of a set entry. The loops below are only run on a full set.
unfoldable pub current_time : Option TsFrameBuf → ℕ
current_time none = 0
current_time (some b) = b.timestamp

unfoldable pub max_timestamp : ℕ → List Lane → ℕ
unfolding current_time
max_timestamp m [] = m
max_timestamp m (l ∷ ls) =
    max_timestamp (if ltb m (current_time l.current) then current_time l.current else m) ls

unfoldable pub all_equal : ℕ → List Lane → Bool
unfolding current_time
all_equal m [] = true
all_equal m (l ∷ ls) = current_time l.current == m && all_equal m ls

-- `spsc_enqueue(&empty_frame_producer_qs[i], current_frames[i]); current_frames[i] = NULL;`
unfoldable pub give_back : Option TsFrameBuf → Lane → Lane
give_back none l = l
give_back (some b) l = record l { current = none; returned = l.returned ++ b ∷ [] }

unfoldable pub discard_other : ℕ → Lane → Lane
unfolding give_back current_time
discard_other m l = if current_time l.current == m then l else give_back l.current l

abbrev pub release : Lane → Lane
release l = give_back l.current l

abbrev pub picture : Option TsFrameBuf → ℕ
picture none = 0
picture (some b) = b.frame_buf

-- The copy to the consumer, if its semaphore is 0, and `sem_post`. The consumer cannot pass its wait before
-- the post; if it has passed it already, what it reads during the copies is no matter of this state.
unfoldable pub hand_over : ℕ → List Lane → Assembly → Assembly
hand_over m lanes s =
    if s.consumer_ready == 0
    then record s {
      frameset_buf = some (record { frames = map (λ l. picture l.current) lanes; timestamp = m });
      consumer_ready = 1;
    }
    else s

-- A full set of one timestamp is handed over, and all its buffers are given back.
unfoldable pub receive : ℕ → List Lane → Assembly → Assembly
unfolding hand_over give_back
receive m lanes s =
    let s' = hand_over m lanes s in
    record s' { lanes = map release lanes; framesets = s.framesets ++ m ∷ [] }

unfoldable pub match_frames : List Lane → Assembly → Assembly
unfolding receive discard_other max_timestamp all_equal
match_frames lanes s =
    let m = max_timestamp 0 lanes in
    if all_equal m lanes
    then receive m lanes s
    else record s { lanes = map (discard_other m) lanes }

-- One pass of `while (running)`. `nanosleep` changes nothing here.
unfoldable pub pass : List Bool → Assembly → Assembly
unfolding fill is_full match_frames
pass ready s =
    let lanes = fill ready s.lanes in
    if is_full lanes then match_frames lanes s else record s { lanes = lanes }

-- A pass of the loop, or the `sem_wait` of the consumer, which waits at 0.
pub data Event : Type 0 where
  passes : List Bool → Event
  takes : Event

unfoldable pub handle : Event → Assembly → Assembly
unfolding pass
handle (passes ready) s = pass ready s
handle takes s = record s { consumer_ready = s.consumer_ready - 1 }

unfoldable pub main_loop : List Event → Assembly → Assembly
unfolding handle
main_loop [] s = s
main_loop (e ∷ es) s = main_loop es (handle e s)

-- `current_frames` is cleared, and the semaphore was created with 0.
unfoldable pub start : List (List TsFrameBuf) → Assembly
start streams = record {
  lanes = map (λ bufs. record { current = none; filled = bufs; returned = [] }) streams;
  framesets = [];
  consumer_ready = 0;
  frameset_buf = none;
}
