-- ===== src/Lib.antt =====
-- Verification of a multi-camera motion capture system: of picam, the recorder that runs on each
-- camera, and of frameset_server, which collects their frames. The server sends each recorder a
-- timestamp over UDP. The recorder then captures a frame at `timestamp + n * frame_duration` for
-- n = 1, 2, ..., encodes it, and sends it to the server over TCP with the time of its capture,
-- until a datagram "STOP" comes. In the server, a thread for each camera reads the packets,
-- decodes them, pairs each picture with its timestamp by way of the growing queue, and passes
-- the buffer to the main thread over a queue between the two. The main thread lines up the
-- frames of all cameras by timestamp, gives the framesets to a consumer in shared memory, and
-- the buffers back to the threads.
--
-- The files, and the code that they model:
--
--   Prelude     Names of the libraries, Boolean tests, lists over the native numbers, machine words and
--               integers.
--   Stoi        `std::stoi`, of which the code uses the documented behaviour: leading white space and a
--               sign, digits, and the exceptions.
--   Sys         What a system call answers.
--   Timer       picam/src/main.cpp: `arm_timer`. `Timer.Schedule` has its properties.
--   Connection  picam/src/connection.cpp: the class `connection`. `Connection.State` has the state monad,
--               `Connection.Frame`, `Connection.Reconnect` and `Connection.Transmit` the invariants of its
--               loops, `Connection.Streams` the properties of the methods, `Connection.Reopening` those of
--               connecting anew.
--   Videnc      picam/src/videnc.cpp: the class `videnc`. `Videnc.Resources` has its allocations,
--               `Videnc.Sample` a small codec for runs.
--   Camera      picam/src/camera_handler.cpp: the class `camera_handler_t`. `Camera.Sizes` is about the
--               planes of a buffer. `Camera.Capture` has the values of the controls, and `queue_request`.
--   Config      picam/src/config.cpp: `trim` (`Config.Trim`) and `parse_config` (`Config.Line`
--               for a line, `Config.Roundtrip` for the file).
--   Logging     picam/src/logging.cpp, which frameset_server/src/logging.c and
--               toolkit/common/src/logging.cpp repeat: `i_to_str` (`Logging.Digits`), `timestamp` (`Logging.Calendar`) and
--               `log_msg` (`Logging.Line`, `Logging.Bounds`), and the file (`Logging.File`).
--   Recorder    picam/src/main.cpp: the main loop and the signal handlers, over the parts above, with
--               `flush_encoder` in `Recorder.Flushing`.
--               `Recorder.Wakeup` is about the semaphore, `Recorder.Stop` about the server's messages,
--               `Recorder.Flush` about the fuel of the loop of
--               `flush_encoder`, `Recorder.Drained` about its runs. `Recorder.Startup` has `main` before its
--               loop, with picam/src/sem_init.cpp, and with the calls that it makes once its objects are
--               there in `Recorder.Startup.Calls`; `Recorder.Startup.Order`, `Recorder.Startup.Built` and
--               `Recorder.Startup.Whole` are about the order in which it sets up and undoes.
--   SpscQueue   frameset_server/include/spsc_queue.h: both structs and all operations.
--               `SpscQueue.Window` is about positions in the ring, `SpscQueue.Invariant` is the invariant, and
--               `SpscQueue.ProducerTurn`, `SpscQueue.ConsumerTurn` and `SpscQueue.Reachable` take it
--               through the steps. `SpscQueue.Fifo` is about the order of the values.
--   Queue       frameset_server/src/queue.c: the growing ring buffer. `Queue.Ring` is about its copy to a
--               larger buffer, `Queue.Holding` the list that it stands for, and `Queue.Refinement` is about the
--               operations on it. `Queue.Memory` has the block of its buffer, with `cleanup_queue`;
--               `Queue.Owning` and `Queue.Freed` are about what is freed.
--   CamConf     frameset_server/src/parse_conf.c: `count_cameras` (`CamConf.Counting`) and `parse_conf`
--               (`CamConf.Reading`).
--   Network     frameset_server/src/network.c: `recv_from_stream`; in `Network.Sockets` `setup_stream`,
--               `accept_conn` and `broadcast_msg`.
--   Decoder     frameset_server/src/viddec.c: sending packets and receiving pictures.
--               `Decoder.Resources` has the set-up and the clean-up, `Decoder.Sample` a small decoder for runs.
--   StreamMgr   frameset_server/src/stream_mgr.c: the loop of `stream_mgr_fn`; `StreamMgr.Setup` has what stands
--               around it, and `StreamMgr.Release` is about what that leaves open. `StreamMgr.Wire` is about a
--               packet of `Connection`, `StreamMgr.Order` about the queue of timestamps, `StreamMgr.Streams`
--               about streams of packets. `StreamMgr.Sample` is what its runs are given.
--   Frameset    frameset_server/src/main.c: the loop of the main thread. `Frameset.Lanes` is about the frames
--               of one camera, `Frameset.Matching` and `Frameset.Alignment` about a pass (with
--               `Frameset.Alignment.Discarding` and `Frameset.Alignment.Run`),
--               `Frameset.Progress` about passes that find all queues filled, `Frameset.Exact` about the
--               framesets and `Frameset.Delivery` about the shared memory. `Frameset.Startup` has the rest of
--               `main`, and `perform_cleanup`, `Frameset.Exits` is about what is set up at each exit and
--               `Frameset.Released` about what is released;
--               `Frameset.Filling` has the loop that fills the queues of empty buffers.
--   StreamController  toolkit/common/src/stream_controller.cpp: `recv_frameset`, with the server's copy into
--               the shared memory (`StreamController.Layout`), and the constructor and destructor of the
--               class (`StreamController.Lifetime`).
--   System      The parts together: the threads of `StreamMgr` whose buffers the loop of `Frameset` takes
--               (`System.Threads`), from the timers of the recorders on (`System.Recording`); the thread that
--               reads what a recorder sends in a recording (`System.Session`, with a frame of it in
--               `Recorder.Session`), and all cameras together (`System.Whole`); and the timestamp that the
--               server broadcasts (`System.Broadcast`). `System.Sample` is what its runs are given.
--
-- How the state corresponds. The fields of `Connection` are those of the class, with `none` for
-- a negative descriptor and the oldest timestamp first; `Proc` adds the replies to come,
-- `errno`, and the events so far. The fields of `Recorder` are the static variables and the
-- locals of `main`, and `Point` says where the main thread stands. A handler or the camera's
-- callback is a step of its own between two points; one that runs inside a part counts as
-- running before or after it. Blocking is the absence of a step: a part that waits for a reply
-- is run again from its point, with the replies that have come by then.
--
-- The queue's two structs are one record, with a point for each thread, and with the values put
-- and got so far. Each call is cut before each access of what the other thread writes or reads.
--
-- A `Queue` has the fields of the C struct, its memory by slots, and the bytes that were
-- allocated; an access beyond them is undefined. An `Owner` adds the block that `data` points to,
-- and the `Heap` of blocks, numbered in the order of their allocation.
--
-- A `Worker` has the locals of `stream_mgr_fn`, with what it has read and handed on. Where a
-- part of the loop's body goes on is a `Next`: after it, at the head of the loop, or at one of
-- the labels. A `Lane` of `Frameset` is the entry of one camera in `current_frames` with its two
-- queues, as the list of the buffers that the thread will put, and that of those given back; a
-- pass takes for each camera whether the thread has put the next one. `nanosleep` changes
-- nothing in this model. In `System` that list is what the thread of `StreamMgr` hands on.
--
-- The start of the recorder is a list of effects, newest first. An exit adds what the destructors
-- of the objects do; which of these are there is in `Objects`.
--
-- The parser of `CamConf` is a function on the events of the file. Its state is the array, cut
-- where `confs_parsed` points, with the counter and `ret`.
--
-- The shared memory is its bytes by their offset; that it may change while the consumer reads is
-- a memory for each copy.
--
-- Parameters. libavcodec is the record `Avcodec`, one for the encoder and one for the decoder,
-- with a context of any type; the decoder's gives no more pictures than it was given packets, as
-- libavcodec documents for one picture in a packet. The events of libyaml are a list, which ends
-- where the parser fails, and `inet_pton` is a function. What the calls of a decoder's set-up
-- answer is a record of answers. What libcamera and mmap answer is the record `Answers`. System
-- calls answer from a list. Clock readings are arguments.
--
-- Fuel. `transmit` and `reconnect` use a reply or end in each round, and so does the loop around
-- `connect`, so one more than the number of replies is enough. `drain` takes a timestamp in each
-- round, so one more than there are timestamps is enough. The year loop of `timestamp` takes 365
-- days off or more in each round, and the month loop ends by December. `i_to_str` has room for
-- 16 digits, of which an `int` needs 10.
--
-- Bounds. `uint64_t` and `uint32_t` arithmetic in `arm_timer` wraps around, written out. The
-- frame sizes of the camera are `unsigned int`. The capacities and sizes of `Queue` are
-- `uint32_t`. Clock readings are not negative, a thread makes fewer than 2^26 turns where its
-- queue of timestamps must not pass 2^32 bytes, and years are not bounded by `int`. The machine
-- is little-endian, as those of the program are. An integer that the recorder's file does not set reads as
-- any number, where C++ leaves the read undefined. A thread of the server that was signalled ends.
--
-- Not modelled: the log entries that the other parts write, what OpenCV makes of a frame, and the
-- lens calibration, which only shows frames with it. The queue is taken to be sequentially consistent, and its buffer to be aligned.
pub mod Prelude
pub mod Stoi
pub mod Timer
pub mod Sys
pub mod Logging
pub mod Config
pub mod Connection
pub mod Videnc
pub mod Camera
pub mod Recorder
pub mod SpscQueue
pub mod Queue
pub mod Frameset
pub mod Decoder
pub mod CamConf
pub mod Network
pub mod StreamMgr
pub mod StreamController
pub mod System
