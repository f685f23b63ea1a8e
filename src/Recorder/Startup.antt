-- ===== src/Recorder/Startup.antt =====
-- picam/src/main.cpp before its loop: the objects that `main` constructs, then the calls of `Calls`; and
-- picam/src/sem_init.cpp. The camera's and the encoder's libraries answer as in `Camera` and
-- `Videnc.Resources`, the calls after the connection is made from its script of replies.
pub mod Calls
pub mod Order
pub mod Built
pub mod Whole
use hand_motion_capture.Prelude.{
  [], ℕ, suc, ◌-◌, ◌/◌, ◌==◌, Bool, true, false, List, ◌∷◌, ◌++◌, Option, none, some, ℤ, pos,
  negsuc, u64_mod, if◌then◌else◌,
}
use hand_motion_capture.Sys.{Reply, ok, fail}
use hand_motion_capture.Timer.{ns_per_s}
use hand_motion_capture.Config
use hand_motion_capture.Config.{Config, parse_config}
use hand_motion_capture.Connection.State
use hand_motion_capture.Connection.{unconfigured, configured}
use hand_motion_capture.Camera
use hand_motion_capture.Videnc.Resources
use hand_motion_capture.Recorder.Startup.Calls.{
  log_opened, semaphore_made, camera_made, connection_made, encoder_made, encoder_freed,
  connection_closed, camera_closed, semaphore_freed, goes, stops, threw, held, trapped, Effect,
  Setup, Progress, ◌>>=◌, negated, attach,
}

-- What the system and the libraries answer before the loop. `replies` are those of the calls once all
-- objects are made.
pub record Given : Type 0 where
  pub log_file : Reply
  pub config_file : Option (List ℕ)
  pub sem_memory : Bool
  pub sem_init : Reply
  pub camera : Camera.Answers
  pub encoder : Resources.Outcomes
  pub replies : List Reply

-- `init_semaphore`, which frees the memory again if `sem_init` fails.
unfoldable pub init_semaphore : Given → Setup → Progress
init_semaphore g s =
    if g.sem_memory
    then elim g.sem_init [
      | ok n ↦ goes (record s {
        objects = record (s.objects) { semaphore = true };
        effects = semaphore_made ∷ s.effects;
      })
      | fail e ↦ threw s
    ]
    else threw s

unfoldable pub on_camera : Setup → Option Camera.Built → Progress
on_camera s none = trapped
on_camera s (some (Camera.Built.built t)) =
    goes (record s {
      objects = record (s.objects) { camera = true };
      effects = camera_made ∷ s.effects;
    })
on_camera s (some (Camera.Built.threw t)) = threw s

unfoldable pub make_camera : Given → Config → Setup → Progress
unfolding on_camera
make_camera g c s = on_camera s (Camera.construct g.camera c.frame_width c.frame_height)

unfoldable pub make_connection : Given → Config → Setup → Progress
unfolding configured
make_connection g c s = goes (record s {
  objects = record (s.objects) { connection = true };
  proc = record (s.proc) { conn = configured c.server_ip c.tcp_port c.udp_port };
  effects = connection_made ∷ s.effects;
})

unfoldable pub make_encoder : Given → Setup → Progress
make_encoder g s = elim (Resources.init_encoder g.encoder) [
  | Resources.Built.built h ↦ goes (record s {
    objects = record (s.objects) { encoder = true };
    effects = encoder_made ∷ s.effects;
  })
  | Resources.Built.threw h ↦ threw s
]

unfoldable pub make_objects : Given → Config → Setup → Progress
unfolding init_semaphore make_camera make_connection make_encoder
make_objects g c s =
    init_semaphore g s >>= make_camera g c >>= make_connection g c >>= make_encoder g

-- `ns_per_s / config.fps`: the `int` is converted to `uint64_t`, and a division by 0 traps.
unfoldable pub frame_duration_of : ℤ → Option ℕ
frame_duration_of (pos n) = if n == 0 then none else some (ns_per_s / n)
frame_duration_of (negsuc n) = some (ns_per_s / (u64_mod - suc n))

abbrev pub undo_if : Bool → Effect → List Effect → List Effect
undo_if true e es = e ∷ es
undo_if false e es = es

-- The local encoder is destroyed first, then the static objects, the last one first. The handlers stay.
unfoldable pub tear_down : Setup → List Effect
tear_down s =
    let o = s.objects in
    undo_if o.semaphore semaphore_freed (
      undo_if o.camera camera_closed
        (undo_if o.connection connection_closed (undo_if o.encoder encoder_freed s.effects)))

-- How the start ends: at the loop with the frame duration, by the exit of the program, by a call that has
-- no reply yet, or by a trap.
pub data Start : Type 0 where
  loops : ℕ → Setup → Start
  exits : ℤ → List Effect → Start
  halts : Setup → Start
  traps : Start

unfoldable pub after_setup : ℕ → Progress → Start
unfolding tear_down
after_setup d (goes s) = loops d s
after_setup d (stops e s) = exits e (tear_down s)
after_setup d (threw s) = exits (pos 1) (tear_down s)
after_setup d (held s) = halts s
after_setup d trapped = traps

-- The log is open, and nothing else is there.
abbrev pub opened : Given → Setup
opened g = record {
  objects = record { semaphore = false; camera = false; connection = false; encoder = false };
  proc = record { conn = unconfigured; replies = g.replies; errno = 0; events = [] };
  effects = log_opened ∷ [];
}

unfoldable pub after_parse_config : Given → Config.Result Config → Start
unfolding frame_duration_of make_objects attach after_setup
after_parse_config g (Config.Result.threw e) = exits (pos 1) (log_opened ∷ [])
after_parse_config g (Config.Result.ok c) = elim (frame_duration_of c.fps) [
  | none ↦ traps
  | some d ↦ after_setup d (make_objects g c (opened g) >>= attach)
]

-- `main` up to its loop, from a fresh `config` object. An integer that the file does not set keeps the value
-- of that object, whatever it is.
unfoldable pub start_main : Given → Config → Start
unfolding after_parse_config
start_main g fresh = elim g.log_file [
  | fail e ↦ exits (negated e) []
  | ok fd ↦ after_parse_config g (parse_config g.config_file fresh)
]
