-- ===== src/Camera.antt =====
-- picam/src/camera_handler.cpp: the camera's buffer sizes, its construction and destruction, and the
-- completion callback. libcamera's and the kernel's answers are arguments.
pub mod Sizes
pub mod Capture
mod Tests
use hand_motion_capture.Prelude.{
  ℕ, suc, ◌+◌, ◌-◌, ◌*◌, ◌/◌, ◌%◌, ◌^◌, ℤ, pos, negsuc, Option, none, some, ltb, leb, Bool, true,
  false, ◌&&◌, List, [], ◌∷◌, ◌++◌, ◌==◌, if◌then◌else◌, u32_mod,
}

-- The product of two `int`, as an `unsigned int`. `none` where no `int` holds it, which is undefined.
unfoldable pub int_product : ℤ → ℤ → Option ℕ
int_product (pos a) (pos b) = if ltb (a * b) (2 ^ 31) then some (a * b) else none
int_product (negsuc a) (negsuc b) =
    if ltb (suc a * suc b) (2 ^ 31) then some (suc a * suc b) else none
int_product (pos a) (negsuc b) =
    if leb (a * suc b) (2 ^ 31) then some ((u32_mod - a * suc b) % u32_mod) else none
int_product (negsuc a) (pos b) =
    if leb (suc a * b) (2 ^ 31) then some ((u32_mod - suc a * b) % u32_mod) else none

-- The sum of the planes, in `unsigned int`.
unfoldable pub frame_bytes_of : ℕ → ℕ
frame_bytes_of y_plane_bytes =
    let u_plane_bytes = y_plane_bytes / 4 in
    (y_plane_bytes + u_plane_bytes + u_plane_bytes) % u32_mod

unfoldable pub sum_planes : Option ℕ → Option ℕ
unfolding frame_bytes_of
sum_planes none = none
sum_planes (some y_plane_bytes) = some (frame_bytes_of y_plane_bytes)

unfoldable pub init_frame_bytes : ℤ → ℤ → Option ℕ
unfolding int_product sum_planes
init_frame_bytes frame_width frame_height = sum_planes (int_product frame_width frame_height)

-- The lengths of the planes of a buffer.
pub record Planes : Type 0 where
  pub y_length : ℕ
  pub u_length : ℕ
  pub v_length : ℕ

-- The sizes that `init_dma_buffer` computes back from `frame_bytes_`, a `size_t` below 2^32.
unfoldable pub expected_planes : ℕ → Planes
expected_planes frame_bytes =
    let y_plane_bytes = frame_bytes * 2 / 3 % u32_mod in
    record { y_length = y_plane_bytes; u_length = y_plane_bytes / 4; v_length = y_plane_bytes / 4 }

unfoldable pub planes_match : Planes → ℕ → Bool
unfolding expected_planes
planes_match p frame_bytes =
    let e = expected_planes frame_bytes in
    p.y_length == e.y_length && (p.u_length == e.u_length && p.v_length == e.v_length)

-- What the handler has taken of the system and not given back.
pub record Taken : Type 0 where
  pub manager_started : Bool
  pub acquired : Bool
  pub allocated : Bool
  pub mapped : Bool
  pub started : Bool

abbrev pub nothing_taken : Taken
nothing_taken = record {
  manager_started = false;
  acquired = false;
  allocated = false;
  mapped = false;
  started = false;
}

-- `CameraConfiguration::validate`.
pub data Validation : Type 0 where
  valid adjusted invalid : Validation

-- The answers to the calls of the constructor, in their order. `validate` is called a second time
-- only if the first answer is not `invalid`.
pub record Answers : Type 0 where
  pub manager_starts : Bool
  pub has_cameras : Bool
  pub gets_camera : Bool
  pub acquires : Bool
  pub generates : Bool
  pub first_validation : Validation
  pub second_validation : Validation
  pub configures : Bool
  pub allocates : Bool
  pub creates_request : Bool
  pub adds_buffer : Bool
  pub planes : Planes
  pub maps : Bool
  pub starts : Bool

pub data Built : Type 0 where
  built : Taken → Built
  threw : Taken → Built

-- The five parts of the constructor, the last one first: each goes on with the next one.
unfoldable pub init_camera_controls : Answers → Taken → Built
init_camera_controls a t = if a.starts then built (record t { started = true }) else threw t

unfoldable pub init_dma_buffer : Answers → ℕ → Taken → Built
unfolding init_camera_controls planes_match
init_dma_buffer a frame_bytes t =
    if a.allocates
    then (let t' = record t { allocated = true } in
        if a.creates_request
        then (if a.adds_buffer
            then (if planes_match a.planes frame_bytes
                then (if a.maps
                    then init_camera_controls a (record t' { mapped = true })
                    else threw t')
                else threw t')
            else threw t')
        else threw t')
    else threw t

is_invalid : Validation → Bool
is_invalid invalid = true
is_invalid _ = false

is_adjusted : Validation → Bool
is_adjusted adjusted = true
is_adjusted _ = false

unfoldable pub init_camera_config : Answers → ℕ → Taken → Built
unfolding init_dma_buffer is_invalid is_adjusted
init_camera_config a frame_bytes t =
    if a.generates
    then (if is_invalid a.first_validation
        then threw t
        else (if is_adjusted a.second_validation
            then threw t
            else (if a.configures then init_dma_buffer a frame_bytes t else threw t)))
    else threw t

unfoldable pub init_camera_manager : Answers → ℕ → Taken → Built
unfolding init_camera_config
init_camera_manager a frame_bytes t =
    if a.manager_starts
    then (let t' = record t { manager_started = true } in
        if a.has_cameras
        then (if a.gets_camera
            then (if a.acquires
                then init_camera_config a frame_bytes (record t' { acquired = true })
                else threw t')
            else threw t')
        else threw t')
    else threw t

-- A constructor that throws destroys the members: the allocator, which frees its buffers, and the manager,
-- which stops. The camera is not released, and the mapping stays.
unfoldable pub unwind : Built → Built
unwind (built t) = built t
unwind (threw t) = threw (record t { allocated = false; manager_started = false })

-- `none` for what is undefined.
unfoldable pub after_frame_bytes : Answers → Option ℕ → Option Built
unfolding init_camera_manager unwind
after_frame_bytes a none = none
after_frame_bytes a (some frame_bytes) =
    some (unwind (init_camera_manager a frame_bytes nothing_taken))

unfoldable pub construct : Answers → ℤ → ℤ → Option Built
unfolding after_frame_bytes init_frame_bytes
construct a frame_width frame_height =
    after_frame_bytes a (init_frame_bytes frame_width frame_height)

-- The calls of the destructor.
pub data Call : Type 0 where
  stop unmap free release stop_manager : Call

unfoldable pub undo : Call → Taken → Taken
undo stop t = record t { started = false }
undo unmap t = record t { mapped = false }
undo free t = record t { allocated = false }
undo release t = record t { acquired = false }
undo stop_manager t = record t { manager_started = false }

unfoldable pub run_calls : List Call → Taken → Taken
unfolding undo
run_calls [] t = t
run_calls (c ∷ cs) t = run_calls cs (undo c t)

abbrev pub destructor_calls : List Call
destructor_calls = stop ∷ unmap ∷ free ∷ release ∷ stop_manager ∷ []

unfoldable pub destroy : Taken → Taken
unfolding run_calls
destroy t = run_calls destructor_calls t
