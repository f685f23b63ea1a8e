-- ===== src/Recorder/Startup/Built.antt =====
-- The objects that picam/src/main.cpp constructs before its loop.
use hand_motion_capture.Prelude.{
  [], ℕ, some, none, ◌≡◌, refl, ap, true, ◌∷◌, arith, inl, inr, Bool-cases,
}
use hand_motion_capture.Sys.{Reply, ok, fail}
use hand_motion_capture.Config.{Config}
use hand_motion_capture.Connection.{configured}
use hand_motion_capture.Camera
use hand_motion_capture.Videnc.Resources
use hand_motion_capture.Recorder.Startup.Calls.{
  log_opened, semaphore_made, camera_made, connection_made, encoder_made, Objects, Setup, goes,
  threw, trapped,
}
use hand_motion_capture.Recorder.Startup.{
  Given, init_semaphore, on_camera, make_camera, make_connection, make_encoder, make_objects,
  opened,
}
use hand_motion_capture.Recorder.Startup.Order.{
  Stands, Leads, Leads->>=, Stands-Partly, Unbound, made,
}

pub init_semaphore-Leads :
    (g : Given) (s : Setup)
    → Stands (log_opened ∷ []) s
    → Leads (Stands (semaphore_made ∷ log_opened ∷ [])) (init_semaphore g s)
unfolding init_semaphore
init_semaphore-Leads g s h = elim (Bool-cases g.sem_memory) [
  | inr no_memory ↦ rw no_memory (Stands-Partly (log_opened ∷ []) s (ground arith) h)
  | inl memory ↦ rw memory (on_reply g.sem_init)
]
  where
    on_reply :
        (r : Reply)
        → Leads (Stands (semaphore_made ∷ log_opened ∷ [])) (elim r [
          | ok n ↦ goes (record s {
            objects = record (s.objects) { semaphore = true };
            effects = semaphore_made ∷ s.effects;
          })
          | fail e ↦ threw s
        ])
    on_reply (ok n) = record {
      did = ap (◌∷◌ semaphore_made) h.did;
      has = ap (λ (o : Objects). record o { semaphore = true }) h.has;
    }
    on_reply (fail e) = Stands-Partly (log_opened ∷ []) s (ground arith) h

-- An `int` holds the number of pixels.
abbrev pub Fits : Config → Type 0
Fits c = (n : ℕ) × (Camera.int_product c.frame_width c.frame_height ≡ some n)

on_camera-Leads :
    (s : Setup) (b : Camera.Built)
    → Stands (semaphore_made ∷ log_opened ∷ []) s
    → Leads (Stands (camera_made ∷ semaphore_made ∷ log_opened ∷ [])) (on_camera s (some b))
unfolding on_camera
on_camera-Leads s (Camera.Built.built t) h = record {
  did = ap (◌∷◌ camera_made) h.did;
  has = ap (λ (o : Objects). record o { camera = true }) h.has;
}
on_camera-Leads s (Camera.Built.threw t) h =
    Stands-Partly (semaphore_made ∷ log_opened ∷ []) s (ground arith) h

make_camera-Leads :
    (g : Given) (c : Config) (s : Setup)
    → Fits c
    → Stands (semaphore_made ∷ log_opened ∷ []) s
    → Leads (Stands (camera_made ∷ semaphore_made ∷ log_opened ∷ [])) (make_camera g c s)
unfolding make_camera Camera.construct Camera.init_frame_bytes Camera.after_frame_bytes
    Camera.sum_planes
make_camera-Leads g c s (n, f) h = rw f (
    on_camera-Leads s
      (Camera.unwind
        (Camera.init_camera_manager g.camera (Camera.frame_bytes_of n) Camera.nothing_taken))
      h)

make_encoder-Leads :
    (g : Given) (s : Setup)
    → Unbound (connection_made ∷ camera_made ∷ semaphore_made ∷ log_opened ∷ []) s
    → Leads (Unbound made) (make_encoder g s)
unfolding make_encoder
make_encoder-Leads g s (h, u) = on_encoder (Resources.init_encoder g.encoder)
  where
    on_encoder :
        (b : Resources.Built)
        → Leads (Unbound made) (elim b [
          | Resources.Built.built t ↦ goes (record s {
            objects = record (s.objects) { encoder = true };
            effects = encoder_made ∷ s.effects;
          })
          | Resources.Built.threw t ↦ threw s
        ])
    on_encoder (Resources.Built.built t) = (
      record {
        did = ap (◌∷◌ encoder_made) h.did;
        has = ap (λ (o : Objects). record o { encoder = true }) h.has;
      },
      u,
    )
    on_encoder (Resources.Built.threw t) =
        Stands-Partly (connection_made ∷ camera_made ∷ semaphore_made ∷ log_opened ∷ []) s
          (ground arith) h

make_connection-Leads :
    (g : Given) (c : Config) (s : Setup)
    → Stands (camera_made ∷ semaphore_made ∷ log_opened ∷ []) s
    → Leads
        (Unbound (connection_made ∷ camera_made ∷ semaphore_made ∷ log_opened ∷ []))
        (make_connection g c s)
unfolding make_connection configured
make_connection-Leads g c s h = (
  record {
    did = ap (◌∷◌ connection_made) h.did;
    has = ap (λ (o : Objects). record o { connection = true }) h.has;
  },
  refl,
)

pub make_objects-Leads :
    (g : Given) (c : Config) → Fits c → Leads (Unbound made) (make_objects g c (opened g))
unfolding make_objects
make_objects-Leads g c f =
    Leads->>= (Unbound (connection_made ∷ camera_made ∷ semaphore_made ∷ log_opened ∷ []))
      (Unbound made) _ (make_encoder g)
      (Leads->>= (Stands (camera_made ∷ semaphore_made ∷ log_opened ∷ [])) _ _ (make_connection g c)
        (Leads->>= (Stands (semaphore_made ∷ log_opened ∷ [])) _ _ (make_camera g c)
          (init_semaphore-Leads g (opened g) (record { did = refl; has = refl }))
          (λ s. make_camera-Leads g c s f))
        (make_connection-Leads g c))
      (make_encoder-Leads g)

pub make_camera-traps :
    (g : Given) (c : Config) (s : Setup)
    → Camera.int_product c.frame_width c.frame_height ≡ none
    → make_camera g c s ≡ trapped
unfolding make_camera Camera.construct Camera.init_frame_bytes Camera.after_frame_bytes
    Camera.sum_planes on_camera
make_camera-traps g c s e = rw e refl
