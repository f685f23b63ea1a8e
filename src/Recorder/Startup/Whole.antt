-- ===== src/Recorder/Startup/Whole.antt =====
-- The start of picam/src/main.cpp on every path: what was done before the loop, and what an exit undoes.
use hand_motion_capture.Prelude.{
  [], ◌≡◌, refl, ◌∙◌, ap, sym, subst, List, ◌∷◌, ◌++◌, Option, none, some, ℤ, pos, negsuc, arith,
  inl, inr, ℕ, ◌⊎◌,
}
use hand_motion_capture.Sys.{Reply, ok, fail}
use hand_motion_capture.Camera.{int_product}
use hand_motion_capture.Config
use hand_motion_capture.Config.{Config, parse_config}
use hand_motion_capture.Recorder.Startup.Calls.{
  Effect, log_opened, semaphore_made, Objects, Setup, Progress, goes, stops, threw, held, trapped,
  ◌>>=◌, attach, negated, encoder_freed, connection_closed, camera_closed, semaphore_freed,
}
use hand_motion_capture.Recorder.Startup.{
  Given, init_semaphore, make_camera, make_connection, make_encoder, make_objects,
  frame_duration_of, tear_down, Start, loops, exits, halts, traps, after_setup, opened,
  after_parse_config, start_main, undo_if,
}
use hand_motion_capture.Recorder.Startup.Order.{
  whole_start, PartOf, undone, objects_of, Partly, Leads, Leads->>=, Any, Keeps, Unbound, made,
  attach-Leads, Stands,
}
use hand_motion_capture.Recorder.Startup.Built.{
  init_semaphore-Leads, make_camera-traps, make_objects-Leads,
}

-- What holds of each part of a list holds of a part.
abbrev EachPart : (List Effect → Type 0) → List Effect → Type 0
EachPart P [] = P []
EachPart P (x ∷ xs) = P (x ∷ xs) × EachPart P xs

EachPart-PartOf :
    (P : List Effect → Type 0) (es xs : List Effect) → EachPart P xs → PartOf es xs → P es
EachPart-PartOf P es [] h e = subst P (sym e) h
EachPart-PartOf P es (x ∷ xs) h (inl e) = subst P (sym e) h.0
EachPart-PartOf P es (x ∷ xs) h (inr p) = EachPart-PartOf P es xs h.1 p

-- The body of `tear_down`.
abbrev torn_down : Objects → List Effect → List Effect
torn_down o es = undo_if o.semaphore semaphore_freed (
    undo_if o.camera camera_closed
      (undo_if o.connection connection_closed (undo_if o.encoder encoder_freed es)))

abbrev Undoes : List Effect → Type 0
Undoes es = torn_down (objects_of es) es ≡ undone es ++ es

parts_undone : EachPart Undoes whole_start
unfolding undone
parts_undone = ground arith

tear_down-undone : (s : Setup) → Partly s → tear_down s ≡ undone s.effects ++ s.effects
unfolding tear_down
tear_down-undone s (p, e) =
    ap (λ (o : Objects). torn_down o s.effects) e
    ∙ EachPart-PartOf Undoes s.effects whole_start parts_undone p

-- How the start of the program ends.
abbrev pub IsStart : Given → Config → Start → Type 0
IsStart g fresh (loops d s) =
    (s.effects ≡ whole_start)
    × ((c : Config) × (parse_config g.config_file fresh ≡ Config.Result.ok c)
        × (frame_duration_of c.fps ≡ some d))
IsStart g fresh (exits e es) =
    (done : List Effect) × PartOf done whole_start × (es ≡ undone done ++ done)
IsStart g fresh (halts s) = PartOf s.effects whole_start
IsStart g fresh traps =
    (c : Config) × (parse_config g.config_file fresh ≡ Config.Result.ok c)
    × ((c.fps ≡ pos 0) ⊎ (int_product c.frame_width c.frame_height ≡ none))

after_setup-IsStart :
    (g : Given) (fresh c : Config) (d : ℕ) (m : Progress)
    → parse_config g.config_file fresh ≡ Config.Result.ok c
    → frame_duration_of c.fps ≡ some d
    → Leads (Keeps Any whole_start) m
    → IsStart g fresh (after_setup d m)
unfolding after_setup
after_setup-IsStart g fresh c d (goes s) e f h = (h.0.did, (c, e, f))
after_setup-IsStart g fresh c d (stops x s) e f h = (s.effects, h.0, tear_down-undone s h)
after_setup-IsStart g fresh c d (threw s) e f h = (s.effects, h.0, tear_down-undone s h)
after_setup-IsStart g fresh c d (held s) e f h = h.0
after_setup-IsStart g fresh c d trapped e f h = absurd h

-- Where no `int` holds the number of pixels, only the semaphore comes before the trap.
overflows :
    (g : Given) (fresh c : Config) (d : ℕ) (P : Setup → Type 0) (m : Progress)
    → parse_config g.config_file fresh ≡ Config.Result.ok c
    → frame_duration_of c.fps ≡ some d
    → int_product c.frame_width c.frame_height ≡ none
    → Leads P m
    → IsStart g fresh (
        after_setup d (m >>= make_camera g c >>= make_connection g c >>= make_encoder g >>= attach))
unfolding after_setup
overflows g fresh c d P (goes s) e f o h =
    subst
      (λ q.
        IsStart g fresh (after_setup d (q >>= make_connection g c >>= make_encoder g >>= attach)))
      (sym (make_camera-traps g c s o)) (c, e, inr o)
overflows g fresh c d P (stops x s) e f o h = (s.effects, h.0, tear_down-undone s h)
overflows g fresh c d P (threw s) e f o h = (s.effects, h.0, tear_down-undone s h)
overflows g fresh c d P (held s) e f o h = h.0
overflows g fresh c d P trapped e f o h = absurd h

constructed :
    (g : Given) (fresh c : Config) (d : ℕ)
    → parse_config g.config_file fresh ≡ Config.Result.ok c
    → frame_duration_of c.fps ≡ some d
    → (pixels : Option ℕ) → int_product c.frame_width c.frame_height ≡ pixels
    → IsStart g fresh (after_setup d (make_objects g c (opened g) >>= attach))
unfolding make_objects
constructed g fresh c d e f none o =
    overflows g fresh c d (Stands (semaphore_made ∷ log_opened ∷ [])) (init_semaphore g (opened g))
      e f o (init_semaphore-Leads g (opened g) (record { did = refl; has = refl }))
constructed g fresh c d e f (some n) o = after_setup-IsStart g fresh c d _ e f (
    Leads->>= (Unbound made) (Keeps Any whole_start) (make_objects g c (opened g)) attach
      (make_objects-Leads g c (n, o)) attach-Leads)

no_duration : (n : ℤ) → frame_duration_of n ≡ none → n ≡ pos 0
unfolding frame_duration_of
no_duration (pos n) e = ground arith
no_duration (negsuc n) e = absurd (cc e)

after_parse_config-IsStart :
    (g : Given) (fresh : Config) (r : Config.Result Config)
    → parse_config g.config_file fresh ≡ r
    → IsStart g fresh (after_parse_config g r)
unfolding after_parse_config undone
after_parse_config-IsStart g fresh (Config.Result.threw x) e = (log_opened ∷ [], ground arith, refl)
after_parse_config-IsStart g fresh (Config.Result.ok c) e =
    on_duration (frame_duration_of c.fps) refl
  where
    on_duration :
        (d : Option ℕ)
        → frame_duration_of c.fps ≡ d
        → IsStart g fresh (elim d [
          | none ↦ traps
          | some d ↦ after_setup d (make_objects g c (opened g) >>= attach)
        ])
    on_duration none f = (c, e, inl (no_duration c.fps f))
    on_duration (some d) f =
        constructed g fresh c d e f (int_product c.frame_width c.frame_height) refl

-- If an integer that the file does not set reads as some number, that of the fresh object, then whatever the
-- files, the libraries and the system answer: what the program does before its loop is the beginning
-- of one order, in which the handlers come after the objects that they use, and SIGIO is asked for after
-- its handler. At the loop all of it is done. An exit before the loop undoes the objects that were made,
-- in reverse order, and nothing else. The run traps only where the frames per second are 0, by which it
-- divides, or where no `int` holds the product of the width and the height.
pub start_main-IsStart : (g : Given) (fresh : Config) → IsStart g fresh (start_main g fresh)
unfolding start_main undone
start_main-IsStart g fresh = on_log g.log_file
  where
    on_log :
        (r : Reply)
        → IsStart g fresh (elim r [
          | fail e ↦ exits (negated e) []
          | ok fd ↦ after_parse_config g (parse_config g.config_file fresh)
        ])
    on_log (fail e) = ([], ground arith, refl)
    on_log (ok fd) = after_parse_config-IsStart g fresh (parse_config g.config_file fresh) refl
