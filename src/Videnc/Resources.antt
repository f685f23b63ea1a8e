-- ===== src/Videnc/Resources.antt =====
-- The constructor and the destructor of `videnc` in picam/src/videnc.cpp, as far as they allocate
-- and free: which of its three resources are held after each call.
use hand_motion_capture.Prelude.{Bool, true, false, if◌then◌else◌, ◌≡◌, refl, arith, ◌&&◌}

-- Whether the context, the frame and the packet are allocated.
pub record Held : Type 0 where
  pub context : Bool
  pub frame : Bool
  pub packet : Bool

abbrev pub nothing_held : Held
nothing_held = record { context = false; frame = false; packet = false }

-- How each library call of the constructor turns out, in the order of the calls.
pub record Outcomes : Type 0 where
  pub finds_encoder : Bool
  pub allocates_context : Bool
  pub opens_codec : Bool
  pub allocates_frame : Bool
  pub gets_buffer : Bool
  pub allocates_packet : Bool

pub data Built : Type 0 where
  built : Held → Built
  threw : Held → Built

abbrev free_context : Held → Held
free_context h = record h { context = false }

abbrev free_frame : Held → Held
free_frame h = record h { frame = false }

abbrev free_packet : Held → Held
free_packet h = record h { packet = false }

-- From `av_packet_alloc` on, and so back to the start.
unfoldable pub init_packet : Outcomes → Held → Built
init_packet o h =
    if o.allocates_packet
    then built (record h { packet = true })
    else threw (free_context (free_frame h))

unfoldable pub init_frame : Outcomes → Held → Built
unfolding init_packet
init_frame o h =
    if o.allocates_frame
    then (if o.gets_buffer
        then init_packet o (record h { frame = true })
        else threw (free_context (free_frame (record h { frame = true }))))
    else threw (free_context h)

unfoldable pub init_codec : Outcomes → Held → Built
unfolding init_frame
init_codec o h = if o.opens_codec then init_frame o h else threw (free_context h)

unfoldable pub init_encoder : Outcomes → Built
unfolding init_codec
init_encoder o =
    if o.finds_encoder
    then (if o.allocates_context
        then init_codec o (record nothing_held { context = true })
        else threw nothing_held)
    else threw nothing_held

unfoldable pub destroy : Held → Held
destroy h =
    let h' = if h.packet then free_packet h else h in
    let h'' = if h'.frame then free_frame h' else h' in
    if h''.context then free_context h'' else h''

abbrev pub all_succeed : Outcomes → Bool
all_succeed o =
    o.finds_encoder
    && (o.allocates_context
        && (o.opens_codec && (o.allocates_frame && (o.gets_buffer && o.allocates_packet))))

abbrev pub all_held : Held
all_held = record { context = true; frame = true; packet = true }

-- Whatever the library answers, the constructor holds its three resources if every call succeeds, and
-- otherwise throws and holds none. The destructor gives all three back.
pub init_encoder_all_or_nothing :
    (o : Outcomes)
    → (init_encoder o ≡ (if all_succeed o then built all_held else threw nothing_held))
      × (destroy all_held ≡ nothing_held)
unfolding init_encoder destroy
init_encoder_all_or_nothing o = (ground arith, refl)
