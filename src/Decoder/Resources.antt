-- ===== src/Decoder/Resources.antt =====
-- `init_decoder` and `cleanup_decoder` of frameset_server/src/viddec.c: what they allocate and free, and
-- the code that is returned.
use hand_motion_capture.Prelude.{
  ℕ, Bool, true, false, ◌&&◌, not, if◌then◌else◌, ◌≡◌, arith, ℤ, pos, negsuc, ltb_ℤ,
}

-- The pointers of `decoder` that are set.
pub record Held : Type 0 where
  pub ctx : Bool
  pub frame : Bool
  pub hw_frame : Bool
  pub pkt : Bool
  pub hw_device_ctx : Bool

abbrev pub nothing_held : Held
nothing_held = record {
  ctx = false;
  frame = false;
  hw_frame = false;
  pkt = false;
  hw_device_ctx = false;
}

abbrev pub all_held : Held
all_held = record { ctx = true; frame = true; hw_frame = true; pkt = true; hw_device_ctx = true }

-- What the library answers, in the order of the calls.
pub record Answers : Type 0 where
  pub finds_decoder : Bool
  pub allocates_context : Bool
  pub create_device : ℤ
  pub references_device : Bool
  pub open_codec : ℤ
  pub allocates_frame : Bool
  pub allocates_hw_frame : Bool
  pub allocates_packet : Bool
  pub get_buffer : ℤ

abbrev pub enodev : ℕ
enodev = 19

abbrev pub enomem : ℕ
enomem = 12

-- Each pointer is freed where it is set, and cleared.
unfoldable pub cleanup_decoder : Held → Held
cleanup_decoder h =
    let h1 = if h.pkt then record h { pkt = false } else h in
    let h2 = if h1.frame then record h1 { frame = false } else h1 in
    let h3 = if h2.hw_frame then record h2 { hw_frame = false } else h2 in
    let h4 = if h3.ctx then record h3 { ctx = false } else h3 in
    if h4.hw_device_ctx then record h4 { hw_device_ctx = false } else h4

-- From `av_frame_alloc` on, with `ret` as the calls before have left it.
unfoldable pub init_frames : Answers → ℤ → Held → ℤ × Held
unfolding cleanup_decoder
init_frames a ret h =
    let h' = record h {
      frame = a.allocates_frame;
      hw_frame = a.allocates_hw_frame;
      pkt = a.allocates_packet;
    } in
    if a.allocates_frame && (a.allocates_hw_frame && a.allocates_packet)
    then (if ltb_ℤ a.get_buffer (pos 0) then (a.get_buffer, cleanup_decoder h') else (pos 0, h'))
    else (ret, cleanup_decoder h')

unfoldable pub init_codec : Answers → ℤ → Held → ℤ × Held
unfolding init_frames cleanup_decoder
init_codec a ret h =
    if a.references_device
    then (if ltb_ℤ a.open_codec (pos 0)
        then (a.open_codec, cleanup_decoder h)
        else init_frames a a.open_codec h)
    else (ret, cleanup_decoder h)

unfoldable pub init_device : Answers → Held → ℤ × Held
unfolding init_codec cleanup_decoder
init_device a h =
    if ltb_ℤ a.create_device (pos 0)
    then (a.create_device, cleanup_decoder h)
    else init_codec a a.create_device (record h { hw_device_ctx = true })

unfoldable pub init_decoder : Answers → ℤ × Held
unfolding init_device
init_decoder a =
    if a.finds_decoder
    then (if a.allocates_context
        then init_device a (record nothing_held { ctx = true })
        else (negsuc 11, nothing_held))
    else (negsuc 18, nothing_held)

-- Every call succeeds.
abbrev pub all_succeed : Answers → Bool
all_succeed a =
    a.finds_decoder
    && (a.allocates_context
        && (not (ltb_ℤ a.create_device (pos 0))
            && (a.references_device
                && (not (ltb_ℤ a.open_codec (pos 0))
                    && (a.allocates_frame
                        && (a.allocates_hw_frame
                            && (a.allocates_packet && not (ltb_ℤ a.get_buffer (pos 0)))))))))

-- `init_decoder` sets all pointers if every call of it succeeds, and otherwise leaves none set: what it
-- allocated before the call that fails is freed.
pub init_decoder_held :
    (a : Answers) → (init_decoder a).1 ≡ (if all_succeed a then all_held else nothing_held)
unfolding init_decoder
init_decoder_held a = ground arith

-- If the calls of libavcodec that return a code return 0, and the reference to the device or the
-- allocation of a frame or of the packet fails, `init_decoder` returns 0, as on success, though it has
-- freed the decoder.
pub init_decoder_silent :
    (a : Answers)
    → a.finds_decoder ≡ true
    → a.allocates_context ≡ true
    → a.create_device ≡ pos 0
    → a.open_codec ≡ pos 0
    → a.references_device && (a.allocates_frame && (a.allocates_hw_frame && a.allocates_packet))
      ≡ false
    → init_decoder a ≡ (pos 0, nothing_held)
unfolding init_decoder
init_decoder_silent a f c d o m = ground arith
