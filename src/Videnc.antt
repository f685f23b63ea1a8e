-- ===== src/Videnc.antt =====
-- picam/src/videnc.cpp: the H.264 encoder. libavcodec is a parameter: what its calls answer, and the
-- context that they change.
pub mod Resources
pub mod Sample
mod Tests
use hand_motion_capture.Prelude.{
  ℕ, ◌+◌, ◌*◌, ◌/◌, Bool, true, false, List, Option, none, some, if◌then◌else◌,
}

-- A frame as it is sent: the presentation time, and where the three planes start in the buffer.
pub record Frame : Type 0 where
  pub pts : ℕ
  pub y_plane : ℕ
  pub u_plane : ℕ
  pub v_plane : ℕ

-- What `avcodec_receive_packet` answers: a packet, AVERROR(EAGAIN), AVERROR_EOF or another error.
pub data Received : Type 0 where
  packet : List ℕ → Received
  again end failure : Received

-- libavcodec. `send_frame` is `avcodec_send_frame`, with `none` for the null frame that ends the
-- stream; `false` is a negative return. `is_writable` is `av_frame_make_writable`.
pub record Avcodec : Type 1 where
  pub Context : Type 0
  pub opened : Context
  pub is_writable : Context → Bool
  pub send_frame : Option Frame → Context → Bool × Context
  pub receive_packet : Context → Received × Context

-- A call that may throw `std::runtime_error`.
pub data Result {ℓ} (A : Type ℓ) : Type ℓ where
  ok : A → Result A
  runtime_error : Result A

module _ (av : Avcodec) where
  pub record Videnc : Type 0 where
    pub width : ℕ
    pub height : ℕ
    pub pts_counter : ℕ
    pub ctx : av.Context

  -- The constructor, where every allocation succeeds (`Resources` has its failures).
  unfoldable pub make : ℕ → ℕ → Videnc
  make width height = record { width = width; height = height; pts_counter = 0; ctx = av.opened }

  -- The plane offsets of a YUV420 buffer.
  unfoldable pub next_frame : Videnc → Frame
  next_frame v =
      let y_size = v.width * v.height in
      record { pts = v.pts_counter; y_plane = 0; u_plane = y_size; v_plane = y_size + y_size / 4 }

  sent_or_error : Videnc → ℕ → Bool × av.Context → Result Videnc
  sent_or_error v counter (true, ctx) = ok (record v { pts_counter = counter; ctx = ctx })
  sent_or_error v counter (false, ctx) = runtime_error

  unfoldable pub encode_frame : Videnc → Result Videnc
  unfolding next_frame sent_or_error
  encode_frame v =
      if av.is_writable v.ctx
      then sent_or_error v (v.pts_counter + 1) (av.send_frame (some (next_frame v)) v.ctx)
      else runtime_error

  unfoldable pub flush : Videnc → Result Videnc
  unfolding sent_or_error
  flush v = sent_or_error v v.pts_counter (av.send_frame none v.ctx)

  received : Videnc → Received × av.Context → Result (Option (List ℕ) × Videnc)
  received v (packet bytes, ctx) = ok (some bytes, record v { ctx = ctx })
  received v (again, ctx) = ok (none, record v { ctx = ctx })
  received v (end, ctx) = ok (none, record v { ctx = ctx })
  received v (failure, ctx) = runtime_error

  unfoldable pub recv_frame : Videnc → Result (Option (List ℕ) × Videnc)
  unfolding received
  recv_frame v = received v (av.receive_packet v.ctx)
