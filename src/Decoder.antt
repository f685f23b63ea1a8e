-- ===== src/Decoder.antt =====
-- frameset_server/src/viddec.c: the H.264 decoder. libavcodec is a parameter: what its calls answer,
-- and the context that they change.
pub mod Resources
pub mod Sample
mod Tests
use hand_motion_capture.Prelude.{
  ℕ, suc, ◌+◌, ◌*◌, ◌≤◌, ◌≡◌, Bool, List, Option, none, some, if◌then◌else◌,
}

-- What `avcodec_receive_frame` answers: a picture, AVERROR(EAGAIN), AVERROR_EOF or another error.
pub data Decoded : Type 0 where
  picture : ℕ → Decoded
  again end failure : Decoded

-- libavcodec. `send_packet` takes `none` for the null packet that ends the stream, and `false` is a
-- negative return; `transfer` is whether `av_hwframe_transfer_data` copies the picture. A decoder gives
-- a picture for a packet at most: `backlog` bounds those to come.
pub record Avcodec : Type 1 where
  pub Context : Type 0
  pub send_packet : Option (List ℕ) → Context → Bool × Context
  pub receive_frame : Context → Decoded × Context
  pub transfer : Context → Bool
  pub backlog : Context → ℕ
  pub flush_adds_none : (c : Context) → backlog (send_packet none c).1 ≤ backlog c
  pub packet_adds_one :
      (bytes : List ℕ) (c : Context) → backlog (send_packet (some bytes) c).1 ≤ suc (backlog c)
  pub picture_takes_one :
      (c c' : Context) (p : ℕ) → receive_frame c ≡ (picture p, c') → suc (backlog c') ≤ backlog c
  pub other_adds_none : (c : Context) → backlog (receive_frame c).1 ≤ backlog c

-- The returns of `recv_frame`: 0 with the picture in the buffer, EAGAIN, ENODATA, and a negative code.
pub data RecvFrame : Type 0 where
  filled : ℕ → RecvFrame
  need_more no_data failed : RecvFrame

module _ (av : Avcodec) where
  unfoldable pub decode_packet : List ℕ → av.Context → Bool × av.Context
  decode_packet bytes c = av.send_packet (some bytes) c

  unfoldable pub flush_decoder : av.Context → Bool × av.Context
  flush_decoder c = av.send_packet none c

  unfoldable pub on_received : Decoded × av.Context → RecvFrame × av.Context
  on_received (picture p, c) = (if av.transfer c then filled p else failed, c)
  on_received (again, c) = (need_more, c)
  on_received (end, c) = (no_data, c)
  on_received (failure, c) = (failed, c)

  unfoldable pub recv_frame : av.Context → RecvFrame × av.Context
  unfolding on_received
  recv_frame c = on_received (av.receive_frame c)
