-- ===== src/Decoder/Sample.antt =====
-- A small decoder, for runs of the code that uses one.
use hand_motion_capture.Prelude.{
  ℕ, suc, ◌≤◌, ◌≡◌, ap, Bool, true, false, List, [], ◌∷◌, ◌++◌, Option, none, some, arith, length,
  length-append,
}
use hand_motion_capture.Decoder.{Avcodec, Decoded, picture, again, end}

-- Whether the stream has ended, and the pictures to come.
abbrev pub SmallContext : Type 0
SmallContext = Bool × List ℕ

-- A packet gives a picture, which is its length.
abbrev pub small_send : Option (List ℕ) → SmallContext → Bool × SmallContext
small_send none (ended, pictures) = (true, (true, pictures))
small_send (some bytes) (ended, pictures) = (true, (ended, pictures ++ length bytes ∷ []))

abbrev pub small_receive : SmallContext → Decoded × SmallContext
small_receive (true, []) = (end, (true, []))
small_receive (false, []) = (again, (false, []))
small_receive (ended, p ∷ pictures) = (picture p, (ended, pictures))

pub small_picture :
    (c c' : SmallContext) (p : ℕ)
    → small_receive c ≡ (picture p, c')
    → suc (length (c'.1)) ≤ length (c.1)
small_picture (true, []) c' p e = absurd (cc e)
small_picture (false, []) c' p e = absurd (cc e)
small_picture (ended, q ∷ pictures) c' p e =
    rw (ap (λ (x : Decoded × SmallContext). length (x.1.1)) e) (omega arith)

pub small_other : (c : SmallContext) → length ((small_receive c).1.1) ≤ length (c.1)
small_other (true, []) = omega arith
small_other (false, []) = omega arith
small_other (ended, p ∷ pictures) = omega arith

pub small_packet :
    (bytes : List ℕ) (c : SmallContext)
    → length ((small_send (some bytes) c).1.1) ≤ suc (length (c.1))
small_packet bytes (ended, pictures) = rw (length-append pictures (length bytes ∷ [])) (omega arith)

pub small_flush : (c : SmallContext) → length ((small_send none c).1.1) ≤ length (c.1)
small_flush (ended, pictures) = omega arith

abbrev pub small_decoder : Avcodec
small_decoder = record {
  Context = SmallContext;
  send_packet = small_send;
  receive_frame = small_receive;
  transfer = λ c. true;
  backlog = λ c. length (c.1);
  flush_adds_none = small_flush;
  packet_adds_one = small_packet;
  picture_takes_one = small_picture;
  other_adds_none = small_other;
}
