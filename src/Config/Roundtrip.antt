-- ===== src/Config/Roundtrip.antt =====
-- A configuration file in the format of picam/config.txt, read back by `parse_config` of
-- picam/src/config.cpp.
use mathlib.Core.List.{reverse-cons}
use hand_motion_capture.Prelude.{
  ℕ, ◌^◌, ◌≤◌, ◌<◌, ◌≡◌, ◌≢◌, refl, sym, ap, ◌∙◌, subst, false, List, [], ◌∷◌, reverse, arith, ◌==◌,
  All, codes, some, ℤ, pos_part, neg_part,
}
use hand_motion_capture.Stoi.{StoiResult, stoi}
use hand_motion_capture.Logging.{i_to_str}
use hand_motion_capture.Logging.Digits.{stoi-i_to_str, i_to_str-ge}
use hand_motion_capture.Config.{
  Config, ok, is_trimmed, lines, assign, parse_lines, parse_config, with_int,
}
use hand_motion_capture.Config.Trim.{Unspaced}
use hand_motion_capture.Config.Line.{IsValue, IsKey, line_then, All-append, parse_lines_step}

All-reverse : (P : ℕ → Type 0) (xs : List ℕ) → All P xs → All P (reverse xs)
All-reverse P [] h = tt
All-reverse P (x ∷ xs) h =
    rw (reverse-cons x xs) (All-append P (reverse xs) (x ∷ []) (All-reverse P xs h.1) (h.0, tt))

ge-Unspaced : (s : List ℕ) → All (λ c. b'-' ≤ c) s → Unspaced s
unfolding is_trimmed
ge-Unspaced [] h = tt
ge-Unspaced (c ∷ s) h = ground arith

ge-one_line : (s : List ℕ) → All (λ c. b'-' ≤ c) s → All (λ c. (c == b'\n') ≡ false) s
ge-one_line [] h = tt
ge-one_line (c ∷ s) h = (ground arith, ge-one_line s h.1)

-- An `int` that `i_to_str` prints and `std::stoi` reads.
abbrev pub IsInt : ℤ → Type 0
IsInt v = (pos_part v < 2 ^ 31) × (neg_part v < 2 ^ 31)

stoi_nil : stoi [] ≡ StoiResult.invalid_argument
unfolding stoi
stoi_nil = refl

-- A text of characters from the minus sign on, which has no white space.
pub graphic-IsValue : (v : List ℕ) → All (λ c. b'-' ≤ c) v → v ≢ [] → IsValue v
graphic-IsValue v h n = record {
  trimmed = record { front = ge-Unspaced v h; back = ge-Unspaced (reverse v) (All-reverse _ v h) };
  one_line = ge-one_line v h;
  not_empty = n;
}

i_to_str-IsValue : (v : ℤ) → IsInt v → IsValue (i_to_str v)
i_to_str-IsValue v h =
    graphic-IsValue (i_to_str v) (i_to_str-ge v)
      (λ e. cc (sym stoi_nil ∙ (ap stoi (sym e) ∙ stoi-i_to_str v h.0 h.1)))

-- What a configuration must meet to be written to a file of one setting a line.
pub record IsWritable (c : Config) : Type 0 where
  pub server_ip : IsValue c.server_ip
  pub tcp_port : IsValue c.tcp_port
  pub udp_port : IsValue c.udp_port
  pub enc_speed : IsValue c.enc_speed
  pub enc_quality : IsValue c.enc_quality
  pub recording_cpu : IsInt c.recording_cpu
  pub dma_buffers : IsInt c.dma_buffers
  pub frame_width : IsInt c.frame_width
  pub frame_height : IsInt c.frame_height
  pub frame_duration_min : IsInt c.frame_duration_min
  pub frame_duration_max : IsInt c.frame_duration_max
  pub fps : IsInt c.fps

-- The settings in the order of picam/config.txt.
unfoldable pub render : Config → List ℕ
render c = line_then (codes "FRAME_WIDTH") (i_to_str c.frame_width) (
    line_then (codes "FRAME_HEIGHT") (i_to_str c.frame_height) (
      line_then (codes "FPS") (i_to_str c.fps) (
        line_then (codes "RECORDING_CPU") (i_to_str c.recording_cpu) (
          line_then (codes "DMA_BUFFERS") (i_to_str c.dma_buffers) (
            line_then (codes "FRAME_DURATION_MIN") (i_to_str c.frame_duration_min) (
              line_then (codes "FRAME_DURATION_MAX") (i_to_str c.frame_duration_max) (
                line_then (codes "SERVER_IP") c.server_ip (
                  line_then (codes "TCP_PORT") c.tcp_port (
                    line_then (codes "UDP_PORT") c.udp_port (
                      line_then (codes "ENC_SPEED") c.enc_speed
                        (line_then (codes "ENC_QUALITY") c.enc_quality [])))))))))))

-- A key of upper-case letters and underscores.
abbrev IsUpper : List ℕ → Type 0
IsUpper [] = ⊥
IsUpper (c ∷ []) = b'A' ≤ c
IsUpper (c ∷ d ∷ cs) = (b'A' ≤ c) × IsUpper (d ∷ cs)

IsUpper-All : (P : ℕ → Type 0) (k : List ℕ) → ((c : ℕ) → b'A' ≤ c → P c) → IsUpper k → All P k
IsUpper-All P [] f h = absurd h
IsUpper-All P (c ∷ []) f h = (f c h, tt)
IsUpper-All P (c ∷ d ∷ cs) f h = (f c h.0, IsUpper-All P (d ∷ cs) f h.1)

IsUpper-IsKey : (k : List ℕ) → IsUpper k → IsKey k
IsUpper-IsKey k h =
    let ge : All (λ c. b'-' ≤ c) k = IsUpper-All _ k (λ c l. omega arith) h in
    record {
      trimmed = record {
        front = ge-Unspaced k ge;
        back = ge-Unspaced (reverse k) (All-reverse _ k ge);
      };
      one_line = ge-one_line k ge;
      plain = IsUpper-All _ k (λ c l. ground arith) h;
      no_comment = IsUpper-All _ k (λ c l. ground arith) h;
      not_empty = λ e. subst IsUpper e h;
    }

with_int-i_to_str : (v : ℤ) (set : ℤ → Config) → IsInt v → with_int (i_to_str v) set ≡ ok (set v)
with_int-i_to_str v set h = ground (arith, stoi-i_to_str v h.0 h.1)

-- A line for an integer, and one for a text.
module _ (key rest : List ℕ) (upper : IsUpper key) (c : Config) where
  int_line :
      (v : ℤ) (set : ℤ → Config)
      → IsInt v
      → assign key (i_to_str v) c ≡ with_int (i_to_str v) set
      → parse_lines (lines (line_then key (i_to_str v) rest)) c ≡ parse_lines (lines rest) (set v)
  int_line v set h e =
      parse_lines_step key (i_to_str v) rest c (set v) (IsUpper-IsKey key upper)
        (i_to_str-IsValue v h) (e ∙ with_int-i_to_str v set h)

  text_line :
      (v : List ℕ) (c' : Config)
      → IsValue v
      → assign key v c ≡ ok c'
      → parse_lines (lines (line_then key v rest)) c ≡ parse_lines (lines rest) c'
  text_line v c' h e = parse_lines_step key v rest c c' (IsUpper-IsKey key upper) h e

-- A configuration whose texts are not empty, lie on one line and have no white space at their ends,
-- and whose numbers are `int`s other than the least, is parsed back from a file of one `KEY=value`
-- line for each setting, whatever the fields held before.
pub parse_config-render :
    (c fresh : Config) → IsWritable c → parse_config (some (render c)) fresh ≡ ok c
unfolding parse_config render assign
parse_config-render c fresh w =
    let c0 : Config = record fresh { frame_width = c.frame_width } in
    let c1 : Config = record c0 { frame_height = c.frame_height } in
    let c2 : Config = record c1 { fps = c.fps } in
    let c3 : Config = record c2 { recording_cpu = c.recording_cpu } in
    let c4 : Config = record c3 { dma_buffers = c.dma_buffers } in
    let c5 : Config = record c4 { frame_duration_min = c.frame_duration_min } in
    let c6 : Config = record c5 { frame_duration_max = c.frame_duration_max } in
    let c7 : Config = record c6 { server_ip = c.server_ip } in
    let c8 : Config = record c7 { tcp_port = c.tcp_port } in
    let c9 : Config = record c8 { udp_port = c.udp_port } in
    let c10 : Config = record c9 { enc_speed = c.enc_speed } in
    let c11 : Config = record c10 { enc_quality = c.enc_quality } in
    int_line (codes "FRAME_WIDTH") _ (omega arith) fresh c.frame_width
      (λ n. record fresh { frame_width = n }) w.frame_width refl
    ∙ (int_line (codes "FRAME_HEIGHT") _ (omega arith) c0 c.frame_height
          (λ n. record c0 { frame_height = n }) w.frame_height refl
        ∙ (int_line (codes "FPS") _ (omega arith) c1 c.fps (λ n. record c1 { fps = n }) w.fps refl
            ∙ (int_line (codes "RECORDING_CPU") _ (omega arith) c2 c.recording_cpu
                  (λ n. record c2 { recording_cpu = n }) w.recording_cpu refl
                ∙ (int_line (codes "DMA_BUFFERS") _ (omega arith) c3 c.dma_buffers
                      (λ n. record c3 { dma_buffers = n }) w.dma_buffers refl
                    ∙ (int_line (codes "FRAME_DURATION_MIN") _ (omega arith) c4 c.frame_duration_min
                          (λ n. record c4 { frame_duration_min = n }) w.frame_duration_min refl
                        ∙ (int_line (codes "FRAME_DURATION_MAX") _ (omega arith) c5
                              c.frame_duration_max (λ n. record c5 { frame_duration_max = n })
                              w.frame_duration_max refl
                            ∙ (text_line (codes "SERVER_IP") _ (omega arith) c6 c.server_ip c7
                                  w.server_ip refl
                                ∙ (text_line (codes "TCP_PORT") _ (omega arith) c7 c.tcp_port c8
                                      w.tcp_port refl
                                    ∙ (text_line (codes "UDP_PORT") _ (omega arith) c8 c.udp_port c9
                                          w.udp_port refl
                                        ∙ (text_line (codes "ENC_SPEED") _ (omega arith) c9
                                              c.enc_speed c10 w.enc_speed refl
                                            ∙ (text_line (codes "ENC_QUALITY") _ (omega arith) c10
                                                  c.enc_quality c11 w.enc_quality refl
                                                ∙ (unfold lines parse_lines in refl))))))))))))
