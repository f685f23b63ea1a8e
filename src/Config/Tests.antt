-- ===== src/Config/Tests.antt =====
-- The file picam/config.txt, and the theorems on picam/src/config.cpp at it.
use hand_motion_capture.Prelude.{◌≡◌, refl, some, [], ◌∷◌, ◌++◌, arith, codes, pos}
use hand_motion_capture.Stoi.{stoi}
use hand_motion_capture.Config.{
  Config, ok, threw, unknown_key, trim, lines, key_of, value_of, parse_line, parse_lines,
  parse_config, assign,
}
use hand_motion_capture.Config.Roundtrip.{IsWritable, graphic-IsValue, render, parse_config-render}

abbrev shipped : Config
shipped = record {
  server_ip = codes "192.168.86.100";
  tcp_port = codes "12345";
  udp_port = codes "22345";
  enc_speed = codes "medium";
  enc_quality = codes "23";
  recording_cpu = pos 3;
  dma_buffers = pos 32;
  frame_width = pos 1280;
  frame_height = pos 720;
  frame_duration_min = pos 16667;
  frame_duration_max = pos 16667;
  fps = pos 30;
}

abbrev blank : Config
blank = record {
  server_ip = [];
  tcp_port = [];
  udp_port = [];
  enc_speed = [];
  enc_quality = [];
  recording_cpu = pos 0;
  dma_buffers = pos 0;
  frame_width = pos 0;
  frame_height = pos 0;
  frame_duration_min = pos 0;
  frame_duration_max = pos 0;
  fps = pos 0;
}

shipped-IsWritable : IsWritable shipped
shipped-IsWritable = record {
  server_ip = graphic-IsValue (codes "192.168.86.100") (omega arith) (λ e. cc);
  tcp_port = graphic-IsValue (codes "12345") (omega arith) (λ e. cc);
  udp_port = graphic-IsValue (codes "22345") (omega arith) (λ e. cc);
  enc_speed = graphic-IsValue (codes "medium") (omega arith) (λ e. cc);
  enc_quality = graphic-IsValue (codes "23") (omega arith) (λ e. cc);
  recording_cpu = omega arith;
  dma_buffers = omega arith;
  frame_width = omega arith;
  frame_height = omega arith;
  frame_duration_min = omega arith;
  frame_duration_max = omega arith;
  fps = omega arith;
}

parse_config-render_example : parse_config (some (render shipped)) blank ≡ ok shipped
parse_config-render_example = parse_config-render shipped blank shipped-IsWritable

-- A comment, white space, a line with no value, and a key that is not known.
parses :
    (parse_config
        (some (codes "# x" ++ (b'\n' ∷ codes " FPS = 60 " ++ (b'\n' ∷ codes "DMA_BUFFERS="))))
        blank
      ≡ ok (record blank { fps = pos 60 }))
    × (parse_config (some (codes "FPPS=60")) blank ≡ threw (unknown_key (codes "FPPS")))
unfolding parse_config parse_lines parse_line lines key_of value_of trim assign stoi
parses = (refl, refl)
