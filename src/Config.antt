-- ===== src/Config.antt =====
-- picam/src/config.cpp: the recorder's configuration file, a list of `KEY=value` lines. Texts are
-- lists of character codes.
pub mod Line
pub mod Trim
pub mod Roundtrip
mod Tests
use hand_motion_capture.Prelude.{
  ℕ, ◌+◌, Bool, ◌&&◌, ◌||◌, List, [], ◌∷◌, ◌++◌, reverse, Option, none, some, ℤ, ◌==◌,
  if◌then◌else◌, same_bytes, codes,
}
use hand_motion_capture.Stoi.{StoiResult, stoi}

pub record Config : Type 0 where
  pub server_ip : List ℕ
  pub tcp_port : List ℕ
  pub udp_port : List ℕ
  pub enc_speed : List ℕ
  pub enc_quality : List ℕ
  pub recording_cpu : ℤ
  pub dma_buffers : ℤ
  pub frame_width : ℤ
  pub frame_height : ℤ
  pub frame_duration_min : ℤ
  pub frame_duration_max : ℤ
  pub fps : ℤ

pub data Error : Type 0 where
  invalid_argument out_of_range : Error
  unknown_key : List ℕ → Error

pub data Result {ℓ} (A : Type ℓ) : Type ℓ where
  ok : A → Result A
  threw : Error → Result A

-- What `trim` takes off at both ends.
unfoldable pub is_trimmed : ℕ → Bool
is_trimmed c = c == b' ' || (c == b'\n' || c == b'\r')

unfoldable pub trim_front : List ℕ → List ℕ
unfolding is_trimmed
trim_front [] = []
trim_front (c ∷ cs) = if is_trimmed c then trim_front cs else c ∷ cs

-- First from the back, then from the front.
unfoldable pub trim : List ℕ → List ℕ
unfolding trim_front
trim s = trim_front (reverse (trim_front (reverse s)))

abbrev prepend : ℕ → List (List ℕ) → List (List ℕ)
prepend c [] = (c ∷ []) ∷ []
prepend c (l ∷ ls) = (c ∷ l) ∷ ls

-- `std::getline` until it fails: no line after a final newline.
unfoldable pub lines : List ℕ → List (List ℕ)
lines [] = []
lines (c ∷ cs) = if c == b'\n' then [] ∷ lines cs else prepend c (lines cs)

-- `std::getline(iss, key, '=')`, and what is left in the stream for the next call.
unfoldable pub key_of : List ℕ → List ℕ
key_of [] = []
key_of (c ∷ cs) = if c == b'=' then [] else c ∷ key_of cs

unfoldable pub value_of : List ℕ → List ℕ
value_of [] = []
value_of (c ∷ cs) = if c == b'=' then cs else value_of cs

-- `std::stoi(value)` into a field.
abbrev with_int : List ℕ → (ℤ → Config) → Result Config
with_int value set = elim (stoi value) [
  | StoiResult.ok n ↦ ok (set n)
  | StoiResult.invalid_argument ↦ threw invalid_argument
  | StoiResult.out_of_range ↦ threw out_of_range
]

-- The chain of tests on a key.
unfoldable pub assign : List ℕ → List ℕ → Config → Result Config
assign key value c =
    if same_bytes key (codes "SERVER_IP")
    then ok (record c { server_ip = value })
    else if same_bytes key (codes "TCP_PORT")
    then ok (record c { tcp_port = value })
    else if same_bytes key (codes "UDP_PORT")
    then ok (record c { udp_port = value })
    else if same_bytes key (codes "ENC_SPEED")
    then ok (record c { enc_speed = value })
    else if same_bytes key (codes "ENC_QUALITY")
    then ok (record c { enc_quality = value })
    else if same_bytes key (codes "RECORDING_CPU")
    then with_int value (λ n. record c { recording_cpu = n })
    else if same_bytes key (codes "DMA_BUFFERS")
    then with_int value (λ n. record c { dma_buffers = n })
    else if same_bytes key (codes "FRAME_WIDTH")
    then with_int value (λ n. record c { frame_width = n })
    else if same_bytes key (codes "FRAME_HEIGHT")
    then with_int value (λ n. record c { frame_height = n })
    else if same_bytes key (codes "FRAME_DURATION_MIN")
    then with_int value (λ n. record c { frame_duration_min = n })
    else if same_bytes key (codes "FRAME_DURATION_MAX")
    then with_int value (λ n. record c { frame_duration_max = n })
    else if same_bytes key (codes "FPS")
    then with_int value (λ n. record c { fps = n })
    else threw (unknown_key key)

-- With nothing left after the key the second `getline` fails, and the line is passed over.
assign_if : List ℕ → List ℕ → Config → Result Config
assign_if key [] c = ok c
assign_if key (v ∷ vs) c = assign (trim key) (trim (v ∷ vs)) c

unfoldable pub parse_line : List ℕ → Config → Result Config
unfolding assign_if
parse_line [] c = ok c
parse_line (h ∷ t) c = if h == b'#' then ok c else assign_if (key_of (h ∷ t)) (value_of (h ∷ t)) c

unfoldable pub parse_lines : List (List ℕ) → Config → Result Config
parse_lines [] c = ok c
parse_lines (l ∷ ls) c = elim (parse_line l c) [ ok c' ↦ parse_lines ls c' | threw e ↦ threw e ]

-- The content of the file, or `none` if it cannot be opened, which is logged only. The fields that
-- no line sets keep what the fresh object holds.
unfoldable pub parse_config : Option (List ℕ) → Config → Result Config
parse_config none c = ok c
parse_config (some content) c = parse_lines (lines content) c
