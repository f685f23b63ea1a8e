-- ===== src/CamConf.antt =====
-- frameset_server/include/parse_conf.h and frameset_server/src/parse_conf.c: the cameras' configuration.
-- libyaml is a list of events, which ends where `yaml_parser_parse` fails.
pub mod Counting
pub mod Reading
mod Tests
use hand_motion_capture.Prelude.{
  ℕ, suc, ◌+◌, ◌-◌, ◌%◌, Bool, false, ◌&&◌, List, [], ◌∷◌, ◌++◌, Option, none, some, ℤ, pos, negsuc,
  ltb, ◌==◌, if◌then◌else◌, length, take, codes, same_bytes,
}
use hand_motion_capture.Sys.{einval}
use hand_motion_capture.Stoi
use hand_motion_capture.Stoi.{StoiResult, stoi}

-- Addresses and ports as numbers, the name as its characters up to the NUL.
pub record CamConf : Type 0 where
  pub eth_ip : ℕ
  pub wifi_ip : ℕ
  pub tcp_port : ℕ
  pub udp_port : ℕ
  pub id : ℕ
  pub name : List ℕ

abbrev pub cam_name_len : ℕ
cam_name_len = 9

pub data Event : Type 0 where
  stream_end other : Event
  scalar : List ℕ → Event

-- Of `strcmp` C says the sign only.
unfoldable pub strcmp : List ℕ → List ℕ → ℤ
strcmp [] [] = pos 0
strcmp [] (b ∷ t) = negsuc 0
strcmp (a ∷ s) [] = pos 1
strcmp (a ∷ s) (b ∷ t) =
    let rest = strcmp s t in if ltb a b then negsuc 0 else if ltb b a then pos 1 else rest

abbrev pub is_zero : ℤ → Bool
is_zero (pos n) = n == 0
is_zero (negsuc n) = false

abbrev pub is_rpicam : List ℕ → Bool
is_rpicam value = same_bytes (take 6 value) (codes "rpicam")

-- The loop of `count_cameras`.
unfoldable pub count_from : ℕ → List Event → ℤ
count_from count [] = negsuc (einval - 1)
count_from count (stream_end ∷ es) = if count == 0 then negsuc (einval - 1) else pos count
count_from count (other ∷ es) = count_from count es
count_from count (scalar value ∷ es) = count_from (if is_rpicam value then suc count else count) es

-- The file as `count_cameras` finds it.
pub data File : Type 0 where
  missing no_parser : File
  readable : List Event → File

pub data Counted : Type 0 where
  counted : ℕ → Counted
  undefined : Counted

-- `err_cleanup` closes the file and goes on to `rewind` it, and without a parser or an event deletes
-- what was not initialized.
unfoldable pub after_count : ℤ → Counted
after_count (pos n) = counted n
after_count (negsuc n) = undefined

unfoldable pub count_cameras : File → Counted
unfolding count_from after_count
count_cameras missing = undefined
count_cameras no_parser = undefined
count_cameras (readable es) = after_count (count_from 0 es)

pub data Field : Type 0 where
  name id eth_ip wifi_ip tcp_port udp_port : Field

abbrev pub field_name : Field → List ℕ
field_name name = codes "name"
field_name id = codes "id"
field_name eth_ip = codes "eth_ip"
field_name wifi_ip = codes "wifi_ip"
field_name tcp_port = codes "tcp_port"
field_name udp_port = codes "udp_port"

abbrev pub fields : List Field
fields = name ∷ id ∷ eth_ip ∷ wifi_ip ∷ tcp_port ∷ udp_port ∷ []

-- A number that no `int` holds is undefined for `atoi`, and text without one is 0.
abbrev pub atoi_of : StoiResult → Option ℤ
atoi_of (StoiResult.ok z) = some z
atoi_of StoiResult.invalid_argument = some (pos 0)
atoi_of StoiResult.out_of_range = none

unfoldable pub atoi : List ℕ → Option ℤ
atoi str = atoi_of (stoi str)

-- The cast to an unsigned type of that many values.
abbrev pub to_unsigned : ℕ → ℤ → ℕ
to_unsigned modulus (pos n) = n % modulus
to_unsigned modulus (negsuc n) = modulus - 1 - n % modulus

pub data Parsed : Type 0 where
  stored : CamConf → Parsed
  rejected undefined : Parsed

abbrev pub store_int : Option ℤ → (ℤ → CamConf) → Parsed
store_int (some z) f = stored (f z)
store_int none f = Parsed.undefined

abbrev pub store_ip : Option ℕ → (ℕ → CamConf) → Parsed
store_ip (some ip) f = stored (f ip)
store_ip none f = rejected

-- The test of the length is made if the field that is written already spells "name"; `strcpy` past the
-- array is undefined.
unfoldable pub parse_str : List ℕ → CamConf → Parsed
parse_str str c =
    if is_zero (strcmp c.name (codes "name")) && ltb cam_name_len (length str)
    then rejected
    else if ltb (length str) cam_name_len
    then stored (record c { name = str })
    else Parsed.undefined

module _ (inet_pton : List ℕ → Option ℕ) where
  -- The parser of the field.
  unfoldable pub parse_field : Field → List ℕ → CamConf → Parsed
  unfolding parse_str
  parse_field name str c = parse_str str c
  parse_field id str c = store_int (atoi str) (λ z. record c { id = to_unsigned 256 z })
  parse_field eth_ip str c = store_ip (inet_pton str) (λ ip. record c { eth_ip = ip })
  parse_field wifi_ip str c = store_ip (inet_pton str) (λ ip. record c { wifi_ip = ip })
  parse_field tcp_port str c =
      store_int (atoi str) (λ z. record c { tcp_port = to_unsigned 65536 z })
  parse_field udp_port str c =
      store_int (atoi str) (λ z. record c { udp_port = to_unsigned 65536 z })

  -- The structs before `confs_parsed`, and those from it on.
  pub record State : Type 0 where
    pub done : List CamConf
    pub rest : List CamConf
    pub fields_parsed : ℕ
    pub ret : ℤ

  pub data Outcome : Type 0 where
    returns : ℤ → List CamConf → Outcome
    undefined : Outcome

  -- Which call of `yaml_parser_parse` comes next: that at the head of the loop, or that for the value of
  -- a field, after which the fields behind it are still to compare.
  pub data Next : Type 0 where
    key : State → Next
    value : Field → List Field → State → Next
    stops : Outcome → Next

  -- `while (confs_parsed < count)`.
  unfoldable pub loop_head : State → Next
  loop_head s = elim s.rest [ [] ↦ stops (returns s.ret s.done) | c ∷ cs ↦ key s ]

  -- The loop over the fields.
  unfoldable pub scan : List Field → List ℕ → State → Next
  unfolding loop_head
  scan [] pstr s = loop_head s
  scan (f ∷ fs) pstr s =
      let ret = strcmp pstr (field_name f) in
      let others = scan fs pstr (record s { ret = ret }) in
      if is_zero ret then value f fs (record s { ret = ret }) else others

  unfoldable pub failure : State → Next
  failure s = stops (returns (negsuc (einval - 1)) (s.done ++ s.rest))

  -- `++fields_parsed == fields_total`.
  unfoldable pub count_field : CamConf → List CamConf → State → State
  count_field c cs s =
      if s.fields_parsed + 1 == length fields
      then record s { done = s.done ++ c ∷ []; rest = cs; fields_parsed = 0; ret = pos 0 }
      else record s { rest = c ∷ cs; fields_parsed = s.fields_parsed + 1; ret = pos 0 }

  unfoldable pub after_parse : List Field → List ℕ → Parsed → List CamConf → State → Next
  unfolding scan count_field failure
  after_parse fs pstr (stored c) cs s = scan fs pstr (count_field c cs s)
  after_parse fs pstr rejected cs s = failure s
  after_parse fs pstr Parsed.undefined cs s = stops undefined

  -- The struct that the value goes to, if the array has one.
  unfoldable pub on_value : Field → List Field → List ℕ → List CamConf → State → Next
  unfolding after_parse parse_field
  on_value f fs pstr [] s = stops undefined
  on_value f fs pstr (c ∷ cs) s = after_parse fs pstr (parse_field f pstr c) cs s

  -- An event at either call. What is no scalar has no text to read as a value.
  unfoldable pub on_event : Event → Next → Next
  unfolding on_value
  on_event stream_end (key s) = failure s
  on_event other (key s) = key s
  on_event (scalar pstr) (key s) = scan fields pstr s
  on_event (scalar pstr) (value f fs s) = on_value f fs pstr s.rest s
  on_event other (value f fs s) = stops undefined
  on_event stream_end (value f fs s) = stops undefined
  on_event e (stops o) = stops o

  unfoldable pub parse_failed : Next → Outcome
  unfolding failure
  parse_failed (key s) = returns (negsuc (einval - 1)) (s.done ++ s.rest)
  parse_failed (value f fs s) = returns (negsuc (einval - 1)) (s.done ++ s.rest)
  parse_failed (stops o) = o

  unfoldable pub parse_events : List Event → Next → Outcome
  unfolding on_event parse_failed
  parse_events [] n = parse_failed n
  parse_events (e ∷ es) n = parse_events es (on_event e n)

  -- `ret` is 1 from `yaml_parser_initialize`. Without a file or a parser, `cleanup` deletes what was not
  -- initialized.
  unfoldable pub parse_conf : File → List CamConf → Outcome
  unfolding parse_events loop_head
  parse_conf missing confs = undefined
  parse_conf no_parser confs = undefined
  parse_conf (readable es) confs =
      parse_events es
        (loop_head (record { done = []; rest = confs; fields_parsed = 0; ret = pos 1 }))
