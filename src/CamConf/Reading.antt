-- ===== src/CamConf/Reading.antt =====
-- Files that frameset_server/src/parse_conf.c reads.
use hand_motion_capture.Prelude.{
  ℕ, suc, ◌+◌, ◌<◌, ◌≡◌, refl, sym, ap, ◌∙◌, false, List, [], ◌∷◌, ◌++◌, Option, some, ℤ, pos,
  arith, ◌==◌, length, codes, All, map, append_assoc, append-nil,
}
use hand_motion_capture.CamConf.{
  CamConf, cam_name_len, Event, other, scalar, strcmp, is_zero, readable, Field, field_name, fields,
  atoi, to_unsigned, stored, parse_str, parse_field, State, Outcome, returns, key, value, stops,
  loop_head, scan, count_field, after_parse, on_value, on_event, parse_failed, parse_events,
  parse_conf,
}

-- The values of a camera as they are spelled in the file.
pub record Spelled : Type 0 where
  pub name : List ℕ
  pub id : List ℕ
  pub eth_ip : List ℕ
  pub wifi_ip : List ℕ
  pub tcp_port : List ℕ
  pub udp_port : List ℕ

-- A camera of the file: a mapping with its fields in the order of the struct `fields`, between the events of
-- its start and its end.
abbrev pub camera_events : Spelled → List Event
camera_events t =
    other
    ∷ scalar (codes "name")
    ∷ scalar t.name
    ∷ scalar (codes "id")
    ∷ scalar t.id
    ∷ scalar (codes "eth_ip")
    ∷ scalar t.eth_ip
    ∷ scalar (codes "wifi_ip")
    ∷ scalar t.wifi_ip
    ∷ scalar (codes "tcp_port")
    ∷ scalar t.tcp_port
    ∷ scalar (codes "udp_port")
    ∷ scalar t.udp_port
    ∷ other
    ∷ []

-- A mapping with one key, whose value is the sequence of the cameras.
abbrev pub preamble : List ℕ → List Event
preamble label = other ∷ other ∷ other ∷ scalar label ∷ other ∷ []

-- A text that does not spell one of these fields.
abbrev pub Distinct : List Field → List ℕ → Type 0
Distinct fs text = All (λ f. is_zero (strcmp text (field_name f)) ≡ false) fs

-- The values of a camera mean this struct.
pub record Means (inet_pton : List ℕ → Option ℕ) (t : Spelled) (c : CamConf) : Type 0 where
  pub id_int : ℤ
  pub tcp_int : ℤ
  pub udp_int : ℤ
  pub name_same : c.name ≡ t.name
  pub name_fits : length t.name < cam_name_len
  pub id_read : atoi t.id ≡ some id_int
  pub id_same : c.id ≡ to_unsigned 256 id_int
  pub eth_read : inet_pton t.eth_ip ≡ some c.eth_ip
  pub wifi_read : inet_pton t.wifi_ip ≡ some c.wifi_ip
  pub tcp_read : atoi t.tcp_port ≡ some tcp_int
  pub tcp_same : c.tcp_port ≡ to_unsigned 65536 tcp_int
  pub udp_read : atoi t.udp_port ≡ some udp_int
  pub udp_same : c.udp_port ≡ to_unsigned 65536 udp_int
  pub name_distinct : Distinct fields t.name
  pub id_distinct : Distinct fields t.id
  pub eth_distinct : Distinct fields t.eth_ip
  pub wifi_distinct : Distinct fields t.wifi_ip
  pub tcp_distinct : Distinct fields t.tcp_port

parse_str-fits :
    (str : List ℕ) (c : CamConf)
    → length str < cam_name_len
    → parse_str str c ≡ stored (record c { name = str })
unfolding parse_str
parse_str-fits str c h = ground arith

-- Cameras, each as the file spells it and as the struct has it.
abbrev pub spelled_events : List (Spelled × CamConf) → List Event → List Event
spelled_events [] after = after
spelled_events (cam ∷ cams) after = camera_events cam.0 ++ spelled_events cams after

module _ (inet_pton : List ℕ → Option ℕ) where
  -- The text is compared with all fields in vain, and the loop goes on.
  scan-Distinct :
      (fs : List Field) (text : List ℕ) (s : State inet_pton)
      → Distinct fs text
      → (r : ℤ) × (scan inet_pton fs text s ≡ loop_head inet_pton (record s { ret = r }))
  unfolding scan
  scan-Distinct [] text s h = (s.ret, refl)
  scan-Distinct (f ∷ fs) text s (h, hs) =
      let (r, e) = scan-Distinct fs text (record s { ret = strcmp text (field_name f) }) hs in
      (r, rw (h, e) refl)

  abbrev state : List CamConf → List CamConf → ℕ → ℤ → State inet_pton
  state done rest fields_parsed ret = record {
    done = done;
    rest = rest;
    fields_parsed = fields_parsed;
    ret = ret;
  }

  -- A field that is not the last of its struct, with its value.
  field_read :
      (f : Field) (fs : List Field) (text : List ℕ) (c c' : CamConf) (done cs : List CamConf)
      (n : ℕ) (r : ℤ) (es : List Event)
      → scan inet_pton fields (field_name f) (state done (c ∷ cs) n r)
        ≡ value f fs (state done (c ∷ cs) n (pos 0))
      → parse_field inet_pton f text c ≡ stored c'
      → n < 5
      → Distinct fs text
      → (r' : ℤ) × (parse_events inet_pton
            (scalar (field_name f) ∷ scalar text ∷ es)
            (key (state done (c ∷ cs) n r))
          ≡ parse_events inet_pton es (key (state done (c' ∷ cs) (suc n) r')))
  unfolding parse_events on_event on_value after_parse count_field loop_head
  field_read f fs text c c' done cs n r es k p l d =
      let more : (n + 1 == length fields) ≡ false = ground arith in
      let next : n + 1 ≡ suc n = omega arith in
      let (r', e) = scan-Distinct fs text (state done (c' ∷ cs) (suc n) (pos 0)) d in
      (r', rw (k, p, more, next, e) refl)

  -- The last field of a struct, which is compared with no other field.
  last_read :
      (text : List ℕ) (c c' : CamConf) (done cs : List CamConf) (r : ℤ) (es : List Event)
      → parse_field inet_pton Field.udp_port text c ≡ stored c'
      → parse_events inet_pton
          (scalar (codes "udp_port") ∷ scalar text ∷ es)
          (key (state done (c ∷ cs) 5 r))
        ≡ parse_events inet_pton es (loop_head inet_pton (state (done ++ c' ∷ []) cs 0 (pos 0)))
  unfolding parse_events on_event on_value after_parse count_field scan strcmp
  last_read text c c' done cs r es p = rw p refl

  -- What is no scalar, after a field.
  other_read :
      (done cs : List CamConf) (n : ℕ) (r : ℤ) (es : List Event)
      → parse_events inet_pton (other ∷ es) (loop_head inet_pton (state done cs n r))
        ≡ parse_events inet_pton es (loop_head inet_pton (state done cs n r))
  unfolding parse_events on_event loop_head
  other_read done [] n r es = refl
  other_read done (c ∷ cs) n r es = refl

  camera_read :
      (t : Spelled) (c c' : CamConf) (done cs : List CamConf) (r : ℤ) (es : List Event)
      → Means inet_pton t c'
      → parse_events inet_pton (camera_events t ++ es) (key (state done (c ∷ cs) 0 r))
        ≡ parse_events inet_pton es (loop_head inet_pton (state (done ++ c' ∷ []) cs 0 (pos 0)))
  unfolding parse_events on_event scan strcmp parse_field
  camera_read t c c' done cs r es m =
      let c1 : CamConf = record c { name = c'.name } in
      let c2 : CamConf = record c1 { id = c'.id } in
      let c3 : CamConf = record c2 { eth_ip = c'.eth_ip } in
      let c4 : CamConf = record c3 { wifi_ip = c'.wifi_ip } in
      let c5 : CamConf = record c4 { tcp_port = c'.tcp_port } in
      let es5 = scalar (codes "udp_port") ∷ scalar t.udp_port ∷ other ∷ es in
      let es4 = scalar (codes "tcp_port") ∷ scalar t.tcp_port ∷ es5 in
      let es3 = scalar (codes "wifi_ip") ∷ scalar t.wifi_ip ∷ es4 in
      let es2 = scalar (codes "eth_ip") ∷ scalar t.eth_ip ∷ es3 in
      let es1 = scalar (codes "id") ∷ scalar t.id ∷ es2 in
      let p1 : parse_str t.name c ≡ stored c1 =
        rw (sym m.name_same) (parse_str-fits c'.name c (rw m.name_same m.name_fits)) in
      let p6 : parse_field inet_pton Field.udp_port t.udp_port c5 ≡ stored c' =
        rw m.udp_read (ap (λ (n : ℕ). stored (record c' { udp_port = n })) (sym m.udp_same)) in
      let (r1, e1) =
        field_read Field.name _ t.name c c1 done cs 0 r es1 refl p1 (omega arith)
          m.name_distinct.1 in
      let (r2, e2) =
        field_read Field.id _ t.id c1 c2 done cs 1 r1 es2 refl (rw (m.id_read, m.id_same) refl)
          (omega arith) m.id_distinct.1.1 in
      let (r3, e3) =
        field_read Field.eth_ip _ t.eth_ip c2 c3 done cs 2 r2 es3 refl (rw m.eth_read refl)
          (omega arith) m.eth_distinct.1.1.1 in
      let (r4, e4) =
        field_read Field.wifi_ip _ t.wifi_ip c3 c4 done cs 3 r3 es4 refl (rw m.wifi_read refl)
          (omega arith) m.wifi_distinct.1.1.1.1 in
      let (r5, e5) =
        field_read Field.tcp_port _ t.tcp_port c4 c5 done cs 4 r4 es5 refl
          (rw (m.tcp_read, m.tcp_same) refl) (omega arith) m.tcp_distinct.1.1.1.1.1 in
      e1
      ∙ (e2
          ∙ (e3
              ∙ (e4
                  ∙ (e5
                      ∙ (last_read t.udp_port c5 c' done cs r5 (other ∷ es) p6
                          ∙ other_read (done ++ c' ∷ []) cs 0 (pos 0) es)))))

  stopped : (es : List Event) (o : Outcome inet_pton) → parse_events inet_pton es (stops o) ≡ o
  unfolding parse_events on_event parse_failed
  stopped [] o = refl
  stopped (e ∷ es) o = stopped es o

  cameras_read :
      (cams : List (Spelled × CamConf)) (old done : List CamConf) (after : List Event)
      → length old ≡ length cams
      → All (λ cam. Means inet_pton cam.0 cam.1) cams
      → parse_events inet_pton
          (spelled_events cams after)
          (loop_head inet_pton (state done old 0 (pos 0)))
        ≡ returns (pos 0) (done ++ map (λ cam. cam.1) cams)
  unfolding loop_head
  cameras_read [] [] done after l h =
      stopped after (returns (pos 0) done) ∙ ap (returns (pos 0)) (sym (append-nil done))
  cameras_read [] (c ∷ old) done after l h = absurd (omega (arith, l))
  cameras_read (cam ∷ cams) [] done after l h = absurd (omega (arith, l))
  cameras_read (cam ∷ cams) (c ∷ old) done after l (m, h) =
      camera_read cam.0 c cam.1 done old (pos 0) (spelled_events cams after) m
      ∙ (cameras_read cams old (done ++ cam.1 ∷ []) after (omega (arith, l)) h
          ∙ ap (returns (pos 0)) (append_assoc done (cam.1 ∷ []) (map (λ cam. cam.1) cams)))

  -- A file with a label that is not a field's name and then cameras, each with its fields in the order
  -- name, id, eth_ip, wifi_ip, tcp_port, udp_port: if the names have at most 8 characters, `inet_pton` takes
  -- the addresses, `int` holds the numbers, no value but the last of a camera spells a field's name, and the
  -- array has a struct for each camera, of which there is one at least, then `parse_conf` returns 0 with
  -- the structs that the values mean, the numbers wrapped to 8 and 16 bits.
  pub parse_conf-spelled :
      (label : List ℕ) (cam : Spelled × CamConf) (cams : List (Spelled × CamConf))
      (old : List CamConf) (after : List Event)
      → Distinct fields label
      → All (λ cam. Means inet_pton cam.0 cam.1) (cam ∷ cams)
      → length old ≡ length (cam ∷ cams)
      → parse_conf inet_pton (readable (preamble label ++ spelled_events (cam ∷ cams) after)) old
        ≡ returns (pos 0) (map (λ cam. cam.1) (cam ∷ cams))
  unfolding parse_conf parse_events on_event loop_head
  parse_conf-spelled label cam cams [] after d m l = absurd (omega (arith, l))
  parse_conf-spelled label cam cams (c ∷ old) after d (m, ms) l =
      let (r, e) = scan-Distinct fields label (state [] (c ∷ old) 0 (pos 1)) d in
      rw e (
        camera_read cam.0 c cam.1 [] old r (spelled_events cams after) m
        ∙ cameras_read cams old (cam.1 ∷ []) after (omega (arith, l)) ms)
