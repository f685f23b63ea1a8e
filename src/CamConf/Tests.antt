-- ===== src/CamConf/Tests.antt =====
-- frameset_server/src/parse_conf.c at a file with two cameras.
use hand_motion_capture.Prelude.{
  ℕ, ◌≡◌, refl, List, [], ◌∷◌, ◌++◌, Option, none, some, pos, negsuc, arith, codes, same_bytes,
  if◌then◌else◌,
}
use hand_motion_capture.Stoi.{stoi}
use hand_motion_capture.CamConf.{
  CamConf, Counted, Event, other, stream_end, scalar, readable, missing, count_cameras, parse_conf,
  returns, strcmp, atoi,
}
use hand_motion_capture.CamConf.Reading.{
  Spelled, Means, preamble, spelled_events, parse_conf-spelled,
}

-- Knows two addresses.
abbrev two_addresses : List ℕ → Option ℕ
two_addresses text =
    if same_bytes text (codes "10.0.0.1")
    then some 16777226
    else if same_bytes text (codes "10.1.0.1")
    then some 16777482
    else none

abbrev spelled : Spelled
spelled = record {
  name = codes "rpicam01";
  id = codes "1";
  eth_ip = codes "10.0.0.1";
  wifi_ip = codes "10.1.0.1";
  tcp_port = codes "12345";
  udp_port = codes "22345";
}

abbrev conf : CamConf
conf = record {
  eth_ip = 16777226;
  wifi_ip = 16777482;
  tcp_port = 12345;
  udp_port = 22345;
  id = 1;
  name = codes "rpicam01";
}

abbrev blank : CamConf
blank = record { eth_ip = 0; wifi_ip = 0; tcp_port = 0; udp_port = 0; id = 0; name = [] }

spelled-Means : Means two_addresses spelled conf
unfolding atoi stoi strcmp
spelled-Means = record {
  id_int = pos 1;
  tcp_int = pos 12345;
  udp_int = pos 22345;
  name_same = refl;
  name_fits = omega arith;
  id_read = refl;
  id_same = refl;
  eth_read = refl;
  wifi_read = refl;
  tcp_read = refl;
  tcp_same = refl;
  udp_read = refl;
  udp_same = refl;
  name_distinct = (refl, (refl, (refl, (refl, (refl, (refl, tt))))));
  id_distinct = (refl, (refl, (refl, (refl, (refl, (refl, tt))))));
  eth_distinct = (refl, (refl, (refl, (refl, (refl, (refl, tt))))));
  wifi_distinct = (refl, (refl, (refl, (refl, (refl, (refl, tt))))));
  tcp_distinct = (refl, (refl, (refl, (refl, (refl, (refl, tt))))));
}

cameras_label : List ℕ
cameras_label = codes "cameras"

-- Two cameras, and the ends of the sequence, of the mapping and of the document.
abbrev two_cameras : List (Spelled × CamConf)
two_cameras = (spelled, conf) ∷ (record spelled { id = codes "2" }, record conf { id = 2 }) ∷ []

abbrev closing : List Event
closing = other ∷ other ∷ other ∷ stream_end ∷ []

other-Means : Means two_addresses (record spelled { id = codes "2" }) (record conf { id = 2 })
unfolding atoi stoi strcmp
other-Means = record {
  id_int = pos 2;
  tcp_int = pos 12345;
  udp_int = pos 22345;
  name_same = refl;
  name_fits = omega arith;
  id_read = refl;
  id_same = refl;
  eth_read = refl;
  wifi_read = refl;
  tcp_read = refl;
  tcp_same = refl;
  udp_read = refl;
  udp_same = refl;
  name_distinct = spelled-Means.name_distinct;
  id_distinct = (refl, (refl, (refl, (refl, (refl, (refl, tt))))));
  eth_distinct = spelled-Means.eth_distinct;
  wifi_distinct = spelled-Means.wifi_distinct;
  tcp_distinct = spelled-Means.tcp_distinct;
}

parse_conf-spelled_example :
    parse_conf two_addresses
      (readable (preamble (codes "cameras") ++ spelled_events two_cameras closing))
      (blank ∷ blank ∷ [])
    ≡ returns (pos 0) (conf ∷ record conf { id = 2 } ∷ [])
unfolding strcmp
parse_conf-spelled_example =
    parse_conf-spelled two_addresses (codes "cameras") (spelled, conf)
      ((record spelled { id = codes "2" }, record conf { id = 2 }) ∷ []) (blank ∷ blank ∷ [])
      closing (refl, (refl, (refl, (refl, (refl, (refl, tt)))))) (spelled-Means, (other-Means, tt))
      refl

-- With the two ports in the other order, all fields are stored, but the code is not 0.
swapped :
    parse_conf two_addresses
      (readable (
        scalar (codes "name")
        ∷ scalar (codes "rpicam01")
        ∷ scalar (codes "id")
        ∷ scalar (codes "1")
        ∷ scalar (codes "eth_ip")
        ∷ scalar (codes "10.0.0.1")
        ∷ scalar (codes "wifi_ip")
        ∷ scalar (codes "10.1.0.1")
        ∷ scalar (codes "udp_port")
        ∷ scalar (codes "22345")
        ∷ scalar (codes "tcp_port")
        ∷ scalar (codes "12345")
        ∷ []))
      (blank ∷ [])
    ≡ returns (negsuc 0) (conf ∷ [])
unfolding parse_conf strcmp atoi stoi
swapped = refl

-- A missing file.
no_file : count_cameras missing ≡ Counted.undefined
unfolding count_cameras
no_file = refl
