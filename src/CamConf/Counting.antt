-- ===== src/CamConf/Counting.antt =====
-- What `count_cameras` of frameset_server/src/parse_conf.c counts in a file of cameras.
use hand_motion_capture.Prelude.{ℕ, zero, suc, ◌≡◌, true, false, List, ◌∷◌}
use hand_motion_capture.CamConf.{CamConf, Event, other, is_rpicam}
use hand_motion_capture.CamConf.Reading.{Spelled}

-- The name starts with "rpicam", and no other value does.
pub record OneName (t : Spelled) : Type 0 where
  pub name_rpicam : is_rpicam t.name ≡ true
  pub id_not : is_rpicam t.id ≡ false
  pub eth_not : is_rpicam t.eth_ip ≡ false
  pub wifi_not : is_rpicam t.wifi_ip ≡ false
  pub tcp_not : is_rpicam t.tcp_port ≡ false
  pub udp_not : is_rpicam t.udp_port ≡ false

-- Events that are no scalars, such as the ends of sequences and mappings.
abbrev pub others : ℕ → List Event → List Event
others zero es = es
others (suc n) es = other ∷ others n es
