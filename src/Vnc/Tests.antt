-- ===== src/Vnc/Tests.antt =====
-- A handshake without authentication.
use seclab_suite_protocol_si.Base.{[], false, is_empty, none, ok, refl, some, ◌++◌, ◌∷◌, ◌≡◌}
use seclab_suite_protocol_si.Base.Bits.{Bytes}
use seclab_suite_protocol_si.Base.Text.{Text, codes}
use seclab_suite_protocol_si.Report.{Peer, Site}
use seclab_suite_protocol_si.Session.{Trace}
use seclab_suite_protocol_si.Vnc.{SimVncConfig, VncError, normalize_config, serve_vnc}
use seclab_suite_protocol_si.Vnc.Safe.{IsSafe, IsTypes, serve_vnc-IsSafe}

abbrev config : SimVncConfig
config = record {
  protocol_version = none;
  security_types = some (codes "VNC-auth" ∷ codes "none" ∷ []);
}

abbrev site : Site
site = record { rule_id = codes "r"; node_id = codes "n"; port = 5900 }

abbrev peer : Peer
peer = record { ip = codes "10.0.0.1"; port = 40000 }

abbrev input : Bytes
input = codes "RFB 003.008\n" ++ (1 ∷ [])

served : (trace : Trace VncError) × (serve_vnc config site peer input ≡ ok trace)
unfolding serve_vnc
served = (_, refl)

serve_vnc-IsSafe_example :
    (version : Text) × (types : Bytes) × (normalize_config config ≡ ok (version, types))
    × IsTypes types
    × (is_empty types ≡ false)
    × IsSafe served.0
serve_vnc-IsSafe_example = serve_vnc-IsSafe config site peer input served.1
