-- ===== src/Catalog/Names.antt =====
-- The names of the protocols: `as_str` and `from_str`.
use seclab_suite_protocol_si.Base.{ap, context-ok, find, find-IsIn, ok, refl, sym, ◌↔◌, ◌∙◌, ◌≡◌}
use seclab_suite_protocol_si.Base.Text.{Text, text_eq, text_eq_sound}
use seclab_suite_protocol_si.Catalog.{
  ProtocolId, all_protocols, as_str, dns, from_str, ftp, http, imap, ldap, memcached, mongodb, mqtt,
  mysql, pop3, postgresql, rdp, redis, smb, smtp, snmp, ssh, telnet, vnc,
}

pub from_str-as_str : (protocol : ProtocolId) → from_str (as_str protocol) ≡ ok protocol
unfolding from_str
from_str-as_str http = refl
from_str-as_str redis = refl
from_str-as_str smtp = refl
from_str-as_str pop3 = refl
from_str-as_str imap = refl
from_str-as_str ssh = refl
from_str-as_str ftp = refl
from_str-as_str rdp = refl
from_str-as_str telnet = refl
from_str-as_str mysql = refl
from_str-as_str postgresql = refl
from_str-as_str smb = refl
from_str-as_str ldap = refl
from_str-as_str dns = refl
from_str-as_str mongodb = refl
from_str-as_str memcached = refl
from_str-as_str snmp = refl
from_str-as_str mqtt = refl
from_str-as_str vnc = refl

pub from_str_sound :
    (value : Text) (protocol : ProtocolId) → from_str value ≡ ok protocol → value ≡ as_str protocol
unfolding from_str
from_str_sound value protocol h =
    let test = λ (p : ProtocolId). text_eq (as_str p) value in
    let found = context-ok (find test all_protocols) value h in
    sym (text_eq_sound (as_str protocol) value (find-IsIn test all_protocols found).0)

-- A value is read as a protocol if and only if it is the name of that protocol.
pub from_str_iff :
    (value : Text) (protocol : ProtocolId)
    → (from_str value ≡ ok protocol) ↔ (value ≡ as_str protocol)
from_str_iff value protocol =
    (from_str_sound value protocol, λ same. ap from_str same ∙ from_str-as_str protocol)
