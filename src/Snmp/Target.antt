-- ===== src/Snmp/Target.antt =====
-- core/core/net/snmp/SnmpTarget.h: where requests are sent, and the library's target that is made of it.
use cpp_grcp_testground.Prelude.{ℕ, suc, ◌/◌, Option, none, some, Str}
use cpp_grcp_testground.Models.Time.{ℤ, pos, negsuc, neg_of_ℕ, Milliseconds}
use cpp_grcp_testground.Models.Device.{SnmpVersion, v1, v2, v3}
use cpp_grcp_testground.Net.IPv4Address.{IPv4Address, to_string}

pub record SnmpTarget : Type 0 where
  pub ip_address : IPv4Address
  pub version : SnmpVersion
  pub timeout : Milliseconds
  pub retries : ℕ
  pub port : Option ℕ

unfoldable pub new_target : SnmpVersion → IPv4Address → SnmpTarget
new_target version target = record {
  ip_address = target;
  version = version;
  timeout = pos 5000;
  retries = 0;
  port = none;
}

-- The two classes that derive from it.
pub data Target : Type 0 where
  community_target : SnmpTarget → (read_community write_community : Str) → Target
  user_target : SnmpTarget → (security_name : Str) → Target

abbrev pub base : Target → SnmpTarget
base (community_target target read write) = target
base (user_target target name) = target

abbrev pub with_base : SnmpTarget → Target → Target
with_base target (community_target _ read write) = community_target target read write
with_base target (user_target _ name) = user_target target name

unfoldable pub set_port : ℕ → Target → Target
set_port port t = with_base (record (base t) { port = some port }) t

unfoldable pub set_ip_address : IPv4Address → Target → Target
set_ip_address address t = with_base (record (base t) { ip_address = address }) t

unfoldable pub set_version : SnmpVersion → Target → Target
set_version version t = with_base (record (base t) { version = version }) t

unfoldable pub set_timeout : Milliseconds → Target → Target
set_timeout ms t = with_base (record (base t) { timeout = ms }) t

unfoldable pub set_retries : ℕ → Target → Target
set_retries retries t = with_base (record (base t) { retries = retries }) t

-- The setters of one of the two classes; a target of the other one has no such member.
unfoldable pub set_read_community : Str → Target → Target
set_read_community community (community_target target read write) =
    community_target target community write
set_read_community community (user_target target name) = user_target target name

unfoldable pub set_write_community : Str → Target → Target
set_write_community community (community_target target read write) =
    community_target target read community
set_write_community community (user_target target name) = user_target target name

unfoldable pub set_security_name : Str → Target → Target
set_security_name name (community_target target read write) = community_target target read write
set_security_name name (user_target target old) = user_target target name

unfoldable pub create_v1 : IPv4Address → Str → Str → Target
unfolding new_target
create_v1 target read write = community_target (new_target v1 target) read write

unfoldable pub create_v2 : IPv4Address → Str → Str → Target
unfolding new_target
create_v2 target read write = community_target (new_target v2 target) read write

-- The constructor of `UserTarget`.
unfoldable pub create_user : IPv4Address → Str → Target
unfolding new_target
create_user target name = user_target (new_target v3 target) name

-- The library's targets: `CTarget` and `UTarget`. A port or a version that is not set is `none`.
pub data Security : Type 0 where
  communities : (read write : Str) → Security
  user_security_model : Str → Security

pub record PeerTarget : Type 0 where
  pub address : Str
  pub port : Option ℕ
  pub security : Security
  pub retry : ℕ
  pub timeout : ℤ
  pub version : Option SnmpVersion

-- The division of a signed integer by ten, towards zero.
abbrev pub tenth : ℤ → ℤ
tenth (pos n) = pos (n / 10)
tenth (negsuc n) = neg_of_ℕ (suc n / 10)

unfoldable pub to_target : (ℕ → Str) → Target → PeerTarget
to_target decimal (community_target target read write) = record {
  address = to_string decimal target.ip_address;
  port = target.port;
  security = communities read write;
  retry = target.retries;
  timeout = tenth target.timeout;
  version = some target.version;
}
to_target decimal (user_target target name) = record {
  address = to_string decimal target.ip_address;
  port = target.port;
  security = user_security_model name;
  retry = target.retries;
  timeout = tenth target.timeout;
  version = none;
}
