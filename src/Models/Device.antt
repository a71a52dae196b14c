-- ===== src/Models/Device.antt =====
-- core/core/models/net/Device.h and Device.cpp, and the enum of core/core/net/snmp/SnmpDefs.h.
pub mod Versions
pub mod Serializing
use cpp_grcp_testground.Prelude.{
  ℕ, Bool, Option, none, some, List, [], ◌∷◌, ltb, ◌==◌, if◌then◌else◌,
}
use cpp_grcp_testground.Models.Time.{Milliseconds}
use cpp_grcp_testground.Net.IPv4Address.{IPv4Address}
use cpp_grcp_testground.Net.MacAddress.{MacAddress}

pub data SnmpVersion : Type 0 where
  v1 v2 unused_v2 v3 : SnmpVersion

-- The enum's number, by which a set orders the versions.
abbrev pub version_number : SnmpVersion → ℕ
version_number v1 = 0
version_number v2 = 1
version_number unused_v2 = 2
version_number v3 = 3

pub record Device : Type 0 where
  pub ip_address : IPv4Address
  pub mac_address : MacAddress
  pub response_time : Milliseconds
  pub last_used_snmp_version : Option SnmpVersion
  pub known_snmp_versions : List SnmpVersion

-- The constructor; it leaves the response time as the memory was.
unfoldable pub new_device : Milliseconds → IPv4Address → MacAddress → Device
new_device memory ip mac = record {
  ip_address = ip;
  mac_address = mac;
  response_time = memory;
  last_used_snmp_version = none;
  known_snmp_versions = [];
}

unfoldable pub set_response_time : Device → Milliseconds → Device
set_response_time device ms = record device { response_time = ms }

unfoldable pub set_last_used_snmp_version : Device → SnmpVersion → Device
set_last_used_snmp_version device version = record device { last_used_snmp_version = some version }

-- `std::set::insert`
unfoldable pub insert_version : SnmpVersion → List SnmpVersion → List SnmpVersion
insert_version v [] = v ∷ []
insert_version v (w ∷ ws) =
    let rest = insert_version v ws in
    if ltb (version_number v) (version_number w)
    then v ∷ w ∷ ws
    else if version_number v == version_number w
    then w ∷ ws
    else w ∷ rest

unfoldable pub add_known_snmp_version : Device → SnmpVersion → Device
unfolding insert_version
add_known_snmp_version device version = record device {
  known_snmp_versions = insert_version version device.known_snmp_versions;
}
