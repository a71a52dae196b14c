-- ===== src/Snmp/Factory.antt =====
-- app/SnmpTargetFactory.h: the target for a host, by what the repository knows of it.
use cpp_grcp_testground.Prelude.{
  ℕ, ◌≡◌, refl, Option, none, some, [], ◌∷◌, Str, Result, ok, err, ErrorType,
}
use cpp_grcp_testground.Models.Device.{Device, SnmpVersion, v1, v2, unused_v2, v3}
use cpp_grcp_testground.Net.IPv4Address.{IPv4Address}
use cpp_grcp_testground.Repo.DeviceRepository.{DevicePtr, Store, Devices, find}
use cpp_grcp_testground.Snmp.Target.{Target, base, set_port, create_v1, create_v2, new_target}

-- The default argument of both communities.
abbrev pub public_community : Str
public_community = b'p' ∷ b'u' ∷ b'b' ∷ b'l' ∷ b'i' ∷ b'c' ∷ []

unfoldable pub create_target_v1 : Device → Option Target
create_target_v1 device = some (create_v1 device.ip_address public_community public_community)

unfoldable pub create_target_v2 : Device → Option Target
create_target_v2 device = some (create_v2 device.ip_address public_community public_community)

-- `none` is the null pointer.
unfoldable pub create_target_v3 : Device → Option Target
create_target_v3 device = none

abbrev target_by_version : Option SnmpVersion → Device → Option Target
target_by_version none device = create_target_v2 device
target_by_version (some v1) device = create_target_v1 device
target_by_version (some v2) device = create_target_v2 device
target_by_version (some unused_v2) device = create_target_v2 device
target_by_version (some v3) device = create_target_v3 device

abbrev target_for : IPv4Address → Store → Result DevicePtr ErrorType → Option Target
target_for host store (ok device) =
    target_by_version (store device).last_used_snmp_version (store device)
target_for host store (err _) = some (create_v2 host public_community public_community)

unfoldable pub create_target : IPv4Address → Store → Devices → Option Target
create_target host store devices = target_for host store (find host store devices)

abbrev set_port_of : ℕ → Option Target → Option Target
set_port_of port none = none
set_port_of port (some t) = some (set_port port t)

-- `createTarget(host, port)`; `none` is a call through the null pointer.
unfoldable pub create_target_port : IPv4Address → ℕ → Store → Devices → Option Target
create_target_port host port store devices = set_port_of port (create_target host store devices)

-- The version that a target speaks, given that of the last use.
abbrev pub spoken : Option SnmpVersion → Option SnmpVersion
spoken none = some v2
spoken (some v1) = some v1
spoken (some v2) = some v2
spoken (some unused_v2) = some v2
spoken (some v3) = none

abbrev pub version_of : Option Target → Option SnmpVersion
version_of none = none
version_of (some t) = some (base t).version

by_version-spoken :
    (v : Option SnmpVersion) (device : Device) (port : ℕ)
    → (version_of (target_by_version v device) ≡ spoken v)
      × (version_of (set_port_of port (target_by_version v device)) ≡ spoken v)
unfolding create_target_v1 create_target_v2 create_target_v3 set_port create_v1 create_v2 new_target
by_version-spoken none device port = (refl, refl)
by_version-spoken (some v1) device port = (refl, refl)
by_version-spoken (some v2) device port = (refl, refl)
by_version-spoken (some unused_v2) device port = (refl, refl)
by_version-spoken (some v3) device port = (refl, refl)

-- A host that the repository finds gets a target for the version that was used last, version 2 if
-- none was or if it is the unused one; with or without a port. If version 3 was used last there is no
-- target, and the call with a port goes through the null pointer.
pub create_target-spoken :
    (host : IPv4Address) (port : ℕ) (store : Store) (devices : Devices) (device : DevicePtr)
    → find host store devices ≡ ok device
    → (version_of (create_target host store devices) ≡ spoken (store device).last_used_snmp_version)
      × (version_of (create_target_port host port store devices)
          ≡ spoken (store device).last_used_snmp_version)
unfolding create_target create_target_port
create_target-spoken host port store devices device h =
    rw h (by_version-spoken (store device).last_used_snmp_version (store device) port)
