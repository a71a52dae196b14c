-- ===== src/Models/Device/Versions.antt =====
-- The set of versions that a device is known to speak.
use cpp_grcp_testground.Prelude.{◌<◌, ◌≡◌, refl, Bool, false, ◌||◌, List, [], ◌∷◌, ◌==◌, arith}
use cpp_grcp_testground.Models.Device.{
  Device, SnmpVersion, version_number, insert_version, add_known_snmp_version,
}

-- Whether a device is known to speak a version.
abbrev pub has_version : SnmpVersion → List SnmpVersion → Bool
has_version v [] = false
has_version v (w ∷ ws) = version_number v == version_number w || has_version v ws

-- The versions rise along the list, so none is listed twice.
abbrev pub After : SnmpVersion → List SnmpVersion → Type 0
After v [] = Unit {0}
After v (w ∷ ws) = (version_number v < version_number w) × After w ws

abbrev pub IsSetOf : List SnmpVersion → Type 0
IsSetOf [] = Unit {0}
IsSetOf (v ∷ vs) = After v vs

insert_version-After :
    (u v : SnmpVersion) (vs : List SnmpVersion)
    → version_number u < version_number v
    → After u vs
    → After u (insert_version v vs)
unfolding insert_version
insert_version-After u v [] h s = (h, tt)
insert_version-After u v (w ∷ ws) h s = ground (arith, insert_version-After w v ws)

insert_version-IsSet :
    (v : SnmpVersion) (vs : List SnmpVersion) → IsSetOf vs → IsSetOf (insert_version v vs)
unfolding insert_version
insert_version-IsSet v [] s = tt
insert_version-IsSet v (w ∷ ws) s = ground (arith, insert_version-After w v ws)

has_version-insert :
    (u v : SnmpVersion) (vs : List SnmpVersion)
    → has_version u (insert_version v vs)
      ≡ (version_number u == version_number v || has_version u vs)
unfolding insert_version
has_version-insert u v [] = refl
has_version-insert u v (w ∷ ws) = ground (arith, has_version-insert u v ws)

-- A device comes to know the version that is added, keeps those it knew and learns no other, and no
-- version is listed twice.
pub add_known-has_version :
    (device : Device) (u v : SnmpVersion)
    → IsSetOf device.known_snmp_versions
    → IsSetOf (add_known_snmp_version device v).known_snmp_versions
      × (has_version u (add_known_snmp_version device v).known_snmp_versions
          ≡ (version_number u == version_number v || has_version u device.known_snmp_versions))
unfolding add_known_snmp_version
add_known-has_version device u v s = (
  insert_version-IsSet v device.known_snmp_versions s,
  has_version-insert u v device.known_snmp_versions,
)
