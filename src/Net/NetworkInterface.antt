-- ===== src/Net/NetworkInterface.antt =====
-- core/core/net/NetworkInterface.h and NetworkInterface.cpp: the network interfaces of the host, as the
-- packet library lists them.
use cpp_grcp_testground.Prelude.{
  ℕ, Option, none, some, List, map, Str, Result, ok, err, ErrorType, if◌then◌else◌,
}
use cpp_grcp_testground.Prelude.ErrorType.{not_found, unknown}
use cpp_grcp_testground.Net.IPv4Address.{IPv4Address, from_pcpp, zero_address, equal}
use cpp_grcp_testground.Net.MacAddress.{MacAddress}
use cpp_grcp_testground.Net.MacAddress
use cpp_grcp_testground.Net.Scanner.{Interface}

-- What the packet library offers of its devices `D`: the bytes of an address stand as it gives them.
pub record LiveDevices {ℓ} (D : Type ℓ) : Type ℓ where
  pub device_by_name : Str → Option D
  pub device_by_ip : Str → Option D
  pub devices : List D
  pub ipv4_address : D → List ℕ
  pub mac_address : D → List ℕ
  pub gateway : D → List ℕ

pub record NetworkInterface {ℓ} (D : Type ℓ) : Type ℓ where
  pub device : D

abbrev or_not_found {ℓ} : {D : Type ℓ} → Option D → Result (NetworkInterface D) ErrorType
or_not_found none = err not_found
or_not_found (some d) = ok (record { device = d })

module _ {ℓ} {D : Type ℓ} (live : LiveDevices D) where
  unfoldable pub by_name : Str → Result (NetworkInterface D) ErrorType
  by_name name = or_not_found (live.device_by_name name)

  unfoldable pub by_ip : Str → Result (NetworkInterface D) ErrorType
  by_ip ip = or_not_found (live.device_by_ip ip)

  unfoldable pub available_interfaces : List (NetworkInterface D)
  available_interfaces = map (λ d. record { device = d }) live.devices

  unfoldable pub ip_address_of : NetworkInterface D → IPv4Address
  ip_address_of i = from_pcpp (live.ipv4_address i.device)

  unfoldable pub mac_address_of : NetworkInterface D → MacAddress
  mac_address_of i = MacAddress.from_pcpp (live.mac_address i.device)

  unfoldable pub default_gateway : NetworkInterface D → Result IPv4Address ErrorType
  default_gateway i =
      let gateway = from_pcpp (live.gateway i.device) in
      if equal gateway zero_address then err unknown else ok gateway

-- The static member, which is empty at first.
unfoldable pub default_interface {ℓ} :
    {D : Type ℓ} → Option (NetworkInterface D) → Result (NetworkInterface D) ErrorType
default_interface none = err not_found
default_interface (some i) = ok i

unfoldable pub set_default_interface {ℓ} :
    {D : Type ℓ} → NetworkInterface D → Option (NetworkInterface D) → Option (NetworkInterface D)
set_default_interface i old = some i

-- What the scanner is told of an interface.
abbrev pub to_scan {ℓ} : {D : Type ℓ} → LiveDevices D → NetworkInterface D → Interface
to_scan live i = record { ip_address = ip_address_of live i; mac_address = mac_address_of live i }
