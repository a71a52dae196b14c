-- ===== src/Repo/DeviceRepository.antt =====
-- core/core/repo/device/DeviceRepository.h and DeviceRepository.cpp, with the interface
-- core/core/repo/Repository.h.
--
-- A device lives behind a shared pointer: the repository holds pointers into a store of devices.
-- Each method locks the map once to test for the key, unlocks it, and locks it again to act; both
-- halves are functions of their own here, so that other threads can run in between.
pub mod Contract
pub mod Races
pub mod Interleaving
pub mod Find
use cpp_grcp_testground.Prelude.{
  ℕ, ◌≡◌, Bool, true, false, not, Option, none, some, List, [], ◌∷◌, if◌then◌else◌, ErrorType,
  Result, ok, err,
}
use cpp_grcp_testground.Prelude.ErrorType.{not_found}
use cpp_grcp_testground.Prelude.Map.{Order, Map, lookup, insert, erase}
use cpp_grcp_testground.Prelude.Map
use cpp_grcp_testground.Models.Device.{Device}
use cpp_grcp_testground.Net.IPv4Address.{IPv4Address, equal}
use cpp_grcp_testground.Net.MacAddress.{MacAddress}

-- A shared pointer, and what the pointers lead to.
abbrev pub DevicePtr : Type 0
DevicePtr = ℕ

abbrev pub Store : Type 0
Store = DevicePtr → Device

-- `m_devices`, ordered by `operator<` of the hardware addresses. That compares numbers of which two
-- bytes are uninitialised (`Net.MacAddress.less`): it is the order that is assumed below only if these
-- bytes hold the same in each comparison (`Net.MacAddress.Order.mac_order`).
abbrev pub Devices : Type 0
Devices = Map MacAddress DevicePtr

pub data IterResult : Type 0 where
  break_loop continue_loop : IterResult

module _ ⦃o : Order MacAddress⦄ where
  unfoldable pub has : MacAddress → Devices → Bool
  has mac devices = Map.has mac devices

  -- The second half of `create`: `emplace` keeps an entry that is there, and `true` is returned.
  unfoldable pub create_act : MacAddress → DevicePtr → Devices → Bool × Devices
  create_act mac item devices =
      (true, (if Map.has mac devices then devices else insert mac item devices))

  unfoldable pub create : MacAddress → DevicePtr → Devices → Bool × Devices
  unfolding has create_act
  create mac item devices =
      if has mac devices then (false, devices) else create_act mac item devices

  unfoldable pub read : MacAddress → Devices → Result DevicePtr ErrorType
  read mac devices = elim (lookup mac devices) [ none ↦ err not_found | some item ↦ ok item ]

  -- The second half of `update`; `none` is the exception of `map::at`.
  unfoldable pub update_act : MacAddress → DevicePtr → Devices → Option (Bool × Devices)
  update_act mac item devices =
      if Map.has mac devices then some (true, insert mac item devices) else none

  unfoldable pub update : MacAddress → DevicePtr → Devices → Option (Bool × Devices)
  unfolding has update_act
  update mac item devices =
      if not (has mac devices) then some (false, devices) else update_act mac item devices

  unfoldable pub remove_act : MacAddress → Devices → Bool × Devices
  remove_act mac devices = (true, erase mac devices)

  unfoldable pub remove : MacAddress → Devices → Bool × Devices
  unfolding has remove_act
  remove mac devices = if not (has mac devices) then (false, devices) else remove_act mac devices

-- `findBy`: the first device, in the order of the keys, that the function accepts.
unfoldable pub find_by : (Device → Bool) → Store → Devices → Result DevicePtr ErrorType
find_by func store [] = err not_found
find_by func store ((_, device) ∷ rest) =
    let later = find_by func store rest in if func (store device) then ok device else later

unfoldable pub find : IPv4Address → Store → Devices → Result DevicePtr ErrorType
unfolding find_by
find ip store devices = find_by (λ device. equal device.ip_address ip) store devices

-- `contains`, by `std::any_of`.
unfoldable pub contains : (Device → Bool) → Store → Devices → Bool
contains func store [] = false
contains func store ((_, device) ∷ rest) =
    let later = contains func store rest in if func (store device) then true else later

-- `iterate`, with a callback that keeps a state of its own and may ask to stop.
unfoldable pub iterate {ℓ} : {S : Type ℓ} → (S → Device → S × IterResult) → Store → Devices → S → S
iterate func store [] s = s
iterate func store ((_, device) ∷ rest) s =
    let (s', answer) = func s (store device) in
    elim answer [ break_loop ↦ s' | continue_loop ↦ iterate func store rest s' ]
