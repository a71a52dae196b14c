-- ===== src/Discovery/App.antt =====
-- app/MyIcmpDeviceDiscoveryTask.cpp, and the callback on an answer in app/main.cpp.
pub mod Input
pub mod Demonstration
pub mod SetUp
pub mod Main
pub mod Recording
pub mod Ending
use cpp_grcp_testground.Prelude.{
  ℕ, suc, ◌≡◌, Option, none, some, if◌then◌else◌, ◌==◌, ◌||◌, not, Str, Result, ok, err, arith,
  ErrorType, Option-cases, inl, inr,
}
use cpp_grcp_testground.Prelude.Map.{Order, lookup, has, same, lookup-insert, lookup-insert_self}
use cpp_grcp_testground.Models.Device.{Device, new_device, set_response_time}
use cpp_grcp_testground.Models.Time.{Milliseconds}
use cpp_grcp_testground.Net.IPv4Address.{IPv4Address}
use cpp_grcp_testground.Net.MacAddress.{MacAddress, broadcast}
use cpp_grcp_testground.Net.Packet.{Packet}
use cpp_grcp_testground.Net.Scanner.{Interface, Moment}
use cpp_grcp_testground.Repo.DeviceRepository.{
  DevicePtr, Store, Devices, read, create, create_act, find,
}
use cpp_grcp_testground.Repo.DeviceRepository
use cpp_grcp_testground.Discovery.Task.{TaskSuccess}
use cpp_grcp_testground.Discovery.Icmp.{IcmpDeviceDiscoveryTask, create_ping_resolver}

-- The devices of the program: where the pointers lead, the repository, and the next new pointer.
pub record World : Type 0 where
  pub store : Store
  pub devices : Devices
  pub next : DevicePtr

abbrev pub known_mac : Store → Result DevicePtr ErrorType → MacAddress
known_mac store (ok device) = (store device).mac_address
known_mac store (err _) = broadcast

module _ {ℓ} {W : Type ℓ} (decimal hex : ℕ → Str) (iface : Interface) where
  -- `MyIcmpDeviceDiscoveryTask::discover`: a host that the repository knows is pinged at its hardware
  -- address.
  unfoldable pub discover :
      IPv4Address
      → Moment
      → World
      → IcmpDeviceDiscoveryTask W
      → (ℕ × Packet) × IcmpDeviceDiscoveryTask W
  discover host m world t =
      create_ping_resolver decimal hex iface host
        (known_mac world.store (find host world.store world.devices)) m t

abbrev write : DevicePtr → Device → Store → Store
write device value store = λ q. if q == device then value else store q

module _ ⦃o : Order MacAddress⦄ where
  -- The two branches of the callback; `memory` is the response time that a new device holds.
  abbrev keep_device :
      Milliseconds → TaskSuccess → MacAddress → Result DevicePtr ErrorType → World → World
  keep_device memory result mac (ok device) world = record world {
    store = write device (set_response_time (world.store device) result.response_time) world.store;
  }
  keep_device memory result mac (err _) world =
      let device = set_response_time (new_device memory result.dst_ip mac) result.response_time in
      record {
        store = write world.next device world.store;
        devices = (create mac world.next world.devices).1;
        next = suc world.next;
      }

  abbrev keep_pinged : Milliseconds → TaskSuccess → Option MacAddress → World → World
  keep_pinged memory result none world = world
  keep_pinged memory result (some mac) world =
      keep_device memory result mac (read mac world.devices) world

  -- The callback that `main` gives to the task for a device that was pinged.
  unfoldable pub on_device_pinged : Milliseconds → TaskSuccess → World → World
  on_device_pinged memory result world = keep_pinged memory result result.dst_mac world

  create-read :
      (mac : MacAddress) (item : DevicePtr) (devices : Devices)
      → lookup mac devices ≡ none
      → read mac (create mac item devices).1 ≡ ok item
  unfolding read create DeviceRepository.has create_act has
  create-read mac item devices h = ground (arith, lookup-insert_self mac item devices)

  created-lookup :
      (mac k : MacAddress) (item : DevicePtr) (devices : Devices)
      → lookup mac devices ≡ none
      → lookup k (create mac item devices).1
        ≡ (if has mac devices || not (same k mac) then lookup k devices else some item)
  unfolding create DeviceRepository.has create_act has
  created-lookup mac k item devices h = ground (arith, lookup-insert k mac item devices)

  -- After a ping was answered from a hardware address, the repository has a device under that
  -- address, and it has the response time of the ping: the device that was there before or a new one
  -- with both addresses of the answer. No other device has changed, and every other hardware address
  -- has the entry in the repository that it had.
  pub on_device_pinged-read :
      (memory : Milliseconds) (result : TaskSuccess) (mac : MacAddress) (world : World)
      (q : DevicePtr) (k : MacAddress)
      → result.dst_mac ≡ some mac
      → let w = on_device_pinged memory result world in
        (device : DevicePtr) × (read mac w.devices ≡ ok device)
        × (read mac world.devices
            ≡ (if has mac world.devices then ok device else err ErrorType.not_found))
        × ((w.store device).response_time ≡ result.response_time)
        × ((w.store device).mac_address
            ≡ (if has mac world.devices then (world.store device).mac_address else mac))
        × ((w.store device).ip_address
            ≡ (if has mac world.devices then (world.store device).ip_address else result.dst_ip))
        × (w.store q ≡ (if q == device then w.store device else world.store q))
        × (lookup k w.devices ≡ (
            if has mac world.devices || not (same k mac)
            then lookup k world.devices
            else some device))
  unfolding on_device_pinged read has new_device set_response_time
  on_device_pinged-read memory result mac world q k h =
      elim (Option-cases (lookup mac world.devices)) [
        | inl absent ↦ (
          world.next,
          ground (arith, create-read mac world.next world.devices absent),
          ground arith,
          ground arith,
          ground arith,
          ground arith,
          ground arith,
          ground (arith, created-lookup mac k world.next world.devices absent),
        )
        | inr (device, there) ↦ (
          device,
          ground arith,
          ground arith,
          ground arith,
          ground arith,
          ground arith,
          ground arith,
          ground arith,
        )
      ]
