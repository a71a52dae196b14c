-- ===== src/Repo/DeviceRepository/Races.antt =====
-- The methods of the repository from two threads: what may run between the two halves of one.
use cpp_grcp_testground.Prelude.{◌≡◌, true, false, none, some, arith}
use cpp_grcp_testground.Prelude.Map.{
  Order, lookup, lookup-insert_self, lookup-erase_self, insert, erase,
}
use cpp_grcp_testground.Prelude.Map
use cpp_grcp_testground.Net.MacAddress.{MacAddress}
use cpp_grcp_testground.Repo.DeviceRepository.{
  DevicePtr, Devices, has, create_act, update_act, remove,
}

module _ ⦃o : Order MacAddress⦄ where
  -- Two threads create the same absent address, and both have tested for it before either acts:
  -- both are told that they created it, and the second one's device is in no entry.
  pub create_race :
      (mac : MacAddress) (p q : DevicePtr) (d : Devices)
      → has mac d ≡ false
      → let (first, d') = create_act mac p d in
        let (second, d'') = create_act mac q d' in
        (first ≡ true) × (second ≡ true) × (lookup mac d'' ≡ some p)
  unfolding has create_act Map.has
  create_race mac p q d absent = ground (arith, lookup-insert_self mac p d)

  -- Another thread removes the address between the two halves of an update: the update throws.
  pub update_race :
      (mac : MacAddress) (p : DevicePtr) (d : Devices)
      → has mac d ≡ true
      → let (removed, d') = remove mac d in (removed ≡ true) × (update_act mac p d' ≡ none)
  unfolding has remove update_act Map.has
  update_race mac p d present = ground (arith, lookup-erase_self mac d)
