-- ===== src/Tests/Sharing.antt =====
-- The repository of devices between threads.
use cpp_grcp_testground.Prelude.{◌≡◌, refl, List, [], ◌∷◌, map}
use cpp_grcp_testground.Prelude.Map.{has, lookup, insert}
use cpp_grcp_testground.Repo.DeviceRepository
use cpp_grcp_testground.Repo.DeviceRepository.Contract.{
  create_call, read_call, remove_call, update_call, promise_all, view,
}
use cpp_grcp_testground.Repo.DeviceRepository.Interleaving.{
  Event, calls, acts, run, step, unshared, call_of, reply_of,
}
use cpp_grcp_testground.Repo.DeviceRepository.Interleaving.Sequential.{run-promise}
use cpp_grcp_testground.Tests.Data.{mac, other_mac, by_number}

-- One thread creates a device and another one removes another device; a third one reads in between
-- and updates later.
abbrev events : List Event
events =
    calls 1 (create_call mac 7)
    ∷ calls 2 (remove_call other_mac)
    ∷ calls 3 (read_call mac)
    ∷ acts 2
    ∷ acts 1
    ∷ calls 3 (update_call mac 8)
    ∷ acts 3
    ∷ []

run-promise_example :
    let done = (run ⦃o = by_number⦄ events (unshared ((other_mac, 4) ∷ []))).0 in
    map reply_of done
    ≡ (promise_all ⦃o = by_number⦄
        (map call_of done)
        (view ⦃o = by_number⦄ ((other_mac, 4) ∷ []))).0
unfolding step DeviceRepository.has DeviceRepository.create_act DeviceRepository.remove_act
    DeviceRepository.update_act has lookup insert cpp_grcp_testground.Prelude.Map.erase
    cpp_grcp_testground.Net.MacAddress.less cpp_grcp_testground.Net.MacAddress.to_int
run-promise_example = (run-promise ⦃o = by_number⦄ events ((other_mac, 4) ∷ []) refl).0
