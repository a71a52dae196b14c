-- ===== src/Discovery/Service.antt =====
-- core/core/services/device_discovery: DeviceDiscoveryService.h and DeviceDiscoveryService.cpp, the
-- service that hands hosts to its tasks.
--
-- What the service calls on a task is an interface, as the virtual functions of the source are. A
-- task's `discover` acts on the task and on the world; what it sends and posts is part of the world.
pub mod Recording
use cpp_grcp_testground.Prelude.{
  ℕ, suc, ◌+◌, ◌%◌, ◌^◌, ◌<◌, ◌≡◌, refl, Option, none, some, List, [], ◌∷◌, ◌++◌, map, All, ap, sym,
  ◌∙◌,
}
use cpp_grcp_testground.Util.Sequence.{inclusive_bound, range_of_end, to, visit}
use cpp_grcp_testground.Util.Sequence.Walk.{visit-numbers, numbers, distance}
use cpp_grcp_testground.Net.IPv4Address.{IPv4Address, IsValid, to_int, post_increment}
use cpp_grcp_testground.Net.IPv4Address.Order.{
  equal_iff_number, address_steps, address_counts, post_increment-to_int,
}

-- The virtual functions that the service calls.
pub record TaskOps {ℓ κ} (T : Type ℓ) (W : Type κ) : Type (ℓ ⊔ κ) where
  pub start : T → W → T × W
  pub discover : IPv4Address → T → W → T × W
  pub clear_results : T → T

module _ {ℓ κ} {T : Type ℓ} {W : Type κ} (ops : TaskOps T W) where
  -- `discover(host)`: the loop over `m_discoveryTasks`.
  unfoldable pub discover : IPv4Address → List T → W → List T × W
  discover host [] world = ([], world)
  discover host (t ∷ ts) world =
      let first = ops.discover host t world in
      let rest = discover host ts first.1 in (first.0 ∷ rest.0, rest.1)

  -- The body of the loop, for each address of the range in turn.
  unfoldable pub discover_each : List IPv4Address → List T → W → List T × W
  discover_each [] tasks world = (tasks, world)
  discover_each (ip ∷ ips) tasks world =
      let first = discover ip tasks world in discover_each ips first.0 first.1

  abbrev discover_visited : Option (List IPv4Address) → List T → W → Option (List T × W)
  discover_visited none tasks world = none
  discover_visited (some ips) tasks world = some (discover_each ips tasks world)

  -- `discover(begin, end)`: the range is that of `rangeOf(begin, Inclusive(end))`; `none` is a range
  -- of as many addresses as the fuel, or more.
  unfoldable pub discover_range : ℕ → IPv4Address → IPv4Address → List T → W → Option (List T × W)
  discover_range fuel begin end tasks world =
      discover_visited
        (to address_steps fuel (range_of_end address_steps inclusive_bound begin end)) tasks world

  unfoldable pub add_discovery_task : T → List T → W → List T × W
  add_discovery_task task tasks world =
      let started = ops.start task world in (tasks ++ (started.0 ∷ []), started.1)

  -- `addDiscoveryTask<T>(args...)`: the task is made of the arguments.
  unfoldable pub add_new_discovery_task {μ} : {A : Type μ} → (A → T) → A → List T → W → List T × W
  unfolding add_discovery_task
  add_new_discovery_task make_task args tasks world =
      add_discovery_task (make_task args) tasks world

  unfoldable pub clear_results : List T → List T
  clear_results tasks = map ops.clear_results tasks

  -- A range is the loop over the addresses that it counts.
  pub discover_range-visits :
      (fuel : ℕ) (begin end : IPv4Address) (tasks : List T) (world : W)
      → IsValid begin
      → IsValid end
      → distance (2 ^ 32) (to_int begin) ((to_int end + 1) % 2 ^ 32) < fuel
      → (ips : List IPv4Address) × (discover_range fuel begin end tasks world
          ≡ some (discover_each ips tasks world))
        × (map to_int ips
            ≡ numbers
                (2 ^ 32)
                (distance (2 ^ 32) (to_int begin) ((to_int end + 1) % 2 ^ 32))
                (to_int begin))
        × All IsValid ips
  unfolding discover_range to
  discover_range-visits fuel begin end tasks world vb ve h =
      let after = post_increment-to_int end ve in
      let (ips, ran, ranks, valid) =
        visit-numbers address_steps address_counts fuel begin (post_increment end).1 vb after.1
          (rw after.2 h) in
      let count = λ (n : ℕ). numbers (2 ^ 32) (distance (2 ^ 32) (to_int begin) n) (to_int begin) in
      (ips, rw ran refl, ranks ∙ ap count after.2, valid)

  -- A range whose last address comes right before its first, as the range of all addresses does,
  -- hands no address to the tasks.
  pub discover_range-whole :
      (fuel : ℕ) (begin end : IPv4Address) (tasks : List T) (world : W)
      → IsValid begin
      → IsValid end
      → to_int begin ≡ (to_int end + 1) % 2 ^ 32
      → discover_range (suc fuel) begin end tasks world ≡ some (tasks, world)
  unfolding discover_range to visit discover_each
  discover_range-whole fuel begin end tasks world vb ve e =
      let after = post_increment-to_int end ve in
      let met = (equal_iff_number begin (post_increment end).1 vb after.1).1 (e ∙ sym after.2) in
      rw met refl
