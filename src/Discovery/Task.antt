-- ===== src/Discovery/Task.antt =====
-- core/core/services/device_discovery: DeviceDiscoveryTask.h, DeviceDiscoveryTask.cpp and
-- DeviceDiscoveryTaskBuilder.h, the results of a task and the callbacks that are told of them.
--
-- A callback acts on a state of its own, the world `W`. `decimal` writes a byte of an address.
use cpp_grcp_testground.Prelude.{
  ℕ, ◌≡◌, refl, Bool, Option, none, some, [], if◌then◌else◌, Str, Result, ok, err, arith,
}
use cpp_grcp_testground.Prelude.Map.{
  Map, same, lookup, insert, erase, lookup-insert, lookup-insert_self, lookup-erase,
  lookup-erase_self,
}
use cpp_grcp_testground.Prelude.Map
use cpp_grcp_testground.Prelude.Strings.{str_order, str_same-eq}
use cpp_grcp_testground.Models.Time.{Milliseconds}
use cpp_grcp_testground.Net.IPv4Address.{IPv4Address, to_string}
use cpp_grcp_testground.Net.MacAddress.{MacAddress}

pub record TaskSuccess : Type 0 where
  pub src_ip : IPv4Address
  pub src_mac : Option MacAddress
  pub dst_ip : IPv4Address
  pub dst_mac : Option MacAddress
  pub ttl : ℕ
  pub response_time : Milliseconds
  pub completed_at : ℕ

pub record TaskError : Type 0 where
  pub dst_ip : IPv4Address
  pub completed_at : ℕ

abbrev pub TaskResult : Type 0
TaskResult = Result TaskSuccess TaskError

pub record DeviceDiscoveryTask {ℓ} (W : Type ℓ) : Type ℓ where
  pub results : Map Str TaskResult
  pub on_device_pinged : Option (TaskSuccess → W → W)
  pub on_ping_failed : Option (TaskError → W → W)

-- What was given to the builder.
pub record DeviceDiscoveryTaskBuilder {ℓ} (W : Type ℓ) : Type ℓ where
  pub on_device_pinged : Option (TaskSuccess → W → W)
  pub on_ping_failed : Option (TaskError → W → W)
  pub task : Option (DeviceDiscoveryTask W)

-- An empty `std::function` is not called.
abbrev pub call_if_set {ℓ} : {E : Type 0} {W : Type ℓ} → Option (E → W → W) → E → W → W
call_if_set none e world = world
call_if_set (some callback) e world = callback e world

module _ {ℓ} {W : Type ℓ} (decimal : ℕ → Str) where
  unfoldable pub add_success :
      IPv4Address → TaskSuccess → DeviceDiscoveryTask W → W → DeviceDiscoveryTask W × W
  add_success host result t world = (
    record t { results = insert (to_string decimal host) (ok result) t.results },
    call_if_set t.on_device_pinged result world,
  )

  unfoldable pub add_error :
      IPv4Address → TaskError → DeviceDiscoveryTask W → W → DeviceDiscoveryTask W × W
  add_error host error t world = (
    record t { results = insert (to_string decimal host) (err error) t.results },
    call_if_set t.on_ping_failed error world,
  )

  unfoldable pub has_result : IPv4Address → DeviceDiscoveryTask W → Bool
  has_result host t = Map.has (to_string decimal host) t.results

  -- `at` is called only where the result is there.
  unfoldable pub get_result : IPv4Address → DeviceDiscoveryTask W → Option TaskResult
  unfolding has_result
  get_result host t = if has_result host t then lookup (to_string decimal host) t.results else none

  unfoldable pub clear_result : IPv4Address → DeviceDiscoveryTask W → DeviceDiscoveryTask W
  clear_result host t = record t { results = erase (to_string decimal host) t.results }

  abbrev consume : IPv4Address → Option TaskResult → DeviceDiscoveryTask W → DeviceDiscoveryTask W
  consume host none t = t
  consume host (some _) t = clear_result host t

  unfoldable pub consume_result :
      IPv4Address → DeviceDiscoveryTask W → Option TaskResult × DeviceDiscoveryTask W
  unfolding get_result
  consume_result host t = let result = get_result host t in (result, consume host result t)

module _ {ℓ} {W : Type ℓ} where
  unfoldable pub clear_results : DeviceDiscoveryTask W → DeviceDiscoveryTask W
  clear_results t = record t { results = [] }

  -- `build` sets both callbacks.
  abbrev pub build : DeviceDiscoveryTaskBuilder W → Option (DeviceDiscoveryTask W)
  build b = elim b.task [
    | none ↦ none
    | some t ↦
        some (record t { on_device_pinged = b.on_device_pinged; on_ping_failed = b.on_ping_failed })
  ]

module _ {ℓ} {W : Type ℓ} (decimal : ℕ → Str) where
  -- `getResult` is the lookup of the map.
  pub get_result-lookup :
      (host : IPv4Address) (t : DeviceDiscoveryTask W)
      → get_result decimal host t ≡ lookup (to_string decimal host) t.results
  unfolding get_result Map.has
  get_result-lookup host t = ground arith

  -- A result is handed out once: `consumeResult` gives what `getResult` gives, afterwards there is
  -- none for the host, and every address that is written differently keeps its own.
  pub consume_result-once :
      (host other : IPv4Address) (t : DeviceDiscoveryTask W)
      → let (result, t') = consume_result decimal host t in
        (result ≡ get_result decimal host t)
        × (get_result decimal host t' ≡ none)
        × (consume_result decimal host t' ≡ (none, t'))
        × (get_result decimal other t' ≡ (
            if same (to_string decimal other) (to_string decimal host)
            then none
            else get_result decimal other t))
  unfolding consume_result clear_result
  consume_result-once host other t =
      let key = to_string decimal host in
      ground (
        arith,
        get_result-lookup host t,
        get_result-lookup host (clear_result decimal host t),
        get_result-lookup other t,
        get_result-lookup other (clear_result decimal host t),
        lookup-erase_self key t.results,
        lookup-erase (to_string decimal other) key t.results,
        str_same-eq (to_string decimal other) key,
      )

  -- A result that is added tells its callback, and no other callback, once, and is the result of its
  -- host from then on, in the place of an earlier one; other hosts keep theirs.
  pub add-get_result :
      (host other : IPv4Address) (result : TaskSuccess) (error : TaskError)
      (t : DeviceDiscoveryTask W) (world : W)
      → let (t', world') = add_success decimal host result t world in
        let (t'', world'') = add_error decimal host error t world in
        let here = same (to_string decimal other) (to_string decimal host) in
        (world' ≡ call_if_set t.on_device_pinged result world)
        × (world'' ≡ call_if_set t.on_ping_failed error world)
        × (get_result decimal other t'
            ≡ (if here then some (ok result) else get_result decimal other t))
        × (get_result decimal other t''
            ≡ (if here then some (err error) else get_result decimal other t))
  unfolding add_success add_error
  add-get_result host other result error t world =
      let key = to_string decimal host in
      (
        refl,
        refl,
        ground (
          arith,
          get_result-lookup other t,
          get_result-lookup other (add_success decimal host result t world).0,
          lookup-insert (to_string decimal other) key (ok result) t.results,
        ),
        ground (
          arith,
          get_result-lookup other t,
          get_result-lookup other (add_error decimal host error t world).0,
          lookup-insert (to_string decimal other) key (err error) t.results,
        ),
      )
