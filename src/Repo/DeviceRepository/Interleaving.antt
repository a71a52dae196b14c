-- ===== src/Repo/DeviceRepository/Interleaving.antt =====
-- The methods of the repository from many threads: the two halves of a call, each under the lock of
-- the map, with the halves of other calls in between.
pub mod Sequential
use cpp_grcp_testground.Prelude.{
  ℕ, ◌==◌, Bool, true, false, not, ◌&&◌, ◌||◌, Option, none, some, List, [], ◌∷◌, if◌then◌else◌,
}
use cpp_grcp_testground.Prelude.Map.{Order, same}
use cpp_grcp_testground.Net.MacAddress.{MacAddress}
use cpp_grcp_testground.Repo.DeviceRepository.{
  Devices, has, create_act, read, update_act, remove_act,
}
use cpp_grcp_testground.Repo.DeviceRepository.Contract.{
  Call, create_call, update_call, read_call, remove_call, has_call, Reply, answer, item, thrown,
}

-- The map, and the calls that have tested for their address and not acted yet, by their threads.
pub record Shared : Type 0 where
  pub devices : Devices
  pub in_flight : List (ℕ × Call)

-- Nobody is between the halves of a call.
abbrev pub unshared : Devices → Shared
unshared d = record { devices = d; in_flight = [] }

abbrev pub call_of : Call × Reply → Call
call_of done = done.0

abbrev pub reply_of : Call × Reply → Reply
reply_of done = done.1

-- A thread calls a method, which tests; or it acts, when its test told it to.
pub data Event : Type 0 where
  calls : ℕ → Call → Event
  acts : ℕ → Event

abbrev pub address : Call → MacAddress
address (create_call mac p) = mac
address (update_call mac p) = mac
address (read_call mac) = mac
address (remove_call mac) = mac
address (has_call mac) = mac

-- Whether a call goes on to its second half, given whether its address was there.
abbrev pub goes_on : Call → Bool → Bool
goes_on (create_call mac p) present = not present
goes_on (update_call mac p) present = present
goes_on (read_call mac) present = false
goes_on (remove_call mac) present = present
goes_on (has_call mac) present = false

-- The call of a thread, and the others.
abbrev pub take : ℕ → List (ℕ × Call) → Option (Call × List (ℕ × Call))
take thread [] = none
take thread ((other, c) ∷ rest) =
    let later = take thread rest in
    if thread == other
    then some (c, rest)
    else elim later [ none ↦ none | some (found, left) ↦ some (found, (other, c) ∷ left) ]

module _ ⦃o : Order MacAddress⦄ where
  -- The first half of a call that does not go on has its reply; the call of one half has it too.
  abbrev pub refuse : Call → Devices → Reply
  refuse (create_call mac p) d = answer false
  refuse (update_call mac p) d = answer false
  refuse (read_call mac) d = item (read mac d)
  refuse (remove_call mac) d = answer false
  refuse (has_call mac) d = answer (has mac d)

  -- The second half.
  abbrev pub act : Call → Devices → Reply × Devices
  act (create_call mac p) d = let (b, d') = create_act mac p d in (answer b, d')
  act (update_call mac p) d = elim (update_act mac p d) [
    | none ↦ (thrown, d)
    | some (b, d') ↦ (answer b, d')
  ]
  act (read_call mac) d = (item (read mac d), d)
  act (remove_call mac) d = let (b, d') = remove_act mac d in (answer b, d')
  act (has_call mac) d = (answer (has mac d), d)

  abbrev pub finish : Option (Call × List (ℕ × Call)) → Shared → Option (Call × Reply) × Shared
  finish none w = (none, w)
  finish (some (c, rest)) w =
      let (reply, d) = act c w.devices in
      (some (c, reply), record { devices = d; in_flight = rest })

  -- A half of a call, and the call that it completes, with its reply.
  unfoldable pub step : Event → Shared → Option (Call × Reply) × Shared
  step (calls thread c) w =
      if goes_on c (has (address c) w.devices)
      then (none, record w { in_flight = (thread, c) ∷ w.in_flight })
      else (some (c, refuse c w.devices), w)
  step (acts thread) w = finish (take thread w.in_flight) w

  abbrev pub completed : Option (Call × Reply) → List (Call × Reply) → List (Call × Reply)
  completed none later = later
  completed (some done) later = done ∷ later

  -- The completed calls of a sequence of halves, in the order of their completion.
  abbrev pub run : List Event → Shared → List (Call × Reply) × Shared
  run [] w = ([], w)
  run (e ∷ es) w =
      let (done, w') = step e w in let (later, w'') = run es w' in (completed done later, w'')

  -- Whether a call on the address is in flight.
  abbrev pub is_in_flight : MacAddress → List (ℕ × Call) → Bool
  is_in_flight mac [] = false
  is_in_flight mac ((thread, c) ∷ rest) = same mac (address c) || is_in_flight mac rest

  -- No call goes on to its second half while another one on its address is in flight.
  abbrev pub is_exclusive : List Event → Shared → Bool
  is_exclusive [] w = true
  is_exclusive (calls thread c ∷ es) w =
      not (goes_on c (has (address c) w.devices) && is_in_flight (address c) w.in_flight)
      && is_exclusive es (step (calls thread c) w).1
  is_exclusive (acts thread ∷ es) w = is_exclusive es (step (acts thread) w).1
