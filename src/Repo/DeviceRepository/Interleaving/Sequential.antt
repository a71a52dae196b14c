-- ===== src/Repo/DeviceRepository/Interleaving/Sequential.antt =====
-- Calls from many threads and the same calls one after the other.
use cpp_grcp_testground.Prelude.{
  ℕ, ◌==◌, ◌≡◌, ◌⊎◌, ◌∙◌, refl, sym, ap, true, false, not, ◌&&◌, Option, none, some, Option-cases,
  inl, inr, Bool-cases, List, [], ◌∷◌, map, arith,
}
use cpp_grcp_testground.Prelude.Map.{Order, same, lookup}
use cpp_grcp_testground.Prelude.Map
use cpp_grcp_testground.Net.MacAddress.{MacAddress}
use cpp_grcp_testground.Repo.DeviceRepository.{Devices, has, create, update, remove}
use cpp_grcp_testground.Repo.DeviceRepository.Contract.{
  Call, create_call, update_call, read_call, remove_call, has_call, Reply, perform, perform-promise,
  perform_all, promise_all, View, view, promise, perform_all-promise,
}
use cpp_grcp_testground.Repo.DeviceRepository.Interleaving.{
  Shared, Event, calls, acts, address, goes_on, take, refuse, act, finish, step, completed, run,
  is_in_flight, is_exclusive, unshared, call_of, reply_of,
}

take_cases :
    (thread other : ℕ) (first c : Call) (l rest : List (ℕ × Call))
    → take thread ((other, first) ∷ l) ≡ some (c, rest)
    → ((first ≡ c) × (l ≡ rest))
      ⊎ ((left : List (ℕ × Call)) × (take thread l ≡ some (c, left))
          × (rest ≡ (other, first) ∷ left))
take_cases thread other first c l rest e = elim (Bool-cases (thread == other)) [
  | inl this ↦ inl (ground arith, ground arith)
  | inr foreign ↦ elim (Option-cases (take thread l)) [
    | inl absent ↦ absurd (ground arith)
    | inr ((found, left), there) ↦ inr (left, ground arith, ground arith)
  ]
]

module _ ⦃o : Order MacAddress⦄ where
  act-perform :
      (c : Call) (d : Devices) → goes_on c (has (address c) d) ≡ true → act c d ≡ perform c d
  unfolding perform create update remove
  act-perform (create_call mac p) d h = ground arith
  act-perform (update_call mac p) d h = ground arith
  act-perform (read_call mac) d h = cc
  act-perform (remove_call mac) d h = ground arith
  act-perform (has_call mac) d h = cc

  refuse-perform :
      (c : Call) (d : Devices)
      → goes_on c (has (address c) d) ≡ false
      → (refuse c d, d) ≡ perform c d
  unfolding perform create update remove
  refuse-perform (create_call mac p) d h = ground arith
  refuse-perform (update_call mac p) d h = ground arith
  refuse-perform (read_call mac) d h = refl
  refuse-perform (remove_call mac) d h = ground arith
  refuse-perform (has_call mac) d h = refl

  promise-others :
      (c : Call) (v : View) (k : MacAddress) → same k (address c) ≡ false → (promise c v).1 k ≡ v k
  promise-others (create_call mac p) v k h = ground arith
  promise-others (update_call mac p) v k h = ground arith
  promise-others (read_call mac) v k h = refl
  promise-others (remove_call mac) v k h = ground arith
  promise-others (has_call mac) v k h = refl

  -- A call leaves the other addresses as they are.
  has-perform :
      (c : Call) (d : Devices) (k : MacAddress)
      → same k (address c) ≡ false
      → has k (perform c d).1 ≡ has k d
  unfolding has Map.has
  has-perform c d k h =
      ap (λ e. elim e [ none ↦ false | some _ ↦ true ])
        ((perform-promise c d).1 k ∙ promise-others c (view d) k h)

  -- The calls in flight may act: their tests still hold, and their addresses differ.
  abbrev MayAct : Devices → List (ℕ × Call) → Type 0
  MayAct d [] = Unit
  MayAct d ((thread, c) ∷ rest) =
      (goes_on c (has (address c) d) ≡ true)
      × (is_in_flight (address c) rest ≡ false)
      × MayAct d rest

  -- A call that completes leaves the calls on other addresses able to act.
  MayAct-perform :
      (c : Call) (d : Devices) (l : List (ℕ × Call))
      → is_in_flight (address c) l ≡ false
      → MayAct d l
      → MayAct (perform c d).1 l
  MayAct-perform c d [] h m = tt
  MayAct-perform c d ((thread, other) ∷ rest) h m = (
    rw (has-perform c d (address other) (ground arith)) m.0,
    m.1,
    MayAct-perform c d rest (ground arith) m.2,
  )

  take-is_in_flight :
      (thread : ℕ) (l rest : List (ℕ × Call)) (c : Call) (k : MacAddress)
      → take thread l ≡ some (c, rest)
      → is_in_flight k l ≡ false
      → (same k (address c) ≡ false) × (is_in_flight k rest ≡ false)
  take-is_in_flight thread [] rest c k e h = cc
  take-is_in_flight thread ((other, c0) ∷ l) rest c k e h =
      elim (take_cases thread other c0 c l rest e) [
        | inl (this, others) ↦ rw (← this, ← others) (ground arith, ground arith)
        | inr (left, there, others) ↦
            let later = take-is_in_flight thread l left c k there (ground arith) in
            rw others (later.0, ground arith)
      ]

  take-MayAct :
      (thread : ℕ) (l rest : List (ℕ × Call)) (c : Call) (d : Devices)
      → take thread l ≡ some (c, rest)
      → MayAct d l
      → MayAct d ((thread, c) ∷ rest)
  take-MayAct thread [] rest c d e m = cc
  take-MayAct thread ((other, c0) ∷ l) rest c d e m = elim (take_cases thread other c0 c l rest e) [
    | inl (this, others) ↦ rw (← this, ← others) m
    | inr (left, there, others) ↦
        let later = take-MayAct thread l left c d there m.2 in
        let apart = take-is_in_flight thread l left c (address c0) there m.1 in
        rw others (later.0, ground arith, (m.0, apart.1, later.2))
  ]

  -- What a half completes, performed at once on the map, gives the same reply and the same map; a half
  -- that completes nothing leaves the map.
  abbrev IsPerformed : Option (Call × Reply) × Shared → Devices → Type 0
  IsPerformed (none, w) d = w.devices ≡ d
  IsPerformed (some (c, reply), w) d = (reply, w.devices) ≡ perform c d

  finish-IsPerformed :
      (thread : ℕ) (w : Shared) (found : Option (Call × List (ℕ × Call)))
      → take thread w.in_flight ≡ found
      → MayAct w.devices w.in_flight
      → IsPerformed (finish found w) w.devices
        × MayAct (finish found w).1.devices (finish found w).1.in_flight
  finish-IsPerformed thread w none e m = (refl, m)
  finish-IsPerformed thread w (some (c, rest)) e m =
      let ready = take-MayAct thread w.in_flight rest c w.devices e m in
      let now = act-perform c w.devices ready.0 in
      (now, rw now (MayAct-perform c w.devices rest ready.1 ready.2))

  acts-IsPerformed :
      (thread : ℕ) (w : Shared)
      → MayAct w.devices w.in_flight
      → let after = step (acts thread) w in
        IsPerformed after w.devices × MayAct after.1.devices after.1.in_flight
  unfolding step
  acts-IsPerformed thread w m = finish-IsPerformed thread w (take thread w.in_flight) refl m

  calls-IsPerformed :
      (thread : ℕ) (c : Call) (w : Shared)
      → MayAct w.devices w.in_flight
      → not (goes_on c (has (address c) w.devices) && is_in_flight (address c) w.in_flight) ≡ true
      → let after = step (calls thread c) w in
        IsPerformed after w.devices × MayAct after.1.devices after.1.in_flight
  unfolding step
  calls-IsPerformed thread c w m h = elim (Bool-cases (goes_on c (has (address c) w.devices))) [
    | inl on ↦ rw on (refl, (on, ground arith, m))
    | inr off ↦ rw off (refuse-perform c w.devices off, m)
  ]

  completed-perform_all :
      (after : Option (Call × Reply) × Shared) (later : List (Call × Reply)) (final d : Devices)
      → IsPerformed after d
      → perform_all (map call_of later) after.1.devices ≡ (map reply_of later, final)
      → perform_all (map call_of (completed after.0 later)) d
        ≡ (map reply_of (completed after.0 later), final)
  completed-perform_all (none, w) later final d p h = rw (← p) h
  completed-perform_all (some (c, reply), w) later final d p h = rw (← p, h) refl

  run-perform_all :
      (es : List Event) (w : Shared)
      → MayAct w.devices w.in_flight
      → is_exclusive es w ≡ true
      → let (done, w') = run es w in
        perform_all (map call_of done) w.devices ≡ (map reply_of done, w'.devices)
  run-perform_all [] w m h = refl
  run-perform_all (calls thread c ∷ es) w m h =
      let after = step (calls thread c) w in
      let (now, may) = calls-IsPerformed thread c w m (ground arith) in
      completed-perform_all after (run es after.1).0 _ w.devices now
        (run-perform_all es after.1 may (ground arith))
  run-perform_all (acts thread ∷ es) w m h =
      let after = step (acts thread) w in
      let (now, may) = acts-IsPerformed thread w m in
      completed-perform_all after (run es after.1).0 _ w.devices now
        (run-perform_all es after.1 may h)

  -- Hardware addresses are compared by a strict weak order that answers alike every time, as the
  -- comparison of the program does if the two bytes that it leaves uninitialised hold the same in
  -- each comparison. Many threads call the repository. If no call goes on to its second half while
  -- another one on its address is between its halves, the calls have the replies that the abstract repository gives when
  -- it is called once for each, in the order of their completion, and the map ends with its entries.
  pub run-promise :
      (es : List Event) (d : Devices)
      → is_exclusive es (unshared d) ≡ true
      → let (done, w) = run es (unshared d) in
        let (replies, v) = promise_all (map call_of done) (view d) in
        (map reply_of done ≡ replies) × (view w.devices ≡ v)
  run-promise es d h =
      let done = (run es (unshared d)).0 in
      let (replies, entries) = perform_all-promise (map call_of done) d in
      let performed = run-perform_all es (unshared d) tt h in
      (ap (λ r. r.0) (sym performed) ∙ replies, ap (λ r. view r.1) (sym performed) ∙ entries)
