-- ===== src/Repo/DeviceRepository/Contract.antt =====
-- What a repository promises (core/core/repo/Repository.h): the calls on it, and the replies and
-- entries of an abstract repository; and the device repository as one thread uses it.
use mathlib.Core.Path.{fun_ext, ap₂}
use cpp_grcp_testground.Prelude.{
  ◌≡◌, refl, ap, ◌∙◌, Bool, true, false, Option, none, some, List, [], ◌∷◌, if◌then◌else◌,
  ErrorType, Result, ok, err, arith,
}
use cpp_grcp_testground.Prelude.ErrorType.{not_found}
use cpp_grcp_testground.Prelude.Map.{
  Order, same, lookup, lookup-insert, lookup-erase, IsSorted, insert-IsSorted, erase-IsSorted,
}
use cpp_grcp_testground.Prelude.Map
use cpp_grcp_testground.Net.MacAddress.{MacAddress}
use cpp_grcp_testground.Repo.DeviceRepository.{
  DevicePtr, Devices, has, create, create_act, read, update, update_act, remove, remove_act,
}

pub data Call : Type 0 where
  create_call update_call : MacAddress → DevicePtr → Call
  read_call remove_call has_call : MacAddress → Call

pub data Reply : Type 0 where
  answer : Bool → Reply
  item : Result DevicePtr ErrorType → Reply
  thrown : Reply

-- The abstract repository: which device each address has, if any.
abbrev pub View : Type 0
View = MacAddress → Option DevicePtr

abbrev pub is_present : Option DevicePtr → Bool
is_present none = false
is_present (some _) = true

abbrev pub found : Option DevicePtr → Result DevicePtr ErrorType
found none = err not_found
found (some p) = ok p

module _ ⦃o : Order MacAddress⦄ where
  abbrev pub with_entry : MacAddress → Option DevicePtr → View → View
  with_entry mac entry v k = if same k mac then entry else v k

  -- The promise: `create` wants the address to be absent, `update` and `remove` want it present;
  -- otherwise they answer false and change nothing.
  abbrev pub promise : Call → View → Reply × View
  promise (create_call mac p) v =
      if is_present (v mac) then (answer false, v) else (answer true, with_entry mac (some p) v)
  promise (update_call mac p) v =
      if is_present (v mac) then (answer true, with_entry mac (some p) v) else (answer false, v)
  promise (read_call mac) v = (item (found (v mac)), v)
  promise (remove_call mac) v =
      if is_present (v mac) then (answer true, with_entry mac none v) else (answer false, v)
  promise (has_call mac) v = (answer (is_present (v mac)), v)

  -- The method that a call names.
  unfoldable pub perform : Call → Devices → Reply × Devices
  perform (create_call mac p) d = let (b, d') = create mac p d in (answer b, d')
  perform (update_call mac p) d = elim (update mac p d) [
    | none ↦ (thrown, d)
    | some (b, d') ↦ (answer b, d')
  ]
  perform (read_call mac) d = (item (read mac d), d)
  perform (remove_call mac) d = let (b, d') = remove mac d in (answer b, d')
  perform (has_call mac) d = (answer (has mac d), d)

  abbrev pub view : Devices → View
  view d k = lookup k d

  -- Every method answers as promised, changes the entry that it should and no other, and throws
  -- nothing; the entries stay in the order of their keys.
  pub perform-promise :
      (c : Call) (d : Devices)
      → ((perform c d).0 ≡ (promise c (view d)).0)
        × ((k : MacAddress) → lookup k (perform c d).1 ≡ (promise c (view d)).1 k)
        × (IsSorted d → IsSorted (perform c d).1)
  unfolding perform create create_act read update update_act remove remove_act has Map.has
  perform-promise (create_call mac p) d = (
    ground arith,
    λ k. ground (arith, lookup-insert k mac p d),
    λ s. ground (arith, insert-IsSorted mac p d s),
  )
  perform-promise (update_call mac p) d = (
    ground arith,
    λ k. ground (arith, lookup-insert k mac p d),
    λ s. ground (arith, insert-IsSorted mac p d s),
  )
  perform-promise (read_call mac) d = (ground arith, λ k. refl, λ s. s)
  perform-promise (remove_call mac) d = (
    ground arith,
    λ k. ground (arith, lookup-erase k mac d),
    λ s. ground (arith, erase-IsSorted mac d s),
  )
  perform-promise (has_call mac) d = (ground arith, λ k. refl, λ s. s)

  -- A sequence of calls, with the replies.
  abbrev pub perform_all : List Call → Devices → List Reply × Devices
  perform_all [] d = ([], d)
  perform_all (c ∷ cs) d =
      let (r, d') = perform c d in let (rs, d'') = perform_all cs d' in (r ∷ rs, d'')

  abbrev pub promise_all : List Call → View → List Reply × View
  promise_all [] v = ([], v)
  promise_all (c ∷ cs) v =
      let (r, v') = promise c v in let (rs, v'') = promise_all cs v' in (r ∷ rs, v'')

  -- Where hardware addresses are compared by a strict weak order that answers alike every time, as the
  -- comparison of the program does if the two bytes that it leaves uninitialised hold the same in each
  -- comparison, any sequence of calls, made by one thread, gets the replies that the abstract
  -- repository gives, no exception among them, and ends with the entries that it has.
  pub perform_all-promise :
      (cs : List Call) (d : Devices)
      → ((perform_all cs d).0 ≡ (promise_all cs (view d)).0)
        × (view (perform_all cs d).1 ≡ (promise_all cs (view d)).1)
  perform_all-promise [] d = (refl, refl)
  perform_all-promise (c ∷ cs) d =
      let (reply, entries, _) = perform-promise c d in
      let after = fun_ext entries in
      let (replies, final) = perform_all-promise cs (perform c d).1 in
      (
        ap₂ ◌∷◌ reply (replies ∙ ap (λ v. (promise_all cs v).0) after),
        final ∙ ap (λ v. (promise_all cs v).1) after,
      )
