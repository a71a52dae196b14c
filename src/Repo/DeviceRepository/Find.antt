-- ===== src/Repo/DeviceRepository/Find.antt =====
-- The searches of the repository: `findBy`, `find`, `contains` and `iterate`.
use mathlib.Core.List.{foldl}
use cpp_grcp_testground.Prelude.{
  ◌≡◌, ◌⊎◌, inl, inr, refl, ap, sym, ◌∙◌, map, Bool, true, false, List, [], ◌∷◌, ◌++◌, ok, err, All,
  Bool-cases,
}
use cpp_grcp_testground.Prelude.ErrorType.{not_found}
use cpp_grcp_testground.Models.Device.{Device}
use cpp_grcp_testground.Net.IPv4Address.{IPv4Address, equal}
use cpp_grcp_testground.Net.IPv4Address.Order.{equal_iff}
use cpp_grcp_testground.Net.MacAddress.{MacAddress}
use cpp_grcp_testground.Repo.DeviceRepository.{
  DevicePtr, Devices, Store, find_by, find, contains, iterate, break_loop, continue_loop,
}

-- No device among the entries is accepted.
abbrev pub Rejects : (Device → Bool) → Store → Devices → Type 0
Rejects func store = All (λ entry. func (store entry.1) ≡ false)

-- `findBy` either reports that no device is accepted, and none is, or gives the pointer of the first
-- entry whose device is; `contains` answers which of the two it is.
pub find_by-first :
    (func : Device → Bool) (store : Store) (d : Devices)
    → ((find_by func store d ≡ err not_found)
        × (contains func store d ≡ false)
        × Rejects func store d)
      ⊎ ((before : Devices) × (after : Devices) × (mac : MacAddress) × (p : DevicePtr) × (find_by
              func store d
            ≡ ok p)
          × (contains func store d ≡ true)
          × (d ≡ before ++ ((mac, p) ∷ after))
          × (func (store p) ≡ true)
          × Rejects func store before)
unfolding find_by contains
find_by-first func store [] = inl (refl, refl, tt)
find_by-first func store ((mac, p) ∷ d) = elim (Bool-cases (func (store p))) [
  | inl hit ↦ inr ([], d, mac, p, rw hit, rw hit, refl, hit, tt)
  | inr miss ↦ elim (find_by-first func store d) [
    | inl (e, c, r) ↦ inl (rw miss e, rw miss c, (miss, r))
    | inr (before, after, m, q, e, c, s, hit, r) ↦ inr (
      (mac, p) ∷ before,
      after,
      m,
      q,
      rw miss e,
      rw miss c,
      ap (λ (l : Devices). (mac, p) ∷ l) s,
      hit,
      (miss, r),
    )
  ]
]

-- A device that `find` gives has the address that was looked for.
pub find-address :
    (ip : IPv4Address) (store : Store) (d : Devices) (p : DevicePtr)
    → find ip store d ≡ ok p
    → (store p).ip_address ≡ ip
unfolding find
find-address ip store d p e = elim (find_by-first (λ device. equal device.ip_address ip) store d) [
  | inl (missing, _, _) ↦ cc
  | inr (before, after, m, q, hit, _, _, same, _) ↦
      let here : q ≡ p = cc in
      ap (λ (x : DevicePtr). (store x).ip_address) (sym here)
      ∙ (equal_iff (store q).ip_address ip).0 same
]

abbrev pub first_only {ℓ} : {S : Type ℓ} → (S → Device → S) → S → List Device → S
first_only func s [] = s
first_only func s (device ∷ _) = func s device

-- A loop whose callback never asks to stop sees every device, in the order of the keys; one whose
-- callback stops at once sees the first device only.
pub iterate-order {ℓ} :
    {S : Type ℓ} (func : S → Device → S) (store : Store) (d : Devices) (s : S)
    → (iterate (λ t device. (func t device, continue_loop)) store d s
        ≡ foldl func s (map (λ (entry : MacAddress × DevicePtr). store entry.1) d))
      × (iterate (λ t device. (func t device, break_loop)) store d s
          ≡ first_only func s (map (λ (entry : MacAddress × DevicePtr). store entry.1) d))
unfolding iterate
iterate-order func store [] s = (refl, refl)
iterate-order func store ((mac, p) ∷ d) s =
    ((iterate-order func store d (func s (store p))).0, refl)
