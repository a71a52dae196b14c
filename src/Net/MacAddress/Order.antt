-- ===== src/Net/MacAddress/Order.antt =====
-- The comparison of hardware addresses, and what the uninitialised bytes do to it.
use cpp_grcp_testground.Prelude.{ℕ, ◌≡◌, ◌↔◌, ◌⊎◌, ap, true, false, not, ◌&&◌, arith}
use cpp_grcp_testground.Prelude.Map.{Order}
use cpp_grcp_testground.Net.Bytes.{le_value, bytes_equal_iff}
use cpp_grcp_testground.Net.MacAddress.{MacAddress, IsValid, to_int, equal, less, greater}
use cpp_grcp_testground.Net.MacAddress.Conversions.{value-lt, same-value}

-- `operator<` is not determined by its arguments: for any two valid addresses, equal ones included,
-- some contents of the uninitialised bytes make it true and some make it false.
pub less_indeterminate :
    (a b : MacAddress) → IsValid a → IsValid b → (less 0 1 a b ≡ true) × (less 1 0 a b ≡ false)
unfolding less to_int
less_indeterminate a b va vb = ground (arith, value-lt a va, value-lt b vb)

pub mac_equal_iff : (a b : MacAddress) → (equal a b ≡ true) ↔ (a ≡ b)
unfolding equal
mac_equal_iff a b =
    let bytes = bytes_equal_iff a.mac_as_bytes b.mac_as_bytes in
    (
      λ e i. record { mac_as_bytes = bytes.0 e i },
      λ e. bytes.1 (ap (λ (x : MacAddress). x.mac_as_bytes) e),
    )

-- If every `toInt` finds the same contents there, exactly one of less, equal and greater holds of
-- two valid addresses.
pub mac_less_trichotomy :
    (junk : ℕ) (a b : MacAddress)
    → IsValid a
    → IsValid b
    → ((less junk junk a b ≡ true) × (equal a b ≡ false) × (greater junk junk a b ≡ false))
      ⊎ (((less junk junk a b ≡ false) × (equal a b ≡ true) × (greater junk junk a b ≡ false))
          ⊎ ((less junk junk a b ≡ false) × (equal a b ≡ false) × (greater junk junk a b ≡ true)))
unfolding less to_int
mac_less_trichotomy junk a b va vb =
    grind (arith, mac_equal_iff a b, same-value a b va vb, ap value {x = a} {y = b})
  where
    value : MacAddress → ℕ
    value mac = le_value mac.mac_as_bytes

pub less_irrefl : (junk : ℕ) (a : MacAddress) → less junk junk a a ≡ false
unfolding less
less_irrefl junk a = ground arith

pub less_trans :
    (junk : ℕ) (a b c : MacAddress)
    → less junk junk a b ≡ true
    → less junk junk b c ≡ true
    → less junk junk a c ≡ true
unfolding less
less_trans junk a b c h k = ground arith

pub same_trans :
    (junk : ℕ) (a b c : MacAddress)
    → not (less junk junk a b) && not (less junk junk b a) ≡ true
    → not (less junk junk b c) && not (less junk junk c b) ≡ true
    → not (less junk junk a c) && not (less junk junk c a) ≡ true
unfolding less
same_trans junk a b c h k = ground arith

-- The order of a `std::map` keyed by hardware addresses, with the same contents at every `toInt`.
abbrev pub mac_order : ℕ → Order MacAddress
mac_order junk = record {
  less = less junk junk;
  less_irrefl = λ a. less_irrefl junk a;
  less_trans = λ a b c. less_trans junk a b c;
  same_trans = λ a b c. same_trans junk a b c;
}
