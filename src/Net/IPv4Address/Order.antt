-- ===== src/Net/IPv4Address/Order.antt =====
-- The comparison of addresses, `isBetween` and `operator++`.
use cpp_grcp_testground.Prelude.{
  ℕ, suc, ◌+◌, ◌%◌, ◌^◌, ◌<◌, ◌≡◌, ◌↔◌, ◌⊎◌, refl, ap, true, false, ◌&&◌, ◌||◌, some, arith,
}
use cpp_grcp_testground.Util.Sequence.{Steps}
use cpp_grcp_testground.Util.Sequence.Walk.{Counts}
use cpp_grcp_testground.Net.Bytes.{bytes_equal_iff}
use cpp_grcp_testground.Net.IPv4Address.{
  IPv4Address, IsValid, to_int, equal, less, greater, is_between, post_increment,
}
use cpp_grcp_testground.Net.IPv4Address.Conversions.{
  of_number-IsValid, to_int-of_number, to_int-lt, to_int-injective,
}

pub equal_iff : (a b : IPv4Address) → (equal a b ≡ true) ↔ (a ≡ b)
unfolding equal
equal_iff a b =
    let bytes = bytes_equal_iff a.ip_as_bytes b.ip_as_bytes in
    (
      λ e i. record { ip_as_bytes = bytes.0 e i },
      λ e. bytes.1 (ap (λ (x : IPv4Address). x.ip_as_bytes) e),
    )

-- Exactly one of less, equal and greater holds of two valid addresses, and `<` is the order of
-- their numbers.
pub less_trichotomy :
    (a b : IPv4Address)
    → IsValid a
    → IsValid b
    → ((less a b ≡ true) × (to_int a < to_int b) × (equal a b ≡ false) × (greater a b ≡ false))
      ⊎ (((less a b ≡ false) × (a ≡ b) × (equal a b ≡ true) × (greater a b ≡ false))
          ⊎ ((less a b ≡ false)
              × (to_int b < to_int a)
              × (equal a b ≡ false)
              × (greater a b ≡ true)))
unfolding less
less_trichotomy a b va vb =
    grind (arith, equal_iff a b, to_int-injective a b va vb, ap to_int {x = a} {y = b})

-- Whichever bound comes first, `isBetween` calls itself at most once, and tells whether the address
-- lies strictly between the smaller and the larger bound.
pub is_between-strict :
    (calls : ℕ) (ip begin end : IPv4Address)
    → is_between (suc (suc calls)) ip begin end
      ≡ some ((less begin ip && less ip end) || (less end ip && less ip begin))
unfolding is_between less
is_between-strict calls ip begin end = ground arith

-- `operator++` returns the address as it was and leaves a valid one whose number is one larger,
-- the last address being followed by the first.
pub post_increment-to_int :
    (ip : IPv4Address)
    → IsValid ip
    → ((post_increment ip).0 ≡ ip)
      × IsValid (post_increment ip).1
      × (to_int (post_increment ip).1 ≡ (to_int ip + 1) % 2 ^ 32)
unfolding post_increment
post_increment-to_int ip v =
    (refl, of_number-IsValid _, to_int-of_number ((to_int ip + 1) % 2 ^ 32) (omega arith))

pub equal_iff_number :
    (a b : IPv4Address) → IsValid a → IsValid b → (equal a b ≡ true) ↔ (to_int a ≡ to_int b)
equal_iff_number a b va vb =
    (λ e. ap to_int ((equal_iff a b).0 e), λ e. (equal_iff a b).1 (to_int-injective a b va vb e))

-- What a range of addresses is walked by.
abbrev pub address_steps : Steps IPv4Address
address_steps = record { next = λ ip. (post_increment ip).1; equal = equal }

pub modulus_pos : 0 < 2 ^ 32
modulus_pos = omega arith

abbrev pub address_counts : Counts address_steps
address_counts = record {
  IsValid = IsValid;
  rank = to_int;
  modulus = 2 ^ 32;
  modulus_pos = modulus_pos;
  rank-lt = to_int-lt;
  next-IsValid = λ ip v. (post_increment-to_int ip v).1;
  rank-next = λ ip v. (post_increment-to_int ip v).2;
  equal_iff = equal_iff_number;
}
