-- ===== src/Discovery/App/Demonstration/Lines.antt =====
-- What the demonstrations of the program log.
use cpp_grcp_testground.Prelude.{
  ℕ, suc, ◌≡◌, refl, none, some, List, [], ◌∷◌, ◌++◌, map, Str, ok, err, ErrorType,
  invalid_argument, ◌⊎◌, inl, inr, ap, ◌∙◌,
}
use cpp_grcp_testground.Prelude.Strings.{codes}
use cpp_grcp_testground.Util.Enum.{EnumLibrary}
use cpp_grcp_testground.Util.Logger.Debugging.{comma_join}
use cpp_grcp_testground.Util.Sequence.{visit, to, range_of}
use cpp_grcp_testground.Net.IPv4Address
use cpp_grcp_testground.Net.IPv4Address.{IPv4Address}
use cpp_grcp_testground.Net.IPv4Address.Order.{address_steps}
use cpp_grcp_testground.Snmp.Values.{Library}
use cpp_grcp_testground.Snmp.Oids.{OidType}
use cpp_grcp_testground.Discovery.App.SetUp.{and_then}
use cpp_grcp_testground.Discovery.App.Demonstration.{
  Formats, demonstrate, demonstrate_with, address_range, int_ranges, between, parsed_address,
  address_text, oid_lines, address_lines, mac_lines, argument_lines, indexed_lines,
}

-- Fuel for the longest range that is logged and one round more, and `fuel` above it.
abbrev pub six_more : ℕ → ℕ
six_more fuel = suc (suc (suc (suc (suc (suc fuel)))))

module _ (f : Formats) where
  -- The address 192.168.178.k.
  abbrev pub neighbour : ℕ → IPv4Address
  neighbour k = record { ip_as_bytes = k ∷ 178 ∷ 168 ∷ 192 ∷ [] }

  neighbours :
      (fuel : ℕ)
      → to address_steps (six_more fuel) (range_of address_steps (neighbour 1) (neighbour 5))
        ≡ some (neighbour 1 ∷ neighbour 2 ∷ neighbour 3 ∷ neighbour 4 ∷ [])
  unfolding to visit IPv4Address.equal IPv4Address.post_increment
  neighbours fuel = refl

  read-parsed :
      (text : Str) (k : ℕ)
      → f.make_address_v4 text ≡ some (192 ∷ 168 ∷ 178 ∷ k ∷ [])
      → parsed_address f text ≡ ok (neighbour k)
  unfolding IPv4Address.parse_text
  read-parsed text k read = rw (read, IPv4Address.parse_text) refl

  refused-parsed :
      (text : Str) → f.make_address_v4 text ≡ none → parsed_address f text ≡ err invalid_argument
  unfolding IPv4Address.parse_text
  refused-parsed text refused = rw (refused, IPv4Address.parse_text) refl

  address_range-lines :
      (fuel : ℕ)
      → f.make_address_v4 (codes "192.168.178.1") ≡ some (192 ∷ 168 ∷ 178 ∷ 1 ∷ [])
      → f.make_address_v4 (codes "192.168.178.5") ≡ some (192 ∷ 168 ∷ 178 ∷ 5 ∷ [])
      → address_range f (six_more fuel)
        ≡ some (map (address_text f) (neighbour 1 ∷ neighbour 2 ∷ neighbour 3 ∷ neighbour 4 ∷ []))
  unfolding address_range
  address_range-lines fuel first last =
      let begin = read-parsed (codes "192.168.178.1") 1 first in
      let end = read-parsed (codes "192.168.178.5") 5 last in
      (λ i. between f (six_more fuel) (begin i) (end i))
      ∙ ap (λ ips. and_then ips (λ ips. some (map (address_text f) ips))) (neighbours fuel)

  int_ranges-lines :
      (fuel : ℕ)
      → int_ranges f (six_more fuel)
        ≡ some (
            comma_join (map f.decimal (1 ∷ 2 ∷ 3 ∷ 4 ∷ []))
            ∷ comma_join (map f.decimal (1 ∷ 2 ∷ 3 ∷ 4 ∷ 5 ∷ []))
            ∷ comma_join (map f.decimal (2 ∷ 3 ∷ 4 ∷ []))
            ∷ [])
  unfolding int_ranges to visit
  int_ranges-lines fuel = refl

  -- The lines of `demonstrate`.
  unfoldable pub shown : Library → EnumLibrary OidType → List (Str × Str) → List Str
  shown lib types args =
      oid_lines f lib types
      ++ (address_lines f
          ++ (mac_lines f
              ++ (argument_lines f args
                  ++ (indexed_lines f
                      ++ (map (address_text f)
                            (neighbour 1 ∷ neighbour 2 ∷ neighbour 3 ∷ neighbour 4 ∷ [])
                          ++ map (λ numbers. comma_join (map f.decimal numbers))
                              ((1 ∷ 2 ∷ 3 ∷ 4 ∷ [])
                                ∷ (1 ∷ 2 ∷ 3 ∷ 4 ∷ 5 ∷ [])
                                ∷ (2 ∷ 3 ∷ 4 ∷ [])
                                ∷ []))))))

  -- Where the network library reads the two texts of the range of addresses as the dotted numbers that
  -- they are, the demonstrations come to their end: they log the lines of the parts in their order, of
  -- the range the four addresses before its end, and of the three ranges of numbers 1 to 4, 1 to 5 and
  -- 2 to 4, with fuel for the longest range and one round more.
  pub demonstrate-shown :
      (fuel : ℕ) (lib : Library) (types : EnumLibrary OidType) (args : List (Str × Str))
      → f.make_address_v4 (codes "192.168.178.1") ≡ some (192 ∷ 168 ∷ 178 ∷ 1 ∷ [])
      → f.make_address_v4 (codes "192.168.178.5") ≡ some (192 ∷ 168 ∷ 178 ∷ 5 ∷ [])
      → demonstrate f (six_more fuel) lib types args ≡ some (shown lib types args)
  unfolding demonstrate shown
  demonstrate-shown fuel lib types args first last = λ i.
      demonstrate_with f lib types args (address_range-lines fuel first last i)
        (int_ranges-lines fuel i)

  between-refused :
      (fuel : ℕ) (begin : IPv4Address.Parsed) (e : ErrorType) → between f fuel begin (err e) ≡ none
  between-refused fuel (ok begin) e = refl
  between-refused fuel (err e') e = refl

  -- If the network library refuses one of the two texts, an error is dereferenced.
  pub demonstrate-refused :
      (fuel : ℕ) (lib : Library) (types : EnumLibrary OidType) (args : List (Str × Str))
      → (f.make_address_v4 (codes "192.168.178.1") ≡ none)
        ⊎ (f.make_address_v4 (codes "192.168.178.5") ≡ none)
      → demonstrate f fuel lib types args ≡ none
  unfolding demonstrate address_range
  demonstrate-refused fuel lib types args (inl refused) =
      ap
        (λ begin.
          demonstrate_with f lib types args
            (between f fuel begin (parsed_address f (codes "192.168.178.5"))) (int_ranges f fuel))
        (refused-parsed (codes "192.168.178.1") refused)
  demonstrate-refused fuel lib types args (inr refused) =
      ap
        (λ end.
          demonstrate_with f lib types args
            (between f fuel (parsed_address f (codes "192.168.178.1")) end) (int_ranges f fuel))
        (refused-parsed (codes "192.168.178.5") refused)
      ∙ ap (λ range. demonstrate_with f lib types args range (int_ranges f fuel))
          (between-refused fuel (parsed_address f (codes "192.168.178.1")) invalid_argument)
