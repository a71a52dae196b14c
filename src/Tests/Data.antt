-- ===== src/Tests/Data.antt =====
-- Concrete addresses, packets and states of the scanner.
use native.Mathlib.Omega.{arith}
use mathlib.Core.List.{head-eq_of_cons-eq, tail-eq_of_cons-eq}
use cpp_grcp_testground.Prelude.{
  ℕ, ◌+◌, ◌/◌, ◌%◌, ◌≡◌, ◌≢◌, refl, Bool, true, false, Option, none, some, List, [], ◌∷◌, Str, All,
}
use cpp_grcp_testground.Prelude.Map.{Order, lookup}
use cpp_grcp_testground.Prelude.Strings.{str_order}
use cpp_grcp_testground.Util.Promises.{broken}
use cpp_grcp_testground.Net.Bytes.{IsByte}
use cpp_grcp_testground.Net.Text.{Rendering}
use cpp_grcp_testground.Net.IPv4Address.{IPv4Address, IsValid, to_string}
use cpp_grcp_testground.Net.MacAddress.{MacAddress}
use cpp_grcp_testground.Net.MacAddress
use cpp_grcp_testground.Net.MacAddress.Order.{mac_order}
use cpp_grcp_testground.Net.Scanner.{
  Scanner, Request, Interface, Moment, ReceivedPacket, Frame, EthHeader, IPv4Header, ping_async,
}
use cpp_grcp_testground.Net.Scanner.Requests.{IsConsistent, ping_async-request}

-- Three decimal digits for a byte.
abbrev pub decimal : ℕ → Str
decimal b = (48 + b / 100) ∷ (48 + b / 10 % 10) ∷ (48 + b % 10) ∷ []

abbrev pub hex : ℕ → Str
hex b = (48 + b / 16) ∷ (48 + b % 16) ∷ []

decimal-no_sep : (b : ℕ) → IsByte b → All (λ c. c ≢ b'.') (decimal b)
decimal-no_sep b h = (omega arith, (omega arith, (omega arith, tt)))

decimal-injective : (a b : ℕ) → IsByte a → IsByte b → decimal a ≡ decimal b → a ≡ b
decimal-injective a b ha hb e =
    let hundreds = head-eq_of_cons-eq e in
    let tens = head-eq_of_cons-eq (tail-eq_of_cons-eq e) in
    let ones = head-eq_of_cons-eq (tail-eq_of_cons-eq (tail-eq_of_cons-eq e)) in omega arith

pub decimal-Rendering : Rendering b'.' decimal
decimal-Rendering = record { no_sep = decimal-no_sep; injective = decimal-injective }

-- 192.168.178.1, 192.168.178.5, 192.168.178.7
abbrev pub host : IPv4Address
host = record { ip_as_bytes = 1 ∷ 178 ∷ 168 ∷ 192 ∷ [] }

abbrev pub own : IPv4Address
own = record { ip_as_bytes = 5 ∷ 178 ∷ 168 ∷ 192 ∷ [] }

abbrev pub third : IPv4Address
third = record { ip_as_bytes = 7 ∷ 178 ∷ 168 ∷ 192 ∷ [] }

pub host-IsValid : IsValid host
host-IsValid = (refl, (omega arith, (omega arith, (omega arith, (omega arith, tt)))))

pub own-IsValid : IsValid own
own-IsValid = (refl, (omega arith, (omega arith, (omega arith, (omega arith, tt)))))

abbrev pub mac : MacAddress
mac = record { mac_as_bytes = 1 ∷ 2 ∷ 3 ∷ 4 ∷ 5 ∷ 255 ∷ [] }

abbrev pub other_mac : MacAddress
other_mac = record { mac_as_bytes = 9 ∷ 2 ∷ 3 ∷ 4 ∷ 5 ∷ 255 ∷ [] }

pub mac-IsValid : MacAddress.IsValid mac
mac-IsValid = (
  refl,
  (omega arith, (omega arith, (omega arith, (omega arith, (omega arith, (omega arith, tt)))))),
)

abbrev pub by_number : Order MacAddress
by_number = mac_order 0

abbrev pub iface : Interface
iface = record { ip_address = own; mac_address = mac }

abbrev pub moment : Moment
moment = record { thread_hash = 77; memory = 0; now = 1_000; timestamp = 0 }

abbrev pub idle : Scanner
idle = record {
  running = true;
  pending_requests = [];
  futures = record { next = 0; state = λ _. broken };
}

pub idle-IsConsistent : IsConsistent idle
idle-IsConsistent = record { sorted = tt; fresh = tt; distinct = tt; tracked = λ i h. refl }

-- One ping has been sent to `host`.
abbrev pub pinged : Scanner
pinged = (ping_async decimal hex iface host mac moment idle).0

pub pinged-IsConsistent : IsConsistent pinged
pinged-IsConsistent =
    (ping_async-request decimal hex iface host mac moment idle (to_string decimal host) 0
      idle-IsConsistent).0

abbrev pub request : Request
request = record { dst_ip = host; promise = 0; time = 1_000 }

pub pinged-pending : lookup (to_string decimal host) pinged.pending_requests ≡ some request
unfolding lookup to_string ping_async cpp_grcp_testground.Prelude.Map.insert
    cpp_grcp_testground.Prelude.Strings.str_less
pinged-pending = refl

abbrev pub eth_header : EthHeader
eth_header = record { source = 1 ∷ 2 ∷ 3 ∷ 4 ∷ 5 ∷ 6 ∷ []; dest = 6 ∷ 5 ∷ 4 ∷ 3 ∷ 2 ∷ 1 ∷ [] }

-- From 192.168.178.1 to 192.168.178.5, as the bytes of the packet library stand.
abbrev pub ip_header : IPv4Header
ip_header = record {
  source = 192 ∷ 168 ∷ 178 ∷ 1 ∷ [];
  dest = 192 ∷ 168 ∷ 178 ∷ 5 ∷ [];
  time_to_live = 64;
}

-- A parser that knows frames of one byte at least.
abbrev pub parse : List ℕ → Frame
parse [] = record { eth_layer = none; ipv4_layer = none }
parse (_ ∷ _) = record { eth_layer = some eth_header; ipv4_layer = some ip_header }

abbrev pub reply : ReceivedPacket
reply = record { arrival = 9_000_000; bytes = 1 ∷ [] }

abbrev pub noise : ReceivedPacket
noise = record { arrival = 9_000_000; bytes = [] }
