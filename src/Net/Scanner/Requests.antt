-- ===== src/Net/Scanner/Requests.antt =====
-- The requests of the scanner and the futures that were handed out for them.
use cpp_grcp_testground.Prelude.{
  ℕ, ◌≡◌, ◌⊎◌, ◌==◌, refl, none, some, List, if◌then◌else◌, Str, ok, arith,
}
use cpp_grcp_testground.Prelude.Map.{same, lookup, lookup-insert, lookup-erase, lookup-erase_self}
use cpp_grcp_testground.Prelude.Strings.{str_order}
use cpp_grcp_testground.Util.Promises.{waiting, broken, ready, owner_is}
use cpp_grcp_testground.Util.Promises.Tracking.{Tracks}
use cpp_grcp_testground.Util.Promises.Keeping.{
  assign-Tracks, set_value-Tracks, release-Tracks, lookup-waits, assign-state,
}
use cpp_grcp_testground.Net.IPv4Address.{IPv4Address, from_pcpp, to_string}
use cpp_grcp_testground.Net.MacAddress.{MacAddress}
use cpp_grcp_testground.Net.Scanner.{
  Scanner, Request, promise_of, Interface, Moment, Frame, EthHeader, IPv4Header, ReceivedPacket,
  ping_async, on_packet_received, response_from, respond, ping_timed_out,
}

-- The requests and the futures agree: the futures that wait are those of the pending requests.
abbrev pub IsConsistent : Scanner → Type 0
IsConsistent s = Tracks promise_of s.pending_requests s.futures

module _ (decimal : ℕ → Str) where
  -- A ping keeps requests and futures in agreement. Its request is pending under the address, in the
  -- place of an earlier one, and every other request stays; the future that it returns waits, the
  -- future of the earlier request is broken, and every other future stays.
  pub ping_async-request :
      (hex : ℕ → Str) (iface : Interface) (host : IPv4Address) (mac : MacAddress) (m : Moment)
      (s : Scanner) (k : Str) (j : ℕ)
      → IsConsistent s
      → let s' = (ping_async decimal hex iface host mac m s).0 in
        let key = to_string decimal host in
        let request : Request = record { dst_ip = host; promise = s.futures.next; time = m.now } in
        IsConsistent s'
        × (lookup k s'.pending_requests
            ≡ (if same k key then some request else lookup k s.pending_requests))
        × (s'.futures.state j ≡ (
            if j == s.futures.next
            then waiting
            else if owner_is promise_of (lookup key s.pending_requests) j
            then broken
            else s.futures.state j))
  unfolding ping_async
  ping_async-request hex iface host mac m s k j c =
      let key = to_string decimal host in
      let request : Request = record { dst_ip = host; promise = s.futures.next; time = m.now } in
      (
        assign-Tracks promise_of s.pending_requests s.futures key request c refl,
        lookup-insert k key request s.pending_requests,
        assign-state promise_of s.pending_requests s.futures key j c,
      )

  on_packet_received-respond :
      (parse : List ℕ → Frame) (packet : ReceivedPacket) (e : EthHeader) (i : IPv4Header)
      (request : Request) (s : Scanner)
      → (parse packet.bytes).eth_layer ≡ some e
      → (parse packet.bytes).ipv4_layer ≡ some i
      → lookup (to_string decimal (from_pcpp i.source)) s.pending_requests ≡ some request
      → on_packet_received decimal parse packet s
        ≡ respond
            (to_string decimal (from_pcpp i.source))
            (response_from packet.arrival e i)
            (some request)
            s
  unfolding on_packet_received
  on_packet_received-respond parse packet e i request s pe pi pending = ground arith

  -- A frame from an address with a pending request answers that request: its future, and no other,
  -- gets the response, and the request, and no other, is taken out.
  pub on_packet_received-answers :
      (parse : List ℕ → Frame) (packet : ReceivedPacket) (e : EthHeader) (i : IPv4Header)
      (request : Request) (s : Scanner) (k : Str) (j : ℕ)
      → IsConsistent s
      → (parse packet.bytes).eth_layer ≡ some e
      → (parse packet.bytes).ipv4_layer ≡ some i
      → lookup (to_string decimal (from_pcpp i.source)) s.pending_requests ≡ some request
      → let s' = on_packet_received decimal parse packet s in
        let key = to_string decimal (from_pcpp i.source) in
        IsConsistent s'
        × (lookup k s'.pending_requests
            ≡ (if same k key then none else lookup k s.pending_requests))
        × (s'.futures.state j ≡ (
            if j == request.promise
            then ready (ok (response_from packet.arrival e i request))
            else s.futures.state j))
  on_packet_received-answers parse packet e i request s k j c pe pi pending =
      let key = to_string decimal (from_pcpp i.source) in
      let waited = lookup-waits promise_of s.pending_requests s.futures key request c pending in
      let answer = ok (response_from packet.arrival e i request) in
      rw (on_packet_received-respond parse packet e i request s pe pi pending) (
        set_value-Tracks promise_of s.pending_requests s.futures key request answer c pending,
        lookup-erase k key s.pending_requests,
        ground arith,
      )

  -- A frame without both layers, and one from an address with no pending request, change nothing.
  pub on_packet_received-ignores :
      (parse : List ℕ → Frame) (packet : ReceivedPacket) (s : Scanner)
      → ((parse packet.bytes).eth_layer ≡ none)
        ⊎ (((parse packet.bytes).ipv4_layer ≡ none)
            ⊎ ((i : IPv4Header) × ((parse packet.bytes).ipv4_layer ≡ some i)
                × (lookup (to_string decimal (from_pcpp i.source)) s.pending_requests ≡ none)))
      → on_packet_received decimal parse packet s ≡ s
  unfolding on_packet_received
  on_packet_received-ignores parse packet s h = ground arith

  -- A synchronous ping that has timed out leaves requests and futures in agreement, with no request
  -- for its address.
  pub ping_timed_out-erases :
      (freed host : IPv4Address) (s : Scanner)
      → IsConsistent s
      → let s' = (ping_timed_out decimal freed host s).0 in
        IsConsistent s' × (lookup (to_string decimal host) s'.pending_requests ≡ none)
  unfolding ping_timed_out
  ping_timed_out-erases freed host s c =
      let key = to_string decimal host in
      (
        release-Tracks promise_of s.pending_requests s.futures key c,
        lookup-erase_self key s.pending_requests,
      )
