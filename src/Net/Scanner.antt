-- ===== src/Net/Scanner.antt =====
-- core/core/net/scanner: the ICMP scanner (IcmpScanner.h, IcmpScanner.cpp) and the task that polls
-- it (IScanner.h).
--
-- A promise is known by its number in the store of futures. The arguments of the section are what
-- the scanner calls: `decimal` and `hex` write a byte, and `parse` is the packet library's parser.
pub mod Requests
pub mod Timeouts
pub mod Polling
pub mod Settling
pub mod Lifetime
use cpp_grcp_testground.Prelude.{
  ℕ, ◌+◌, Bool, true, false, not, Option, none, some, List, [], ◌∷◌, if◌then◌else◌, Str, ErrorType,
  Result, ok, err,
}
use cpp_grcp_testground.Prelude.ErrorType.{timed_out}
use cpp_grcp_testground.Prelude.Map.{Map, lookup, has, insert, erase}
use cpp_grcp_testground.Prelude.Strings.{str_order}
use cpp_grcp_testground.Util.Promises.{
  Promises, make_promise, set_value, drop_promise, displace, assign,
}
use cpp_grcp_testground.Models.Time.{Milliseconds, milliseconds_between, has_passed}
use cpp_grcp_testground.Net.IPv4Address.{IPv4Address, from_pcpp, to_string}
use cpp_grcp_testground.Net.MacAddress.{MacAddress, broadcast}
use cpp_grcp_testground.Net.MacAddress
use cpp_grcp_testground.Net.Packet.{
  Packet, Layer, eth, ipv4, icmp, add_layer, create_eth, with_src_mac, with_dst_mac, create_ipv4,
  with_src_ip, with_dst_ip, with_id, with_time_to_live, create_icmp, with_icmp_id, with_sequence,
  with_timestamp, with_payload,
}
use cpp_grcp_testground.Async.Task.{Continuation, run_again, end_task, run_again_delayed}

pub record IcmpResponse : Type 0 where
  pub src_ip : IPv4Address
  pub dst_ip : IPv4Address
  pub src_mac : MacAddress
  pub dst_mac : MacAddress
  pub ttl : ℕ
  pub response_time : Milliseconds

pub record IcmpError : Type 0 where
  pub dst_ip : IPv4Address
  pub error : ErrorType

abbrev pub PingResult : Type 0
PingResult = Result IcmpResponse IcmpError

-- A request that waits for its reply: the address, the number of its promise and the time of sending.
pub record Request : Type 0 where
  pub dst_ip : IPv4Address
  pub promise : ℕ
  pub time : ℕ

abbrev pub promise_of : Request → ℕ
promise_of r = r.promise

-- `v2::ReceivedPacket`
pub record ReceivedPacket : Type 0 where
  pub arrival : ℕ
  pub bytes : List ℕ

-- What the packet library's parser finds: the bytes of the addresses of each layer that is there.
pub record EthHeader : Type 0 where
  pub source : List ℕ
  pub dest : List ℕ

pub record IPv4Header : Type 0 where
  pub source : List ℕ
  pub dest : List ℕ
  pub time_to_live : ℕ

pub record Frame : Type 0 where
  pub eth_layer : Option EthHeader
  pub ipv4_layer : Option IPv4Header

-- The interface that the scanner sends from.
pub record Interface : Type 0 where
  pub ip_address : IPv4Address
  pub mac_address : MacAddress

pub record Scanner : Type 0 where
  pub running : Bool
  pub pending_requests : Map Str Request
  pub futures : Promises PingResult

-- What a thread knows of itself and of the time when it pings: the hash of its id, what the memory of
-- a new layer builder held, `now` in nanoseconds and the timestamp in milliseconds.
pub record Moment : Type 0 where
  pub thread_hash : ℕ
  pub memory : ℕ
  pub now : ℕ
  pub timestamp : ℕ

unfoldable pub has_pending_requests : Scanner → Bool
has_pending_requests s = elim s.pending_requests [ [] ↦ false | _ ∷ _ ↦ true ]

-- The response that is made of the headers of a frame.
abbrev pub response_from : ℕ → EthHeader → IPv4Header → Request → IcmpResponse
response_from arrival e i request = record {
  src_ip = from_pcpp i.source;
  dst_ip = from_pcpp i.dest;
  src_mac = MacAddress.from_pcpp e.source;
  dst_mac = MacAddress.from_pcpp e.dest;
  ttl = i.time_to_live;
  response_time = milliseconds_between arrival request.time;
}

-- The pending request of the sender, if there is one, is answered and erased.
abbrev pub respond : Str → (Request → IcmpResponse) → Option Request → Scanner → Scanner
respond key response none s = s
respond key response (some request) s = record s {
  pending_requests = erase key s.pending_requests;
  futures = set_value request.promise (ok (response request)) s.futures;
}

module _ (decimal : ℕ → Str) where
  -- The echo request that `pingAsync` sends; `htons(2000)` swaps the two bytes.
  unfoldable pub echo_request : (ℕ → Str) → Interface → IPv4Address → MacAddress → Moment → Packet
  echo_request hex iface host mac m =
      let frame =
        with_dst_mac (with_src_mac create_eth (MacAddress.to_string hex iface.mac_address))
          (MacAddress.to_string hex mac) in
      let ip =
        with_time_to_live
          (with_id
            (with_dst_ip (with_src_ip create_ipv4 (to_string decimal iface.ip_address))
              (to_string decimal host))
            0xD007)
          64 in
      let echo =
        with_payload
          (with_timestamp (with_sequence (with_icmp_id (create_icmp m.memory) m.thread_hash) 0)
            m.timestamp)
          (b'W' ∷ b'H' ∷ b'A' ∷ b'T' ∷ []) in
      add_layer (add_layer (add_layer [] (eth frame)) (ipv4 ip)) (icmp echo)

  -- `pingAsync`: the packet goes out, whether sending it succeeds is only logged, and the request is
  -- entered under the text of the address. The future that is returned has the number
  -- `s.futures.next`.
  unfoldable pub ping_async :
      (ℕ → Str) → Interface → IPv4Address → MacAddress → Moment → Scanner → Scanner × Packet
  ping_async hex iface host mac m s =
      let request : Request = record { dst_ip = host; promise = s.futures.next; time = m.now } in
      let entered =
        assign promise_of (to_string decimal host) request s.pending_requests
          (make_promise s.futures) in
      (
        record s { pending_requests = entered.0; futures = entered.1 },
        echo_request hex iface host mac m,
      )

  -- `pingAsync(host)`
  unfoldable pub ping_async_broadcast :
      (ℕ → Str) → Interface → IPv4Address → Moment → Scanner → Scanner × Packet
  ping_async_broadcast hex iface host m s = ping_async hex iface host broadcast m s

  abbrev pub receive : ℕ → Option EthHeader → Option IPv4Header → Scanner → Scanner
  receive arrival none ip s = s
  receive arrival (some e) none s = s
  receive arrival (some e) (some i) s =
      let key = to_string decimal (from_pcpp i.source) in
      respond key (response_from arrival e i) (lookup key s.pending_requests) s

  -- `onPacketReceived`
  unfoldable pub on_packet_received : (List ℕ → Frame) → ReceivedPacket → Scanner → Scanner
  on_packet_received parse packet s =
      let frame = parse packet.bytes in receive packet.arrival frame.eth_layer frame.ipv4_layer s

-- The loop of `handleTimeouts` over the requests that are left to look at: one that was sent five
-- seconds ago or earlier is answered with an error and erased.
unfoldable pub sweep : ℕ → Map Str Request → Scanner → Scanner
sweep now [] s = s
sweep now ((key, request) ∷ rest) s = elim (has_passed now request.time 5) [
  | true ↦ sweep now rest (record s {
    pending_requests = erase key s.pending_requests;
    futures =
        set_value request.promise (err (record { dst_ip = request.dst_ip; error = timed_out }))
          s.futures;
  })
  | false ↦ sweep now rest s
]

unfoldable pub handle_timeouts : ℕ → Scanner → Scanner
handle_timeouts now s = sweep now s.pending_requests s

-- The synchronous `ping` after its wait of five seconds: `operator[]` enters a default request where
-- none is left, and `erase` destroys the request with its promise. The error is then built from the
-- destroyed request: what is read there is the argument `freed`.
unfoldable pub ping_timed_out :
    (ℕ → Str) → IPv4Address → IPv4Address → Scanner → Scanner × PingResult
ping_timed_out decimal freed host s =
    let key = to_string decimal host in
    let error : IcmpError = record { dst_ip = freed; error = timed_out } in
    (
      record s {
        pending_requests = erase key s.pending_requests;
        futures = displace promise_of (lookup key s.pending_requests) s.futures;
      },
      err error,
    )

unfoldable pub start_scanning : Scanner → Scanner
start_scanning s = record s { running = true }

unfoldable pub stop_scanning : Scanner → Scanner
stop_scanning s = record s { running = false }

module _ (decimal : ℕ → Str) (parse : List ℕ → Frame) where
  -- The run, given whether the scanner is running and whether requests are pending.
  abbrev pub listen :
      ℕ
      → Bool
      → Bool
      → List ReceivedPacket
      → Scanner
      → (Scanner × List ReceivedPacket) × Continuation
  listen now false pending packets s = ((s, packets), end_task)
  listen now true false packets s = ((s, packets), run_again_delayed 1000)
  listen now true true [] s = ((handle_timeouts now s, []), run_again_delayed 100)
  listen now true true (packet ∷ rest) s =
      ((on_packet_received decimal parse packet s, rest), run_again)

  -- One run of the task that polls the scanner. The listener hands out the packets of the list in
  -- turn; what it has left is returned too.
  unfoldable pub poll :
      ℕ → List ReceivedPacket → Scanner → (Scanner × List ReceivedPacket) × Continuation
  poll now packets s = listen now s.running (has_pending_requests s) packets s
