-- ===== src/Net/Socket/Polling.antt =====
-- core/core/net/scanner/IScanner.h: the polling task of the scanner on the listener of its socket.
use cpp_grcp_testground.Prelude.{
  ℕ, ◌≤◌, ◌≡◌, refl, ap, Bool, true, false, Option, none, some, List, [], ◌∷◌, Str, length, ◌==◌,
  if◌then◌else◌, ok, ◌∙◌,
}
use cpp_grcp_testground.Prelude.Map.{lookup, same}
use cpp_grcp_testground.Prelude.Strings.{str_order}
use cpp_grcp_testground.Util.Promises.{ready}
use cpp_grcp_testground.Async.Task.{Continuation, run_again, end_task, run_again_delayed}
use cpp_grcp_testground.Net.IPv4Address.{to_string, from_pcpp}
use cpp_grcp_testground.Net.Scanner.{
  Scanner, Request, ReceivedPacket, Frame, EthHeader, IPv4Header, has_pending_requests,
  handle_timeouts, on_packet_received, listen, poll, response_from,
}
use cpp_grcp_testground.Net.Scanner.Requests.{IsConsistent, on_packet_received-answers}
use cpp_grcp_testground.Net.Socket.{StreamBuffer, SpscQueue}
use cpp_grcp_testground.Net.Socket.Listener.{Listener, max_buffer_size, next_received_packet}
use cpp_grcp_testground.Net.Socket.Listener.History.{
  arrived, happen, happen-Refines, IsListening, Refines,
}

module _ {ℓ κ} {B : Type ℓ} {Q : Type κ} (io : StreamBuffer B) (queue : SpscQueue ReceivedPacket Q)
    (decimal : ℕ → Str) (parse : List ℕ → Frame) where
  -- What the task does with the answer of the listener.
  abbrev pub take_packet :
      ℕ → Option ReceivedPacket → Listener B Q → Scanner → (Scanner × Listener B Q) × Continuation
  take_packet now none l s = ((handle_timeouts now s, l), run_again_delayed 100)
  take_packet now (some packet) l s = ((on_packet_received decimal parse packet s, l), run_again)

  abbrev pub attend :
      ℕ → Bool → Bool → Listener B Q → Scanner → (Scanner × Listener B Q) × Continuation
  attend now false pending l s = ((s, l), end_task)
  attend now true false l s = ((s, l), run_again_delayed 1000)
  attend now true true l s =
      let answer = next_received_packet io queue l in take_packet now answer.0 answer.1 s

  -- `PingResolver::run`
  unfoldable pub poll_socket : ℕ → Listener B Q → Scanner → (Scanner × Listener B Q) × Continuation
  poll_socket now l s = attend now s.running (has_pending_requests s) l s

  -- The scanner, the packets that wait and the answer after a run on a listener are those after a run
  -- on a list of packets.
  abbrev Polls :
      (Scanner × Listener B Q) × Continuation
      → (Scanner × List ReceivedPacket) × Continuation
      → Type 0
  Polls real spec =
      (real.0.0 ≡ spec.0.0)
      × ((queue.contents real.0.1.packet_buffer ≡ spec.0.1) × (real.1 ≡ spec.1))

  take-Polls :
      (now : ℕ) (packets : List ReceivedPacket) (l : Listener B Q) (s : Scanner)
      → queue.contents l.packet_buffer ≡ packets
      → let answer = next_received_packet io queue l in
        Polls (take_packet now answer.0 answer.1 s) (listen decimal parse now true true packets s)
  unfolding next_received_packet
  take-Polls now [] l s e =
      rw (queue.pop_empty l.packet_buffer e)
        (refl, (queue.pop_empty_contents l.packet_buffer e, refl))
  take-Polls now (packet ∷ rest) l s e =
      rw (queue.pop_first packet rest l.packet_buffer e)
        (refl, (queue.pop_rest packet rest l.packet_buffer e, refl))

  attend-Polls :
      (now : ℕ) (running pending : Bool) (l : Listener B Q) (s : Scanner)
      → Polls
          (attend now running pending l s)
          (listen decimal parse now running pending (queue.contents l.packet_buffer) s)
  attend-Polls now false pending l s = (refl, (refl, refl))
  attend-Polls now true false l s = (refl, (refl, refl))
  attend-Polls now true true l s = take-Polls now (queue.contents l.packet_buffer) l s refl

  -- A run of the polling task on a listener is a run on the list of the packets that wait there: it
  -- leaves the same scanner and the packets that are left of the list, and asks for the same run.
  poll_socket-Polls :
      (now : ℕ) (l : Listener B Q) (s : Scanner)
      → Polls (poll_socket now l s) (poll decimal parse now (queue.contents l.packet_buffer) s)
  unfolding poll_socket poll
  poll_socket-Polls now l s = attend-Polls now s.running (has_pending_requests s) l s

  poll_socket-packet :
      (now : ℕ) (packet : ReceivedPacket) (rest : List ReceivedPacket) (l : Listener B Q)
      (s : Scanner)
      → queue.contents l.packet_buffer ≡ packet ∷ rest
      → s.running ≡ true
      → has_pending_requests s ≡ true
      → ((poll_socket now l s).0.0 ≡ on_packet_received decimal parse packet s)
        × ((poll_socket now l s).1 ≡ run_again)
  unfolding poll_socket next_received_packet
  poll_socket-packet now packet rest l s there running pending =
      rw (pending, running, queue.pop_first packet rest l.packet_buffer there) (refl, refl)

  refined :
      (after : Option (List (Option ReceivedPacket) × Listener B Q))
      (spec : List (Option ReceivedPacket) × List ReceivedPacket)
      → Refines io queue after spec
      → (l' : Listener B Q) × ((after ≡ some (spec.0, l'))
          × (IsListening io queue l' × (queue.contents l'.packet_buffer ≡ spec.1)))
  refined none spec r = absurd r
  refined (some (given, l)) spec r = (l, (ap (λ g. some (g, l)) r.1.0, (r.0, r.1.1)))

  -- The answer to a ping, from the wire to its future: where nothing waits yet, the bytes of a frame
  -- from an address with a pending request, received at a time, are kept by the listener, and the next
  -- run of the polling task gives the response to the future of the request, and to no other, takes the
  -- request out, and no other, and asks to run again at once. The listener goes on listening.
  pub arrived-answers :
      (now later : ℕ) (bytes : List ℕ) (l : Listener B Q) (s : Scanner) (e : EthHeader)
      (i : IPv4Header) (request : Request) (k : Str) (j : ℕ)
      → IsListening io queue l
      → queue.contents l.packet_buffer ≡ []
      → length bytes ≤ max_buffer_size
      → IsConsistent s
      → s.running ≡ true
      → has_pending_requests s ≡ true
      → (parse bytes).eth_layer ≡ some e
      → (parse bytes).ipv4_layer ≡ some i
      → lookup (to_string decimal (from_pcpp i.source)) s.pending_requests ≡ some request
      → let key = to_string decimal (from_pcpp i.source) in
        (l' : Listener B Q) × (happen io queue (arrived now bytes) l ≡ some ([], l'))
        × IsListening io queue l'
        × ((poll_socket later l' s).1 ≡ run_again)
        × (lookup k (poll_socket later l' s).0.0.pending_requests
            ≡ (if same k key then none else lookup k s.pending_requests))
        × ((poll_socket later l' s).0.0.futures.state j ≡ (
            if j == request.promise
            then ready (ok (response_from now e i request))
            else s.futures.state j))
  arrived-answers now later bytes l s e i request k j v empty fits c running pending pe pi there =
      let packet : ReceivedPacket = record { arrival = now; bytes = bytes } in
      let r = refined _ _ (happen-Refines io queue (arrived now bytes) l v fits) in
      let waits_there : queue.contents r.0.packet_buffer ≡ packet ∷ [] = r.1.1.1 ∙ rw empty refl in
      let polled = poll_socket-packet later packet [] r.0 s waits_there running pending in
      let answers =
        on_packet_received-answers decimal parse packet e i request s k j c pe pi there in
      (
        r.0,
        r.1.0,
        r.1.1.0,
        polled.1,
        ap (λ after. lookup k after.pending_requests) polled.0 ∙ answers.1,
        ap (λ after. after.futures.state j) polled.0 ∙ answers.2,
      )
