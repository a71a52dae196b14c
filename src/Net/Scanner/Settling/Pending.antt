-- ===== src/Net/Scanner/Settling/Pending.antt =====
-- What a packet, a look at the timeouts and a ping of another host do to a pending request.
use mathlib.Core.Path.{sym}
use cpp_grcp_testground.Prelude.{
  ℕ, ◌<◌, ◌≡◌, ◌∙◌, refl, ap, ◌⊎◌, inl, inr, true, false, none, some, List, Str, arith, Bool-cases,
  Option-cases,
}
use cpp_grcp_testground.Prelude.Map.{lookup, same}
use cpp_grcp_testground.Prelude.Strings.{str_order, str_same-eq}
use cpp_grcp_testground.Util.Promises.{Future, waits}
use cpp_grcp_testground.Models.Time.{has_passed}
use cpp_grcp_testground.Net.IPv4Address.{IPv4Address, from_pcpp, to_string}
use cpp_grcp_testground.Net.MacAddress.{MacAddress}
use cpp_grcp_testground.Net.Scanner.{
  Scanner, Request, promise_of, PingResult, Interface, Moment, Frame, EthHeader, IPv4Header,
  ReceivedPacket, ping_async, on_packet_received, response_from, handle_timeouts,
  has_pending_requests, poll, listen,
}
use cpp_grcp_testground.Net.Scanner.Requests.{
  IsConsistent, ping_async-request, on_packet_received-answers, on_packet_received-ignores,
}
use cpp_grcp_testground.Net.Scanner.Timeouts.{handle_timeouts-expire}
use cpp_grcp_testground.Net.Scanner.Settling.{
  IsOutcome, sweep-Continues, on_packet_received-Continues,
}
use cpp_grcp_testground.Util.Promises.Keeping.{lookup-Below}

-- The request still waits.
pub record IsPending (k : Str) (r : Request) (s : Scanner) : Type 0 where
  pub consistent : IsConsistent s
  pub there : lookup k s.pending_requests ≡ some r
  pub is_running : s.running ≡ true

module _ (decimal : ℕ → Str) (parse : List ℕ → Frame) where
  ignored :
      (packet : ReceivedPacket) (s : Scanner) (k : Str) (r : Request)
      → IsPending k r s
      → ((parse packet.bytes).eth_layer ≡ none)
        ⊎ (((parse packet.bytes).ipv4_layer ≡ none)
            ⊎ ((i : IPv4Header) × ((parse packet.bytes).ipv4_layer ≡ some i)
                × (lookup (to_string decimal (from_pcpp i.source)) s.pending_requests ≡ none)))
      → IsPending k r (on_packet_received decimal parse packet s)
  ignored packet s k r h none_for =
      rw (on_packet_received-ignores decimal parse packet s none_for) h

  answered :
      (packet : ReceivedPacket) (s : Scanner) (k : Str) (r q : Request) (e : EthHeader)
      (i : IPv4Header)
      → IsPending k r s
      → (parse packet.bytes).eth_layer ≡ some e
      → (parse packet.bytes).ipv4_layer ≡ some i
      → lookup (to_string decimal (from_pcpp i.source)) s.pending_requests ≡ some q
      → let s' = on_packet_received decimal parse packet s in
        IsOutcome decimal k r (s'.futures.state r.promise) ⊎ IsPending k r s'
  answered packet s k r q e i h pe pi pending =
      let key = to_string decimal (from_pcpp i.source) in
      let (kept, left, state) =
        on_packet_received-answers decimal parse packet e i q s k r.promise h.consistent pe pi
          pending in
      elim (Bool-cases (same k key)) [
        | inl own ↦ inl (
            inl (
              response_from packet.arrival e i q,
              sym (str_same-eq k key own),
              state ∙ ground (arith, str_same-eq k key own, h.there),
            ))
        | inr foreign ↦ inr (record {
          consistent = kept;
          there = left ∙ rw foreign h.there;
          is_running = (on_packet_received-Continues decimal parse packet s).0 ∙ h.is_running;
        })
      ]

  pub on_packet_received-settles :
      (packet : ReceivedPacket) (s : Scanner) (k : Str) (r : Request)
      → IsPending k r s
      → let s' = on_packet_received decimal parse packet s in
        IsOutcome decimal k r (s'.futures.state r.promise) ⊎ IsPending k r s'
  on_packet_received-settles packet s k r h =
      let frame = parse packet.bytes in
      elim (Option-cases frame.eth_layer) [
        | inl none_e ↦ inr (ignored packet s k r h (inl none_e))
        | inr (e, pe) ↦ elim (Option-cases frame.ipv4_layer) [
          | inl none_i ↦ inr (ignored packet s k r h (inr (inl none_i)))
          | inr (i, pi) ↦
              elim (Option-cases
                (lookup (to_string decimal (from_pcpp i.source)) s.pending_requests)) [
                  | inl absent ↦ inr (ignored packet s k r h (inr (inr (i, pi, absent))))
                  | inr (q, pending) ↦ answered packet s k r q e i h pe pi pending
                ]
        ]
      ]

-- A run that finds no packet ends the wait if the request is five seconds old, and else leaves it.
pub handle_timeouts-settles :
    (decimal : ℕ → Str) (now : ℕ) (s : Scanner) (k : Str) (r : Request)
    → IsPending k r s
    → let s' = handle_timeouts now s in
      IsOutcome decimal k r (s'.futures.state r.promise)
      ⊎ ((has_passed now r.time 5 ≡ false) × IsPending k r s')
unfolding handle_timeouts
handle_timeouts-settles decimal now s k r h =
    let (kept, left, state) = handle_timeouts-expire now s k r h.consistent h.there in
    elim (Bool-cases (has_passed now r.time 5)) [
      | inl old ↦ inl (inr (state ∙ ground arith))
      | inr young ↦ inr (
        young,
        record {
          consistent = kept;
          there = left ∙ rw young refl;
          is_running = (sweep-Continues now s.pending_requests s).0 ∙ h.is_running;
        },
      )
    ]

module _ (decimal hex : ℕ → Str) (iface : Interface) where
  pub ping_async-IsPending :
      (host : IPv4Address) (mac : MacAddress) (m : Moment) (s : Scanner) (k : Str) (r : Request)
      → IsPending k r s
      → same k (to_string decimal host) ≡ false
      → IsPending k r (ping_async decimal hex iface host mac m s).0
  unfolding ping_async
  ping_async-IsPending host mac m s k r h foreign =
      let (kept, entered, state) =
        ping_async-request decimal hex iface host mac m s k 0 h.consistent in
      record { consistent = kept; there = entered ∙ rw foreign h.there; is_running = h.is_running }

pub below : (k : Str) (r : Request) (s : Scanner) → IsPending k r s → r.promise < s.futures.next
below k r s h =
    lookup-Below promise_of s.futures.next k r s.pending_requests h.consistent.fresh h.there

lookup-has_pending :
    (k : Str) (r : Request) (s : Scanner)
    → lookup k s.pending_requests ≡ some r
    → has_pending_requests s ≡ true
unfolding has_pending_requests lookup
lookup-has_pending k r s h = ground arith

pub IsOutcome-waits :
    (decimal : ℕ → Str) (k : Str) (r : Request) (f : Future PingResult)
    → IsOutcome decimal k r f
    → waits f ≡ false
IsOutcome-waits decimal k r f h = ground arith

module _ (decimal : ℕ → Str) (parse : List ℕ → Frame) where
  -- So the polling task listens.
  pub poll-listen :
      (now : ℕ) (packets : List ReceivedPacket) (s : Scanner) (k : Str) (r : Request)
      → IsPending k r s
      → poll decimal parse now packets s ≡ listen decimal parse now true true packets s
  unfolding poll
  poll-listen now packets s k r h =
      ap (λ b. listen decimal parse now b (has_pending_requests s) packets s) h.is_running
      ∙ ap (λ b. listen decimal parse now true b packets s) (lookup-has_pending k r s h.there)
