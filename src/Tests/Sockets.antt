-- ===== src/Tests/Sockets.antt =====
-- Sockets on a buffer, a queue, a socket and a filter machine that are lists and numbers.
use cpp_grcp_testground.Prelude.{
  ap, ℕ, zero, suc, ◌-◌, ◌≡◌, refl, Bool, true, false, Option, none, some, List, [], ◌∷◌, ◌++◌, ok,
  err, length, ltb, ◌==◌, if◌then◌else◌, arith,
}
use mathlib.Core.List.{head-eq_of_cons-eq, tail-eq_of_cons-eq}
use cpp_grcp_testground.Util.Logger.{take, drop}
use cpp_grcp_testground.Net.Scanner.{ReceivedPacket}
use cpp_grcp_testground.Net.Socket.{StreamBuffer, SpscQueue}
use cpp_grcp_testground.Net.Socket.Listener.{Listener, new_listener, start_receive}
use cpp_grcp_testground.Net.Socket.Listener.History.{
  Event, arrived, failed, taken, history, Refines, happen, history-Refines,
  new_listener-IsListening,
}
use cpp_grcp_testground.Net.Socket.Filter.{
  SockFilter, FilterMachine, byte_at, half_word, load, icmp_code, icmp_code-is_icmp,
}
use cpp_grcp_testground.Net.Socket.Polling.{arrived-answers}
use cpp_grcp_testground.Net.Scanner.{poll}
use cpp_grcp_testground.Prelude.Map.{lookup}
use cpp_grcp_testground.Prelude.Strings.{str_order}
use cpp_grcp_testground.Net.IPv4Address.{to_string, from_pcpp}
use cpp_grcp_testground.Tests.Data.{
  decimal, host, parse, pinged, pinged-IsConsistent, pinged-pending, eth_header, ip_header, request,
}

-- The input, and the bytes and the size of the space behind it.
abbrev Buffer : Type 0
Buffer = List ℕ × (List ℕ × ℕ)

take_all : (s : List ℕ) → take (length s) s ≡ s
take_all [] = refl
take_all (c ∷ s) = rw (take_all s) refl

drop_all : (s : List ℕ) → drop (length s) s ≡ []
drop_all [] = refl
drop_all (c ∷ s) = drop_all s

abbrev buffers : StreamBuffer Buffer
buffers = record {
  input = λ b. b.0;
  space = λ b. b.1.1;
  consume = λ n b. (drop n b.0, b.1);
  prepare = λ n b. (b.0, ([], n));
  commit = λ n b. (b.0 ++ take n b.1.0, (drop n b.1.0, b.1.1 - n));
  write = λ bytes b. (b.0, (bytes, b.1.1));
  read = λ n b. (take n b.0, (drop n b.0, b.1));
  consume_all = λ b. drop_all b.0;
  prepare_space = λ n b. omega arith;
  prepare_input = λ n b. refl;
  commit_written = λ bytes b h. rw (take_all bytes) refl;
  read_all = λ b. take_all b.0;
}

-- The capacity and the elements.
abbrev Queue : Type 0
Queue = ℕ × List ReceivedPacket

abbrev push_in : ReceivedPacket → Queue → Bool × Queue
push_in a q = if ltb (length q.1) q.0 then (true, (q.0, q.1 ++ (a ∷ []))) else (false, q)

abbrev pop_from : Queue → Option ReceivedPacket × Queue
pop_from (n, []) = (none, (n, []))
pop_from (n, a ∷ rest) = (some a, (n, rest))

pop_from-empty : (q : Queue) → q.1 ≡ [] → ((pop_from q).0 ≡ none) × ((pop_from q).1.1 ≡ [])
pop_from-empty (n, []) e = (refl, refl)
pop_from-empty (n, a ∷ rest) e = cc

pop_from-first :
    (a : ReceivedPacket) (rest : List ReceivedPacket) (q : Queue)
    → q.1 ≡ a ∷ rest
    → ((pop_from q).0 ≡ some a) × ((pop_from q).1.1 ≡ rest)
pop_from-first a rest (n, []) e = cc
pop_from-first a rest (n, b ∷ l) e = (ap some (head-eq_of_cons-eq e), tail-eq_of_cons-eq e)

pop_from-capacity : (q : Queue) → (pop_from q).1.0 ≡ q.0
pop_from-capacity (n, []) = refl
pop_from-capacity (n, a ∷ rest) = refl

abbrev queues : SpscQueue ReceivedPacket Queue
queues = record {
  construct_queue = λ n. (n, []);
  push = push_in;
  pop = pop_from;
  contents = λ q. q.1;
  capacity = λ q. q.0;
  construct_contents = λ n. refl;
  construct_capacity = λ n. refl;
  push_room = λ a q h. ground arith;
  push_full = λ a q h. ground arith;
  push_capacity = λ a q. ground arith;
  pop_empty = λ q e. (pop_from-empty q e).0;
  pop_empty_contents = λ q e. (pop_from-empty q e).1;
  pop_first = λ a rest q e. (pop_from-first a rest q e).0;
  pop_rest = λ a rest q e. (pop_from-first a rest q e).1;
  pop_capacity = pop_from-capacity;
}

abbrev listener : Listener Buffer Queue
listener = start_receive buffers queues (new_listener buffers queues ([], ([], 0)))

abbrev events : List Event
events = taken ∷ arrived 5 (1 ∷ 2 ∷ []) ∷ failed ∷ arrived 6 (3 ∷ []) ∷ taken ∷ []

history-Refines_example : Refines buffers queues (history buffers queues events listener) (
  none ∷ some (record { arrival = 5; bytes = 1 ∷ 2 ∷ [] }) ∷ [],
  record { arrival = 6; bytes = 3 ∷ [] } ∷ [],
)
unfolding cpp_grcp_testground.Net.Socket.Listener.handle_receive
    cpp_grcp_testground.Net.Socket.Listener.new_packet start_receive new_listener
history-Refines_example =
    history-Refines buffers queues events listener
      (new_listener-IsListening buffers queues ([], ([], 0))).0
      (tt, (omega arith, (tt, (omega arith, (tt, tt)))))

-- A machine that knows the four instructions; any other one ends the program with 0.
abbrev machine_run : ℕ → List SockFilter → ℕ → List ℕ → ℕ
machine_run skip [] a frame = 0
machine_run (suc n) (i ∷ code) a frame = machine_run n code a frame
machine_run zero (i ∷ code) a frame =
    let to = (λ (n : ℕ) (v : ℕ). machine_run n code v frame) in
    if i.code == 40
    then load (to 0) (half_word (byte_at i.k frame) (byte_at (suc i.k) frame))
    else if i.code == 48
    then load (to 0) (byte_at i.k frame)
    else if i.code == 21
    then to (if a == i.k then i.jt else i.jf) a
    else if i.code == 6
    then i.k
    else 0

abbrev machine : FilterMachine
machine = record {
  run = machine_run;
  run_skip = λ n i code a frame. refl;
  run_load_half = λ jt jf k code a frame. refl;
  run_load_byte = λ jt jf k code a frame. refl;
  run_jump = λ jt jf k code a frame. refl;
  run_return = λ jt jf k code a frame. refl;
}

-- An Ethernet frame with an ICMP packet, up to the protocol of its IPv4 header.
abbrev frame : List ℕ
frame =
    1 ∷ 2 ∷ 3 ∷ 4 ∷ 5 ∷ 6 ∷ 1 ∷ 2 ∷ 3 ∷ 4 ∷ 5 ∷ 6 ∷ 8 ∷ 0 ∷ 69 ∷ 0 ∷ 0 ∷ 84 ∷ 0 ∷ 0 ∷ 0 ∷ 0 ∷ 64 ∷ 1
    ∷ []

icmp_code-is_icmp_example : machine.run 0 icmp_code 0 frame ≡ 262144
icmp_code-is_icmp_example = icmp_code-is_icmp machine frame (ground arith)

-- A reply to the ping that the scanner has sent.
arrived-answers_example :
    (l' : Listener Buffer Queue) × (happen buffers queues (arrived 9_000_000 (1 ∷ [])) listener
      ≡ some ([], l'))
unfolding cpp_grcp_testground.Net.Scanner.has_pending_requests start_receive new_listener
    cpp_grcp_testground.Net.Scanner.ping_async lookup to_string from_pcpp
    cpp_grcp_testground.Prelude.Map.insert cpp_grcp_testground.Prelude.Strings.str_less
arrived-answers_example =
    let r =
      arrived-answers buffers queues decimal parse 9_000_000 9_000_001 (1 ∷ []) listener pinged
        eth_header ip_header request (to_string decimal host) 0
        (new_listener-IsListening buffers queues ([], ([], 0))).0 refl (omega arith)
        pinged-IsConsistent refl refl refl refl pinged-pending in
    (r.0, r.1)
