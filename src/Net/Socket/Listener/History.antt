-- ===== src/Net/Socket/Listener/History.antt =====
-- What a listener gives to its owner, over any sequence of receives and of questions.
use native.Mathlib.Nat.{le_trans}
use cpp_grcp_testground.Prelude.{
  sym, ℕ, ◌-◌, ◌≤◌, ◌≡◌, refl, true, false, Option, none, some, List, [], ◌∷◌, ◌++◌, length, ltb,
  if◌then◌else◌, arith, All,
}
use cpp_grcp_testground.Net.Scanner.{ReceivedPacket}
use cpp_grcp_testground.Net.Socket.{StreamBuffer, SpscQueue}
use cpp_grcp_testground.Net.Socket.Listener.{
  Listener, max_buffer_size, zeros, read_into, new_packet, new_listener, start_receive,
  next_received_packet, handle_receive,
}

-- What happens to a listener: the socket completes a receive, with bytes at a time or with an error,
-- or the owner asks for a packet.
pub data Event : Type 0 where
  arrived : ℕ → List ℕ → Event
  failed : Event
  taken : Event

-- A receive has no more bytes than its buffer had space for.
abbrev pub Fits : Event → Type 0
Fits (arrived now bytes) = length bytes ≤ max_buffer_size
Fits failed = Unit
Fits taken = Unit

-- The packets that wait, by what happens to them: what was handed out, and what waits then.
abbrev pub wait : Event → List ReceivedPacket → List (Option ReceivedPacket) × List ReceivedPacket
wait (arrived now bytes) waiting = (
  [],
  if ltb (length waiting) max_buffer_size
      then waiting ++ (record { arrival = now; bytes = bytes } ∷ [])
      else waiting,
)
wait failed waiting = ([], waiting)
wait taken [] = (none ∷ [], [])
wait taken (packet ∷ rest) = (some packet ∷ [], rest)

abbrev pub wait_all :
    List Event → List ReceivedPacket → List (Option ReceivedPacket) × List ReceivedPacket
wait_all [] waiting = ([], waiting)
wait_all (e ∷ es) waiting =
    let first = wait e waiting in let rest = wait_all es first.1 in (first.0 ++ rest.0, rest.1)

pub read_into-zeros : (bytes : List ℕ) → read_into bytes (zeros (length bytes)) ≡ bytes
read_into-zeros [] = refl
read_into-zeros (x ∷ bytes) = rw (read_into-zeros bytes)

-- A step of the listener that hands nothing out.
abbrev pub silent {ℓ} : {L : Type ℓ} → Option L → Option (List (Option ReceivedPacket) × L)
silent none = none
silent (some l) = some ([], l)

abbrev pub prepend {ℓ} :
    {L : Type ℓ}
    → List (Option ReceivedPacket)
    → Option (List (Option ReceivedPacket) × L)
    → Option (List (Option ReceivedPacket) × L)
prepend given none = none
prepend given (some (more, l)) = some (given ++ more, l)

-- A step, and then the run that goes on from it.
abbrev pub onward {ℓ} :
    {L : Type ℓ}
    → (L → Option (List (Option ReceivedPacket) × L))
    → Option (List (Option ReceivedPacket) × L)
    → Option (List (Option ReceivedPacket) × L)
onward run none = none
onward run (some (given, l)) = prepend given (run l)

module _ {ℓ κ} {B : Type ℓ} {Q : Type κ} (io : StreamBuffer B)
    (queue : SpscQueue ReceivedPacket Q) where
  -- A receive that the socket was asked for comes to its end, and the handler is called.
  abbrev pub happen : Event → Listener B Q → Option (List (Option ReceivedPacket) × Listener B Q)
  happen (arrived now bytes) l = silent (
      handle_receive io queue now false (length bytes)
        (record l { asio_buffer = io.write bytes l.asio_buffer; receiving = l.receiving - 1 }))
  happen failed l =
      silent (handle_receive io queue 0 true 0 (record l { receiving = l.receiving - 1 }))
  happen taken l = let answer = next_received_packet io queue l in some (answer.0 ∷ [], answer.1)

  -- `none` is an exception.
  abbrev pub history :
      List Event → Listener B Q → Option (List (Option ReceivedPacket) × Listener B Q)
  history [] l = some ([], l)
  history (e ∷ es) l = onward (history es) (happen e l)

  -- One receive is under way, with space for a packet, and the queue has the size it was made with.
  pub record IsListening (l : Listener B Q) : Type 0 where
    pub one_receive : l.receiving ≡ 1
    pub has_space : max_buffer_size ≤ io.space l.asio_buffer
    pub no_input : io.input l.asio_buffer ≡ []
    pub full_size : queue.capacity l.packet_buffer ≡ max_buffer_size

  -- A listener that goes on listening, and that gave and keeps what it should.
  abbrev pub Refines :
      Option (List (Option ReceivedPacket) × Listener B Q)
      → List (Option ReceivedPacket) × List ReceivedPacket
      → Type 0
  Refines none spec = ⊥
  Refines (some (given, l)) spec =
      IsListening l × ((given ≡ spec.0) × (queue.contents l.packet_buffer ≡ spec.1))

  start_receive-IsListening :
      (l : Listener B Q)
      → l.receiving ≡ 0
      → queue.capacity l.packet_buffer ≡ max_buffer_size
      → IsListening (start_receive io queue l)
  unfolding start_receive
  start_receive-IsListening l none_yet full = record {
    one_receive = omega arith;
    has_space = io.prepare_space _ _;
    no_input = rw (io.prepare_input, io.consume_all l.asio_buffer) refl;
    full_size = full;
  }

  new_packet_lem :
      (now len : ℕ)
      → len ≤ max_buffer_size
      → new_packet now len ≡ some (record { arrival = now; bytes = zeros len })
  unfolding new_packet
  new_packet_lem now len h = ground arith

  input-written :
      (bytes : List ℕ) (b : B)
      → length bytes ≤ io.space b
      → io.input b ≡ []
      → io.input (io.commit (length bytes) (io.write bytes b)) ≡ bytes
  input-written bytes b h empty = rw (io.commit_written bytes b h, empty) refl

  read-input : (bytes : List ℕ) (b : B) → io.input b ≡ bytes → (io.read (length bytes) b).0 ≡ bytes
  read-input bytes b e = rw (sym e) (io.read_all b)

  read-written :
      (bytes : List ℕ) (b : B)
      → length bytes ≤ io.space b
      → io.input b ≡ []
      → (io.read (length bytes) (io.commit (length bytes) (io.write bytes b))).0 ≡ bytes
  read-written bytes b h empty = read-input bytes _ (input-written bytes b h empty)

  push-wait :
      (packet : ReceivedPacket) (q : Q)
      → queue.capacity q ≡ max_buffer_size
      → queue.contents (queue.push packet q).1 ≡ (
          if ltb (length (queue.contents q)) max_buffer_size
          then queue.contents q ++ (packet ∷ [])
          else queue.contents q)
  push-wait packet q full = ground (arith, queue.push_room packet q, queue.push_full packet q)

  pop-wait :
      (waiting : List ReceivedPacket) (q : Q)
      → queue.contents q ≡ waiting
      → ((queue.pop q).0 ∷ [] ≡ (wait taken waiting).0)
        × (queue.contents (queue.pop q).1 ≡ (wait taken waiting).1)
  pop-wait [] q e = (rw (queue.pop_empty q e) refl, queue.pop_empty_contents q e)
  pop-wait (packet ∷ rest) q e =
      (rw (queue.pop_first packet rest q e) refl, queue.pop_rest packet rest q e)

  pub happen-Refines :
      (e : Event) (l : Listener B Q)
      → IsListening l
      → Fits e
      → Refines (happen e l) (wait e (queue.contents l.packet_buffer))
  unfolding handle_receive start_receive next_received_packet
  happen-Refines (arrived now bytes) l v fits =
      rw
        (
          new_packet_lem now (length bytes) fits,
          read-written bytes l.asio_buffer (le_trans fits v.has_space) v.no_input,
          read_into-zeros bytes,
        )
        (
          start_receive-IsListening _ (omega (arith, v.one_receive))
              (rw (queue.push_capacity) v.full_size),
          (refl, push-wait _ _ v.full_size),
        )
  happen-Refines failed l v fits =
      (start_receive-IsListening _ (omega (arith, v.one_receive)) v.full_size, (refl, refl))
  happen-Refines taken l v fits =
      let popped = pop-wait (queue.contents l.packet_buffer) l.packet_buffer refl in
      (
        record {
          one_receive = v.one_receive;
          has_space = v.has_space;
          no_input = v.no_input;
          full_size = rw (queue.pop_capacity) v.full_size;
        },
        popped,
      )

  prepend-Refines :
      (given : List (Option ReceivedPacket))
      (rest : Option (List (Option ReceivedPacket) × Listener B Q))
      (spec : List (Option ReceivedPacket) × List ReceivedPacket)
      → Refines rest spec
      → Refines (prepend given rest) (given ++ spec.0, spec.1)
  prepend-Refines given none spec r = r
  prepend-Refines given (some (more, l)) spec r = (r.0, (rw r.1.0 refl, r.1.1))

  onward-Refines :
      (run : Listener B Q → Option (List (Option ReceivedPacket) × Listener B Q)) (es : List Event)
      (step : Option (List (Option ReceivedPacket) × Listener B Q))
      (spec : List (Option ReceivedPacket) × List ReceivedPacket)
      → Refines step spec
      → ((l : Listener B Q)
          → IsListening l
          → Refines (run l) (wait_all es (queue.contents l.packet_buffer)))
      → Refines (onward run step) (spec.0 ++ (wait_all es spec.1).0, (wait_all es spec.1).1)
  onward-Refines run es none spec r h = r
  onward-Refines run es (some (given, l)) spec r h =
      rw (sym r.1.0, sym r.1.1)
        (prepend-Refines given (run l) (wait_all es (queue.contents l.packet_buffer)) (h l r.0))

  -- A listener that listens goes on listening over any sequence of receives that fit the buffer, of
  -- failed receives and of questions, without an exception, and it gives and keeps the packets that
  -- came, each once and in their order; a packet that comes while 1024 wait is lost.
  pub history-Refines :
      (es : List Event) (l : Listener B Q)
      → IsListening l
      → All Fits es
      → Refines (history es l) (wait_all es (queue.contents l.packet_buffer))
  history-Refines [] l v fits = (v, (refl, refl))
  history-Refines (e ∷ es) l v fits =
      onward-Refines (history es) es (happen e l) (wait e (queue.contents l.packet_buffer))
        (happen-Refines e l v fits.0) (λ l' v'. history-Refines es l' v' fits.1)

  -- The constructor and the first receive of a socket leave a listener that listens and has nothing.
  pub new_listener-IsListening :
      (b : B)
      → let l = start_receive io queue (new_listener io queue b) in
        IsListening l × (queue.contents l.packet_buffer ≡ [])
  unfolding new_listener start_receive
  new_listener-IsListening b =
      (start_receive-IsListening _ refl (queue.construct_capacity _), queue.construct_contents _)
