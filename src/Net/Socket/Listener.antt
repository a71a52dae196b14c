-- ===== src/Net/Socket/Listener.antt =====
-- core/core/net/socket/v2/ReceivingSocket.h and ReceivingSocket.cpp: a socket that always receives,
-- and keeps what came until it is asked for.
pub mod History
use cpp_grcp_testground.Prelude.{
  ℕ, zero, suc, ◌-◌, Bool, true, false, Option, none, some, List, [], ◌∷◌, length, leb,
  if◌then◌else◌,
}
use cpp_grcp_testground.Net.Scanner.{ReceivedPacket}
use cpp_grcp_testground.Net.Socket.{StreamBuffer, SpscQueue}

abbrev pub max_buffer_size : ℕ
max_buffer_size = 1024

-- `receiving` is how many receives the socket was asked for and has not completed.
pub record Listener {ℓ κ} (B : Type ℓ) (Q : Type κ) : Type (ℓ ⊔ κ) where
  pub asio_buffer : B
  pub packet_buffer : Q
  pub receiving : ℕ

abbrev pub zeros : ℕ → List ℕ
zeros zero = []
zeros (suc n) = 0 ∷ zeros n

-- The bytes of an array after others were read into it from its start on.
abbrev pub read_into : List ℕ → List ℕ → List ℕ
read_into [] array = array
read_into (x ∷ xs) [] = []
read_into (x ∷ xs) (y ∷ array) = x ∷ read_into xs array

-- A packet of zeros; `static_vector` throws if there are more than it has room for.
unfoldable pub new_packet : ℕ → ℕ → Option ReceivedPacket
new_packet now len =
    if leb len max_buffer_size then some (record { arrival = now; bytes = zeros len }) else none

module _ {ℓ κ} {B : Type ℓ} {Q : Type κ} (io : StreamBuffer B)
    (queue : SpscQueue ReceivedPacket Q) where
  -- The constructor, on the stream buffer as the network library makes it.
  unfoldable pub new_listener : B → Listener B Q
  new_listener b = record {
    asio_buffer = b;
    packet_buffer = queue.construct_queue max_buffer_size;
    receiving = 0;
  }

  unfoldable pub start_receive : Listener B Q → Listener B Q
  start_receive l = record l {
    asio_buffer =
        io.prepare max_buffer_size (io.consume (length (io.input l.asio_buffer)) l.asio_buffer);
    receiving = suc l.receiving;
  }

  unfoldable pub next_received_packet : Listener B Q → Option ReceivedPacket × Listener B Q
  next_received_packet l =
      let popped = queue.pop l.packet_buffer in (popped.0, record l { packet_buffer = popped.1 })

  -- What `handleReceive` does with the packet that it has made, if that did not throw.
  abbrev pub fill : ℕ → Option ReceivedPacket → Listener B Q → Option (Listener B Q)
  fill len none l = none
  fill len (some packet) l =
      let taken = io.read len (io.commit len l.asio_buffer) in
      let filled = record packet { bytes = read_into taken.0 packet.bytes } in
      some (
        start_receive (record l {
          asio_buffer = taken.1;
          packet_buffer = (queue.push filled l.packet_buffer).1;
        }))

  -- `failed` is whether there is an error code.
  unfoldable pub handle_receive : ℕ → Bool → ℕ → Listener B Q → Option (Listener B Q)
  handle_receive now failed len l =
      let received = fill len (new_packet now len) l in
      if failed then some (start_receive l) else received
