-- ===== src/Net/Socket/Pool.antt =====
-- core/core/net/socket/v2: the raw socket and the ICMP socket (RawSocket, IcmpSocket, Protocols.h), and
-- core/core/net/socket: how the pool makes them (SocketPool.cpp). A call of the network
-- library that may throw answers with a value or with the text of its exception.
use cpp_grcp_testground.Prelude.{
  ℕ, ◌-◌, ◌%◌, ◌^◌, ◌≡◌, refl, Bool, true, not, Option, none, some, List, [], ◌∷◌, ◌++◌, Str,
  if◌then◌else◌, Result, ok, err, ErrorType, invalid_argument, unimplemented, unknown, ◌==◌,
}
use cpp_grcp_testground.Models.Time.{ℤ, pos, negsuc}
use cpp_grcp_testground.Net.Scanner.{ReceivedPacket}
use cpp_grcp_testground.Net.Socket.{StreamBuffer, SpscQueue}
use cpp_grcp_testground.Net.Socket.Filter.{SockFilter, attach, detach}
use cpp_grcp_testground.Net.Socket.Listener.{Listener, new_listener, start_receive}
use cpp_grcp_testground.Net.Socket.Listener.History.{IsListening, new_listener-IsListening}

-- `IcmpProtocol::Endpoint`
pub record IcmpEndpoint : Type 0 where
  pub ip_address : Str
  pub port : ℤ

-- `RawProtocol::Endpoint`
pub record RawEndpoint : Type 0 where
  pub interface : Str

-- The members of `sockaddr_ll` that are set, the others being 0, and the name of the interface.
pub record SockAddr : Type 0 where
  pub sll_family : ℕ
  pub sll_protocol : ℕ
  pub sll_ifindex : ℕ
  pub sll_hatype : ℕ
  pub interface : Str

-- `['<text>']`, and with a port `['<text>', '<port>']`.
abbrev pub quoted : Str → Str
quoted text = 39 ∷ text ++ (39 ∷ [])

unfoldable pub endpoint_to_string : (ℤ → Str) → IcmpEndpoint → Str
endpoint_to_string decimal e =
    91 ∷ quoted e.ip_address ++ (44 ∷ 32 ∷ quoted (decimal e.port)) ++ (93 ∷ [])

unfoldable pub raw_to_string : RawEndpoint → Str
raw_to_string e = 91 ∷ quoted e.interface ++ (93 ∷ [])

unfoldable pub sock_addr_to_string : SockAddr → Str
sock_addr_to_string a = 91 ∷ quoted a.interface ++ (93 ∷ [])

-- With the host's `htons` and the operating system's index of an interface.
unfoldable pub new_sock_addr : (ℕ → ℕ) → (Str → ℕ) → Str → SockAddr
new_sock_addr htons if_nametoindex iface = record {
  sll_family = 17;
  sll_protocol = htons 2048;
  sll_ifindex = if_nametoindex iface;
  sll_hatype = 1;
  interface = iface;
}

-- A port as the `unsigned short` that the network library takes.
abbrev pub to_port : ℤ → ℕ
to_port (pos n) = n % 2 ^ 16
to_port (negsuc n) = 2 ^ 16 - 1 - n % 2 ^ 16

-- What the sockets use of a socket of the network library, with addresses `A`.
pub record SocketCalls {ℓ κ} (A : Type ℓ) (S : Type κ) : Type (ℓ ⊔ κ) where
  pub open_socket : S → Result S Str
  pub bind : A → S → Result S Str
  pub send_now : List ℕ → S → Result ℕ Str
  pub send_now_to : A → List ℕ → S → Result ℕ Str

pub record RawSocket {ℓ κ μ} (S : Type ℓ) (B : Type κ) (Q : Type μ) : Type (ℓ ⊔ (κ ⊔ μ)) where
  pub socket : S
  pub sock_addr : SockAddr
  pub listener : Listener B Q

pub record IcmpSocket {ℓ κ μ} (S : Type ℓ) (B : Type κ) (Q : Type μ) : Type (ℓ ⊔ (κ ⊔ μ)) where
  pub socket : S
  pub listener : Listener B Q

-- A `try` whose `catch` returns an error.
abbrev pub catch_as : ErrorType → Result ℕ Str → Result ℕ ErrorType
catch_as e (ok sent) = ok sent
catch_as e (err thrown) = err e

-- `connect`, `isConnected` and `disconnect` of both sockets.
abbrev pub connect : Bool
connect = true

abbrev pub is_connected : Bool
is_connected = true

abbrev pub disconnect : Bool
disconnect = true

module _ {ℓ κ μ} {S : Type ℓ} {B : Type κ} {Q : Type μ} (calls : SocketCalls SockAddr S) where
  unfoldable pub raw_send : List ℕ → RawSocket S B Q → Result ℕ ErrorType
  raw_send payload r = catch_as invalid_argument (calls.send_now payload r.socket)

  unfoldable pub raw_send_to :
      (ℕ → ℕ) → (Str → ℕ) → RawEndpoint → List ℕ → RawSocket S B Q → Result ℕ ErrorType
  raw_send_to htons if_nametoindex endpoint payload r =
      catch_as invalid_argument
        (calls.send_now_to (new_sock_addr htons if_nametoindex endpoint.interface) payload r.socket)

module _ {ℓ κ μ} {S : Type ℓ} {B : Type κ} {Q : Type μ} where
  unfoldable pub attach_filter :
      (S → List SockFilter → ℤ) → Option (List SockFilter) → RawSocket S B Q → Option Bool
  attach_filter setsockopt filter r = attach (setsockopt r.socket) filter

  unfoldable pub detach_filter :
      (S → List SockFilter → ℤ) → Option (List SockFilter) → RawSocket S B Q → Option Bool
  detach_filter setsockopt filter r = detach (setsockopt r.socket) filter

  -- Whether an error is printed.
  unfoldable pub autofill_headers : (S → ℕ → ℤ) → Bool → RawSocket S B Q → Bool
  autofill_headers setsockopt fill r = elim (setsockopt r.socket (if fill then 0 else 1)) [
    | pos n ↦ not (n == 0)
    | negsuc n ↦ true
  ]

  unfoldable pub icmp_send : List ℕ → IcmpSocket S B Q → Result ℕ ErrorType
  icmp_send payload s = err unimplemented

-- What `make_address_v4` finds, and then the call.
abbrev pub send_at {ℓ} : {A : Type ℓ} → (A → ℕ → Result ℕ Str) → ℕ → Result A Str → Result ℕ Str
send_at send port (err thrown) = err thrown
send_at send port (ok address) = send address port

module _ {ℓ κ μ ν} {S : Type ℓ} {B : Type κ} {Q : Type μ} {A : Type ν}
    (make_address : Str → Result A Str) (calls : SocketCalls (A × ℕ) S) where
  unfoldable pub icmp_send_to : IcmpEndpoint → List ℕ → IcmpSocket S B Q → Result ℕ ErrorType
  icmp_send_to endpoint payload s = catch_as unknown (
      send_at (λ address port. calls.send_now_to (address, port) payload s.socket)
        (to_port endpoint.port) (make_address endpoint.ip_address))

-- A step of a constructor that may throw, and the rest of the constructor.
abbrev pub then_try {ℓ κ} :
    {A : Type ℓ} {B : Type κ} → (A → Result B Str) → Result A Str → Result B Str
then_try rest (err thrown) = err thrown
then_try rest (ok a) = rest a

-- A `try` whose `catch` returns the null pointer.
abbrev pub catch_null {ℓ} : {A : Type ℓ} → Result A Str → Option A
catch_null (ok a) = some a
catch_null (err thrown) = none

module _ {ℓ κ μ} {S : Type ℓ} {B : Type κ} {Q : Type μ} (io : StreamBuffer B)
    (queue : SpscQueue ReceivedPacket Q) (calls : SocketCalls SockAddr S) where
  -- A raw socket that was opened and bound, and its first receive.
  abbrev pub raw_socket : SockAddr → B → S → RawSocket S B Q
  raw_socket addr b s = record {
    socket = s;
    sock_addr = addr;
    listener = start_receive io queue (new_listener io queue b);
  }

  -- `RawSocket::create`, with the constructor: `b` is the stream buffer as it is made, `s` the socket.
  unfoldable pub create_raw : (ℕ → ℕ) → (Str → ℕ) → Str → B → S → Result (RawSocket S B Q) Str
  create_raw htons if_nametoindex iface b s =
      let addr = new_sock_addr htons if_nametoindex iface in
      then_try (λ bound. ok (raw_socket addr b bound))
        (then_try (calls.bind addr) (calls.open_socket s))

  unfoldable pub create_raw_socket : (ℕ → ℕ) → (Str → ℕ) → Str → B → S → Option (RawSocket S B Q)
  create_raw_socket htons if_nametoindex iface b s =
      catch_null (create_raw htons if_nametoindex iface b s)

  -- A null pointer where opening or binding threw, and else the bound socket, which listens and has
  -- nothing yet.
  abbrev pub IsCreated : Result S Str → Option (RawSocket S B Q) → Type (ℓ ⊔ κ ⊔ μ)
  IsCreated (err thrown) made = made ≡ none
  IsCreated (ok bound) made =
      (r : RawSocket S B Q) × ((made ≡ some r)
        × ((r.socket ≡ bound)
            × (IsListening io queue r.listener × (queue.contents r.listener.packet_buffer ≡ []))))

  catch-IsCreated :
      (addr : SockAddr) (b : B) (bound : Result S Str)
      → IsCreated bound (catch_null (then_try (λ s. ok (raw_socket addr b s)) bound))
  catch-IsCreated addr b (err thrown) = refl
  catch-IsCreated addr b (ok s) =
      (raw_socket addr b s, (refl, (refl, new_listener-IsListening io queue b)))

  -- The pool gives the null pointer if the socket cannot be opened, or not be bound to the interface,
  -- and else a socket that is bound, has asked for its first packet and holds none.
  pub create_raw_socket-IsCreated :
      (htons : ℕ → ℕ) (if_nametoindex : Str → ℕ) (iface : Str) (b : B) (s : S)
      → IsCreated
          (then_try (calls.bind (new_sock_addr htons if_nametoindex iface)) (calls.open_socket s))
          (create_raw_socket htons if_nametoindex iface b s)
  unfolding create_raw_socket create_raw
  create_raw_socket-IsCreated htons if_nametoindex iface b s =
      catch-IsCreated (new_sock_addr htons if_nametoindex iface) b
        (then_try (calls.bind (new_sock_addr htons if_nametoindex iface)) (calls.open_socket s))

module _ {ℓ κ μ} {S : Type ℓ} {B : Type κ} {Q : Type μ} (io : StreamBuffer B)
    (queue : SpscQueue ReceivedPacket Q) (open_socket : S → Result S Str) where
  -- `IcmpSocket::create` and `createIcmpSocketv2`, which pass an exception on.
  unfoldable pub create_icmp : B → S → Result (IcmpSocket S B Q) Str
  create_icmp b s =
      then_try
        (λ opened.
          ok (record {
            socket = opened;
            listener = start_receive io queue (new_listener io queue b);
          }))
        (open_socket s)

  unfoldable pub create_icmp_socket : B → S → Result (IcmpSocket S B Q) Str
  create_icmp_socket b s = create_icmp b s
