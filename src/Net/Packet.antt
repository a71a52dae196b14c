-- ===== src/Net/Packet.antt =====
-- core/core/net/packet: the builders of the layers of a packet. A layer is what the builder hands to
-- the packet library; how that library encodes it is the argument `encode`.
use cpp_grcp_testground.Prelude.{ℕ, ◌%◌, ◌^◌, List, [], ◌∷◌, ◌++◌, Str}

pub record EthLayerBuilder : Type 0 where
  pub src_mac : Str
  pub dst_mac : Str

pub record IPv4LayerBuilder : Type 0 where
  pub src_ip : Str
  pub dst_ip : Str
  pub id : ℕ
  pub ttl : ℕ

pub record IcmpLayerBuilder : Type 0 where
  pub id : ℕ
  pub sequence : ℕ
  pub timestamp : ℕ
  pub payload : Str

-- A layer of a `pcpp::Packet`.
pub data Layer : Type 0 where
  eth : EthLayerBuilder → Layer
  ipv4 : IPv4LayerBuilder → Layer
  icmp : IcmpLayerBuilder → Layer

abbrev pub Packet : Type 0
Packet = List Layer

abbrev pub create_eth : EthLayerBuilder
create_eth = record { src_mac = []; dst_mac = [] }

unfoldable pub with_src_mac : EthLayerBuilder → Str → EthLayerBuilder
with_src_mac b mac = record b { src_mac = mac }

unfoldable pub with_dst_mac : EthLayerBuilder → Str → EthLayerBuilder
with_dst_mac b mac = record b { dst_mac = mac }

abbrev pub create_ipv4 : IPv4LayerBuilder
create_ipv4 = record { src_ip = []; dst_ip = []; id = 0; ttl = 64 }

unfoldable pub with_src_ip : IPv4LayerBuilder → Str → IPv4LayerBuilder
with_src_ip b ip = record b { src_ip = ip }

unfoldable pub with_dst_ip : IPv4LayerBuilder → Str → IPv4LayerBuilder
with_dst_ip b ip = record b { dst_ip = ip }

-- The argument is converted to a `std::uint16_t`, and the next one to a `std::uint8_t`.
unfoldable pub with_id : IPv4LayerBuilder → ℕ → IPv4LayerBuilder
with_id b id = record b { id = id % 2 ^ 16 }

unfoldable pub with_time_to_live : IPv4LayerBuilder → ℕ → IPv4LayerBuilder
with_time_to_live b ttl = record b { ttl = ttl % 2 ^ 8 }

-- The identifier is as the memory was until `withId`.
abbrev pub create_icmp : ℕ → IcmpLayerBuilder
create_icmp memory = record { id = memory; sequence = 0; timestamp = 0; payload = [] }

unfoldable pub with_icmp_id : IcmpLayerBuilder → ℕ → IcmpLayerBuilder
with_icmp_id b id = record b { id = id % 2 ^ 16 }

unfoldable pub with_sequence : IcmpLayerBuilder → ℕ → IcmpLayerBuilder
with_sequence b sequence = record b { sequence = sequence % 2 ^ 16 }

unfoldable pub with_timestamp : IcmpLayerBuilder → ℕ → IcmpLayerBuilder
with_timestamp b timestamp = record b { timestamp = timestamp % 2 ^ 64 }

unfoldable pub with_payload : IcmpLayerBuilder → Str → IcmpLayerBuilder
with_payload b payload = record b { payload = payload }

-- `PacketBuilder::addLayer`, by `build(pcpp::Packet&)` of each builder.
unfoldable pub add_layer : Packet → Layer → Packet
add_layer packet layer = packet ++ (layer ∷ [])

-- `build(std::vector<std::uint8_t>&)`: the bytes of the layer and then those of its payload, as the
-- library encodes them, are pushed one by one.
unfoldable pub build_bytes : (Layer → List ℕ) → (Layer → List ℕ) → Layer → List ℕ → List ℕ
build_bytes encode encode_payload layer bytes = (bytes ++ encode layer) ++ encode_payload layer

-- The builds of each layer: its bytes at the end of others, and the layer at the end of a packet.
unfoldable pub build_eth_bytes :
    (Layer → List ℕ) → (Layer → List ℕ) → EthLayerBuilder → List ℕ → List ℕ
build_eth_bytes encode encode_payload b bytes = build_bytes encode encode_payload (eth b) bytes

unfoldable pub build_eth : EthLayerBuilder → Packet → Packet
build_eth b packet = add_layer packet (eth b)

unfoldable pub build_ipv4_bytes :
    (Layer → List ℕ) → (Layer → List ℕ) → IPv4LayerBuilder → List ℕ → List ℕ
build_ipv4_bytes encode encode_payload b bytes = build_bytes encode encode_payload (ipv4 b) bytes

unfoldable pub build_ipv4 : IPv4LayerBuilder → Packet → Packet
build_ipv4 b packet = add_layer packet (ipv4 b)

unfoldable pub build_icmp_bytes :
    (Layer → List ℕ) → (Layer → List ℕ) → IcmpLayerBuilder → List ℕ → List ℕ
build_icmp_bytes encode encode_payload b bytes = build_bytes encode encode_payload (icmp b) bytes

unfoldable pub build_icmp : IcmpLayerBuilder → Packet → Packet
build_icmp b packet = add_layer packet (icmp b)
