-- ===== src/Traceroute/Packet.antt =====
-- `create_packet` of Fingerprinting/Traceroute/traceroute.c. The headers are records, and the
-- functions that end in `_bytes` lay them out in memory as the structs of C are.
pub mod Laws
pub mod Result
use Prim.Native.String.{String}
use c_network_tools.Base.{
  ℕ, ◌+◌, ◌*◌, ◌%◌, ◌^◌, List, [], ◌∷◌, ◌++◌, Option, some, ◌>>=◌, ByteOrder, u8, u16, u32, bytes16,
  bytes32, htons, htonl, replicate,
}
use c_network_tools.Checksum.{checksum}

-- `struct iphdr` of <netinet/ip.h>
pub record Iphdr : Type 0 where
  pub version : ℕ
  pub ihl : ℕ
  pub tos : ℕ
  pub tot_len : ℕ
  pub id : ℕ
  pub frag_off : ℕ
  pub ttl : ℕ
  pub protocol : ℕ
  pub check : ℕ
  pub saddr : ℕ
  pub daddr : ℕ

-- `struct udphdr` of <netinet/udp.h>
pub record Udphdr : Type 0 where
  pub source : ℕ
  pub dest : ℕ
  pub len : ℕ
  pub check : ℕ

pub record PseudoHeader : Type 0 where
  pub source_address : ℕ
  pub dest_address : ℕ
  pub placeholder : ℕ
  pub protocol : ℕ
  pub udp_length : ℕ

-- The bytes before the check field, and those behind it.
abbrev pub iphdr_head : ByteOrder → Iphdr → List ℕ
iphdr_head o h =
    (h.version * 16 + h.ihl) ∷ h.tos ∷ bytes16 o h.tot_len
    ++ (bytes16 o h.id ++ (bytes16 o h.frag_off ++ h.ttl ∷ h.protocol ∷ []))

abbrev pub iphdr_tail : ByteOrder → Iphdr → List ℕ
iphdr_tail o h = bytes32 o h.saddr ++ bytes32 o h.daddr

abbrev pub iphdr_bytes : ByteOrder → Iphdr → List ℕ
iphdr_bytes o h = iphdr_head o h ++ (bytes16 o h.check ++ iphdr_tail o h)

abbrev pub udphdr_head : ByteOrder → Udphdr → List ℕ
udphdr_head o h = bytes16 o h.source ++ (bytes16 o h.dest ++ bytes16 o h.len)

abbrev pub udphdr_bytes : ByteOrder → Udphdr → List ℕ
udphdr_bytes o h = udphdr_head o h ++ bytes16 o h.check

abbrev pub pseudo_header_bytes : ByteOrder → PseudoHeader → List ℕ
pseudo_header_bytes o h =
    bytes32 o h.source_address
    ++ (bytes32 o h.dest_address ++ h.placeholder ∷ h.protocol ∷ bytes16 o h.udp_length)

abbrev pub ipproto_udp : ℕ
ipproto_udp = 17

abbrev pub dest_port : ℕ
dest_port = 33434

-- `sizeof(struct iphdr)`, `sizeof(struct udphdr)`, `sizeof(struct pseudo_header)` and the size
-- of the caller's `packet`.
abbrev pub sizeof_iphdr : ℕ
sizeof_iphdr = 20

abbrev pub sizeof_udphdr : ℕ
sizeof_udphdr = 8

abbrev pub sizeof_pseudo_header : ℕ
sizeof_pseudo_header = 12

abbrev pub packet_size : ℕ
packet_size = 4096

-- The buffer after `memset(packet, 0, 4096)` and the writes to the two headers.
abbrev pub packet_bytes : List ℕ → List ℕ → List ℕ
packet_bytes ip udp = ip ++ (udp ++ replicate 4068 0)

unfoldable pub udp_header : ByteOrder → Udphdr
udp_header o = record {
  source = htons o 33434;
  dest = htons o dest_port;
  len = htons o sizeof_udphdr;
  check = 0;
}

-- `inet_addr` of the C library gives an `unsigned int` whose bytes in memory are the address.
module _ (o : ByteOrder) (inet_addr : String → ℕ) where
  unfoldable pub ip_header : ℕ → Iphdr
  ip_header ttl = record {
    version = 4;
    ihl = 5;
    tos = 0;
    tot_len = u16 (sizeof_iphdr + sizeof_udphdr);
    id = u16 (htonl o 54321);
    frag_off = 0;
    ttl = u8 ttl;
    protocol = ipproto_udp;
    check = 0;
    saddr = u32 (inet_addr "1.2.3.4");
    daddr = u32 (inet_addr "8.8.8.8");
  }

  unfoldable pub pseudo_header : PseudoHeader
  pseudo_header = record {
    source_address = u32 (inet_addr "1.2.3.4");
    dest_address = u32 (inet_addr "8.8.8.8");
    placeholder = 0;
    protocol = ipproto_udp;
    udp_length = htons o sizeof_udphdr;
  }

  -- The packet and the size that is returned; `none` if a checksum reads outside its buffer.
  -- The first checksum covers `tot_len` bytes, so the UDP header too, which is still zero.
  unfoldable pub create_packet : ℕ → Option (List ℕ × ℕ)
  unfolding ip_header udp_header pseudo_header
  create_packet ttl = do
    let iph = ip_header ttl
    let udph = udp_header o
    let psh = pseudo_header
    check ← checksum o (packet_bytes (iphdr_bytes o iph) (replicate sizeof_udphdr 0)) iph.tot_len
    udp_check ←
        checksum o (pseudo_header_bytes o psh ++ udphdr_bytes o udph)
          (sizeof_pseudo_header + sizeof_udphdr)
    some (
      packet_bytes (iphdr_bytes o (record iph { check = check }))
          (udphdr_bytes o (record udph { check = udp_check })),
      sizeof_iphdr + sizeof_udphdr,
    )
