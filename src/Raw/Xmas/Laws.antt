-- ===== src/Raw/Xmas/Laws.antt =====
-- What `tcp_xmas_scan` sends, and what a scan by it reports.
use Prim.Native.String.{String}
use c_network_tools.Base.{
  ℕ, ◌≡◌, refl, Bool, List, some, arith, ByteOrder, little, big, ◌∷◌, ◌++◌, u8, u32, bytes16,
  bytes32, length, length-append, get_elem?, is_neg, is_one, not, ◌&&◌,
}
use c_network_tools.Raw.{Scan, ip_filled, pseudo_filled}
use c_network_tools.Raw.Segments.{with_sum, with_sum_fits}
use c_network_tools.Raw.Padded.{Stale, padded_packet, tcphd_filled}
use c_network_tools.Raw.Padded.Laws.{with_padding, with_padding_fits, octets}
use c_network_tools.Raw.Xmas.{World, checksum, xmas_packet}

-- Whether everything that a probe needs for a port succeeds, the answer included.
abbrev pub is_answered : World → ℕ → Bool
is_answered w port =
    is_one (w.kernel.inet_pton port)
    && not (is_neg (w.kernel.socket port))
    && not (is_neg (w.kernel.setsockopt port))
    && not (is_neg (w.kernel.recvfrom port))

-- An IP header and a TCP header of 24 bytes, in which the octet of the flags is what `rsrv` held. The
-- checksum of the first is that of its first four bytes, and the one of the second that of the
-- source address, so that both are the same in all packets.
pub record IsXmasPacket (o : ByteOrder) (inet_addr : String → ℕ) (stale : Stale)
    (s_addr garbage port : ℕ) (packet : List ℕ) : Type 0 where
  pub ip_sum : ℕ
  pub sum : ℕ
  pub layout :
      packet ≡ with_sum o inet_addr 24 s_addr garbage ip_sum ++ with_padding o stale 0x29 port sum
  pub size : length packet ≡ 44
  pub ip_first : checksum o (0x45 ∷ 0 ∷ bytes16 o 44) 4 ≡ some ip_sum
  pub tcp_first : checksum o (bytes32 o (u32 (inet_addr "127.0.0.1"))) 4 ≡ some sum
  pub flags_octet : get_elem? packet 33 ≡ some (u8 stale.rsrv)
  pub next_octet : get_elem? packet 34 ≡ some 0x29

module _ (inet_addr : String → ℕ) (stale : Stale) (s_addr garbage port : ℕ) where
  is_made :
      (o : ByteOrder)
      → (c d : ℕ) × (checksum o (0x45 ∷ 0 ∷ bytes16 o 44) 4 ≡ some c)
        × (checksum o (bytes32 o (u32 (inet_addr "127.0.0.1"))) 4 ≡ some d)
        × (padded_packet o inet_addr (checksum o) stale 0x29 s_addr garbage port
            ≡ some (with_sum o inet_addr 24 s_addr garbage c ++ with_padding o stale 0x29 port d))
  unfolding checksum padded_packet ip_filled pseudo_filled tcphd_filled
  is_made little = (_, _, refl, refl, refl)
  is_made big = (_, _, refl, refl, refl)

module _ (o : ByteOrder) (inet_addr : String → ℕ) (w : World) where
  pub xmas_packet-IsXmasPacket :
      (port : ℕ)
      → (packet : List ℕ) × (xmas_packet o inet_addr w port ≡ some packet)
        × IsXmasPacket o inet_addr (w.stale port) (w.s_addr port) (w.ip_sum port) port packet
  unfolding xmas_packet
  xmas_packet-IsXmasPacket port =
      let (c, d, ip_first, tcp_first, made) =
        is_made inet_addr (w.stale port) (w.s_addr port) (w.ip_sum port) port o in
      let ip = with_sum_fits o inet_addr 24 (w.s_addr port) (w.ip_sum port) c in
      let tcp = with_padding_fits o (w.stale port) 0x29 port (omega arith) d in
      let header = with_sum o inet_addr 24 (w.s_addr port) (w.ip_sum port) c in
      let seen = octets o inet_addr (w.stale port) 0x29 (w.s_addr port) (w.ip_sum port) port c d in
      (
        header ++ with_padding o (w.stale port) 0x29 port d,
        made,
        record {
          ip_sum = c;
          sum = d;
          layout = refl;
          size = omega (
            arith,
            length-append header (with_padding o (w.stale port) 0x29 port d),
            ip.0,
            tcp.0,
          );
          ip_first = ip_first;
          tcp_first = tcp_first;
          flags_octet = seen.0;
          next_octet = seen.1;
        },
      )

  -- The packet for a port.
  abbrev pub IsSent : ℕ → List ℕ → Type 0
  IsSent port packet =
      IsXmasPacket o inet_addr (w.stale port) (w.s_addr port) (w.ip_sum port) port packet
