-- ===== src/Raw.antt =====
-- The scans of Network_Mapping with TCP segments of their own, on raw sockets. The structures are
-- those of TCP_FIN_SCAN/tcp_fin_scan.c; TCP_NULL_SCAN/tcp_null_scan.c uses them without declaring
-- them, and fills them in the same way but for the flags.
pub mod Segments
pub mod Loop
pub mod Fin
pub mod Null
pub mod Padded
pub mod Ack
pub mod Xmas
use Prim.Native.String.{String}
use c_network_tools.Base.{
  ℕ, zero, suc, ◌+◌, Bool, true, if◌then◌else◌, List, [], ◌∷◌, ◌++◌, Option, some, none, ◌>>=◌,
  ◌==◌, not, u16, u32, ByteOrder, bytes16, bytes32, htons, htonl,
}
use c_network_tools.Scan.{Verdict, returned, exited, Line}

-- `struct ip_header`
pub record IpHeader : Type 0 where
  pub ip_vhl : ℕ
  pub ip_tos : ℕ
  pub ip_len : ℕ
  pub ip_id : ℕ
  pub ip_off : ℕ
  pub ip_ttl : ℕ
  pub ip_p : ℕ
  pub ip_sum : ℕ
  pub ip_src : ℕ
  pub ip_dst : ℕ

-- `struct tcp_header`
pub record TcpHeader : Type 0 where
  pub source_port : ℕ
  pub dest_port : ℕ
  pub sequence : ℕ
  pub acknowledgment : ℕ
  pub offset_reserve : ℕ
  pub flags : ℕ
  pub window : ℕ
  pub checksum : ℕ
  pub urgent_pointer : ℕ

-- `struct pseudo_header`
pub record PseudoHeader : Type 0 where
  pub source_address : ℕ
  pub dest_address : ℕ
  pub placeholder : ℕ
  pub protocol : ℕ
  pub tcp_length : ℕ

-- The bytes in front of the checksum, and those behind it.
abbrev pub ip_head : ByteOrder → IpHeader → List ℕ
ip_head o h =
    h.ip_vhl ∷ h.ip_tos ∷ bytes16 o h.ip_len
    ++ (bytes16 o h.ip_id ++ (bytes16 o h.ip_off ++ h.ip_ttl ∷ h.ip_p ∷ []))

abbrev pub ip_tail : ByteOrder → IpHeader → List ℕ
ip_tail o h = bytes32 o h.ip_src ++ bytes32 o h.ip_dst

abbrev pub ip_bytes : ByteOrder → IpHeader → List ℕ
ip_bytes o h = ip_head o h ++ (bytes16 o h.ip_sum ++ ip_tail o h)

abbrev pub tcp_head : ByteOrder → TcpHeader → List ℕ
tcp_head o h =
    bytes16 o h.source_port
    ++ (bytes16 o h.dest_port
        ++ (bytes32 o h.sequence
            ++ (bytes32 o h.acknowledgment ++ h.offset_reserve ∷ h.flags ∷ bytes16 o h.window)))

abbrev pub tcp_bytes : ByteOrder → TcpHeader → List ℕ
tcp_bytes o h = tcp_head o h ++ (bytes16 o h.checksum ++ bytes16 o h.urgent_pointer)

abbrev pub pseudo_bytes : ByteOrder → PseudoHeader → List ℕ
pseudo_bytes o h =
    bytes32 o h.source_address
    ++ (bytes32 o h.dest_address ++ h.placeholder ∷ h.protocol ∷ bytes16 o h.tcp_length)

abbrev pub sizeof_ip : ℕ
sizeof_ip = 20

abbrev pub sizeof_tcp : ℕ
sizeof_tcp = 20

abbrev pub sizeof_pseudo : ℕ
sizeof_pseudo = 12

abbrev pub ipproto_tcp : ℕ
ipproto_tcp = 6

unfoldable pub tcp_filled : ByteOrder → ℕ → ℕ → TcpHeader
tcp_filled o flags port = record {
  source_port = 1538;
  dest_port = htons o (u16 port);
  sequence = 0;
  acknowledgment = 0;
  offset_reserve = 0x50;
  flags = flags;
  window = htons o 5840;
  checksum = 0;
  urgent_pointer = 0;
}

-- With `segment` bytes behind the IP header.
module _ (o : ByteOrder) (inet_addr : String → ℕ) (segment : ℕ) where
  -- The IP header before its checksum is computed: `ip_sum` still holds what it held.
  unfoldable pub ip_filled : ℕ → ℕ → IpHeader
  ip_filled s_addr garbage = record {
    ip_vhl = 0x45;
    ip_tos = 0;
    ip_len = u16 (sizeof_ip + segment);
    ip_id = u16 (htonl o 54321);
    ip_off = 0;
    ip_ttl = 255;
    ip_p = ipproto_tcp;
    ip_sum = u16 garbage;
    ip_src = u32 (inet_addr "127.0.0.1");
    ip_dst = u32 s_addr;
  }

  unfoldable pub pseudo_filled : ℕ → PseudoHeader
  pseudo_filled s_addr = record {
    source_address = u32 (inet_addr "127.0.0.1");
    dest_address = u32 s_addr;
    placeholder = 0;
    protocol = ipproto_tcp;
    tcp_length = htons o segment;
  }

-- A probe of a port: the packets that are sent, and how it ends.
pub record Probe : Type 0 where
  pub packets : List (List ℕ)
  pub verdict : Verdict

-- A scan: its lines, its packets, and a status if a probe ended the program.
pub record Scan : Type 0 where
  pub lines : List Line
  pub packets : List (List ℕ)
  pub status : Option ℕ

-- What a scan prints for what a probe returns: a line in any case, or one if the port is open.
unfoldable pub report : ℕ → ℕ → List Line
report value port = record { port = port; is_open = not (value == 0) } ∷ []

unfoldable pub report_open : ℕ → ℕ → List Line
report_open value port = if value == 0 then [] else record { port = port; is_open = true } ∷ []

-- `for (port = 1; ...) if (probe(ip, port)) ...`, with `left` ports to go; `none` is a
-- fault in a probe.
unfoldable pub scan_loop : (ℕ → ℕ → List Line) → (ℕ → Option Probe) → ℕ → ℕ → Option Scan
scan_loop says probe zero port = some (record { lines = []; packets = []; status = none })
scan_loop says probe (suc left) port = do
  p ← probe port
  elim p.verdict [
    | exited status ↦ some (record { lines = []; packets = p.packets; status = some status })
    | returned value ↦ do
      rest ← scan_loop says probe left (port + 1)
      some (record {
        lines = says value port ++ rest.lines;
        packets = p.packets ++ rest.packets;
        status = rest.status;
      })
  ]
