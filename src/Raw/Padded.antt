-- ===== src/Raw/Padded.antt =====
-- The TCP header of Network_Mapping/TCP_ACK_SCAN/tcp_ack_scan.c and TCP_XMAS_SCAN/tcp_xmas_scan.c,
-- which has a byte `rsrv` that is never written and padding, and the packet that both files build
-- with it. The names that are not declared stand for the fields: `checksum` and `ip_checksum` for
-- the checksums, `ip_dest`, `ip_prot` and `dest_port` for `ip_dst`, `ip_p` and `dst_port`.
pub mod Laws
use Prim.Native.String.{String}
use c_network_tools.Base.{
  ℕ, ◌+◌, List, [], ◌∷◌, ◌++◌, Option, some, ◌>>=◌, u8, u16, ByteOrder, bytes16, bytes32, htons,
}
use c_network_tools.Raw.{ip_bytes, pseudo_bytes, sizeof_ip, sizeof_pseudo, ip_filled, pseudo_filled}

-- `tcphd`
pub record Tcphd : Type 0 where
  pub src_port : ℕ
  pub dst_port : ℕ
  pub seq : ℕ
  pub ack : ℕ
  pub off : ℕ
  pub rsrv : ℕ
  pub flags : ℕ
  pub window : ℕ
  pub sum : ℕ
  pub urg_pointer : ℕ

-- What the bytes of `tcp` that the code does not write hold: `rsrv`, the byte that aligns `window`,
-- and two bytes at the end that align the whole.
pub record Stale : Type 0 where
  pub rsrv : ℕ
  pub gap : ℕ
  pub end1 : ℕ
  pub end2 : ℕ

-- The bytes in front of the checksum, and those behind it.
abbrev pub tcphd_head : ByteOrder → Stale → Tcphd → List ℕ
tcphd_head o stale h =
    bytes16 o h.src_port
    ++ (bytes16 o h.dst_port
        ++ (bytes32 o h.seq
            ++ (bytes32 o h.ack ++ h.off ∷ h.rsrv ∷ h.flags ∷ u8 stale.gap ∷ bytes16 o h.window)))

abbrev pub tcphd_tail : ByteOrder → Stale → Tcphd → List ℕ
tcphd_tail o stale h = bytes16 o h.urg_pointer ++ u8 stale.end1 ∷ u8 stale.end2 ∷ []

abbrev pub tcphd_bytes : ByteOrder → Stale → Tcphd → List ℕ
tcphd_bytes o stale h = tcphd_head o stale h ++ (bytes16 o h.sum ++ tcphd_tail o stale h)

abbrev pub sizeof_tcphd : ℕ
sizeof_tcphd = 24

-- The ports are stored without `htons`.
unfoldable pub tcphd_filled : ByteOrder → Stale → ℕ → ℕ → Tcphd
tcphd_filled o stale flags port = record {
  src_port = 54321;
  dst_port = u16 port;
  seq = 0;
  ack = 0;
  off = 0x50;
  rsrv = u8 stale.rsrv;
  flags = flags;
  window = htons o 5840;
  sum = 0;
  urg_pointer = 0;
}

-- The bytes that are sent, by a function `checksum`. The last checksum is stored in `tcp` when
-- `packet` already holds its copy.
module _ (o : ByteOrder) (inet_addr : String → ℕ) (checksum : List ℕ → ℕ → Option ℕ) where
  unfoldable pub padded_packet : Stale → ℕ → ℕ → ℕ → ℕ → Option (List ℕ)
  unfolding ip_filled pseudo_filled tcphd_filled
  padded_packet stale flags s_addr garbage port = do
    let tcp = tcphd_filled o stale flags port
    let ip = ip_filled o inet_addr sizeof_tcphd s_addr garbage
    ip_sum ← checksum (ip_bytes o ip) sizeof_ip
    let pseudo_packet =
        pseudo_bytes o (pseudo_filled o inet_addr sizeof_tcphd s_addr) ++ tcphd_bytes o stale tcp
    sum ← checksum pseudo_packet (sizeof_pseudo + sizeof_tcphd)
    let packet =
        ip_bytes o (record ip { ip_sum = ip_sum }) ++ tcphd_bytes o stale (record tcp { sum = sum })
    again ← checksum packet (sizeof_ip + sizeof_tcphd)
    some packet
