-- ===== src/Raw/Fin.antt =====
-- Network_Mapping/TCP_FIN_SCAN/tcp_fin_scan.c. Its misprints are read as what they stand for:
-- `sizeof(timeof)`, `EXITFAILURE`, `(struct sockaddr*)from`, `sizeof(ip_header)`.
pub mod Laws
use Prim.Native.String.{String}
use c_network_tools.Base.{
  ℕ, ◌+◌, Bool, List, [], ◌∷◌, ◌++◌, Option, some, none, ◌>>=◌, ◌==◌, not, ByteOrder, is_neg,
  is_zero, if◌then◌else◌,
}
use c_network_tools.Checksum
use c_network_tools.Scan.{Kernel, returned, exited}
use c_network_tools.Raw.{
  ip_bytes, tcp_bytes, sizeof_ip, sizeof_tcp, ip_filled, tcp_filled, Probe, Scan, report, scan_loop,
}

-- What a probe finds: the kernel's answers, and for each port the address in `server`, what
-- `ip_sum` held before, and where the buffer `response` lies in memory.
pub record World : Type 0 where
  pub kernel : Kernel
  pub s_addr : ℕ → ℕ
  pub ip_sum : ℕ → ℕ
  pub response : ℕ → ℕ

module _ (o : ByteOrder) (inet_addr : String → ℕ) where
  -- The bytes that are sent. The checksum over both headers is stored in `tcphd` when `packet`
  -- already holds its copy.
  unfoldable pub fin_packet : ℕ → ℕ → ℕ → Option (List ℕ)
  unfolding ip_filled tcp_filled
  fin_packet s_addr garbage port = do
    let iphdr = ip_filled o inet_addr sizeof_tcp s_addr garbage
    let tcphd = tcp_filled o 0x01 port
    ip_sum ← Checksum.checksum o (ip_bytes o iphdr) sizeof_ip
    let packet = ip_bytes o (record iphdr { ip_sum = ip_sum }) ++ tcp_bytes o tcphd
    checksum ← Checksum.checksum o packet (sizeof_ip + sizeof_tcp)
    some packet

  -- A failed `sendto` is only reported. `response_tcp`, compared with 4, is a pointer.
  unfoldable pub tcp_fin_scan : World → ℕ → Option Probe
  unfolding fin_packet
  tcp_fin_scan w port =
      if is_neg (w.kernel.socket port)
      then some (record { packets = []; verdict = exited 1 })
      else if not (is_zero (w.kernel.inet_pton port))
      then some (record { packets = []; verdict = exited 1 })
      else (do
        packet ← fin_packet (w.s_addr port) (w.ip_sum port) port
        let packets = if is_neg (w.kernel.sendto port) then [] else packet ∷ []
        let response_tcp = w.response port + sizeof_ip
        if is_neg (w.kernel.setsockopt port)
            then some (record { packets = packets; verdict = exited 1 })
            else if is_neg (w.kernel.recvfrom port)
            then some (record { packets = packets; verdict = exited 1 })
            else if response_tcp == 0x04
            then some (record { packets = packets; verdict = returned 1 })
            else some (record { packets = packets; verdict = returned 0 }))

  -- `for (port = 1; port < 1024; port++)`
  unfoldable pub scan_ports : World → Option Scan
  unfolding tcp_fin_scan scan_loop
  scan_ports w = scan_loop report (tcp_fin_scan w) 1023 1
