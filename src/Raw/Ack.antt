-- ===== src/Raw/Ack.antt =====
-- Network_Mapping/TCP_ACK_SCAN/tcp_ack_scan.c. Its misprints are read as what they stand for: the
-- first function has no name and is `checksum`, the address that `inet_pton` reads is `targer`, and
-- `? return 1: return 0` returns 1 or 0. `close` stands behind that and is never reached.
pub mod Laws
use Prim.Native.String.{String}
use c_network_tools.Base.{
  ℕ, zero, suc, ◌+◌, List, [], ◌∷◌, Option, some, none, ◌>>=◌, ◌==◌, not, ByteOrder, word16, u32,
  is_neg, is_one, if◌then◌else◌,
}
use c_network_tools.Checksum.{finish}
use c_network_tools.Scan.{Kernel, returned, exited}
use c_network_tools.Raw.{sizeof_ip, Probe, Scan, report, scan_loop}
use c_network_tools.Raw.Padded.{Stale, padded_packet}

-- The loop of `checksum` from the address `buf` on, where `bytes` stand. For a last odd byte the
-- code adds the address itself.
unfoldable pub sum_loop : ByteOrder → ℕ → List ℕ → ℕ → ℕ → Option ℕ
sum_loop o buf bytes zero sum = some sum
sum_loop o buf bytes (suc zero) sum = some (u32 (sum + buf))
sum_loop o buf [] (suc (suc len)) sum = none
sum_loop o buf (a ∷ []) (suc (suc len)) sum = none
sum_loop o buf (a ∷ b ∷ bytes) (suc (suc len)) sum =
    sum_loop o (buf + 2) bytes len (u32 (sum + word16 o a b))

unfoldable pub checksum : ByteOrder → ℕ → List ℕ → ℕ → Option ℕ
unfolding sum_loop finish
checksum o buf bytes len = do sum ← sum_loop o buf bytes len 0; some (finish sum)

-- The kernel's answers, and for each port the address in `server`, what `ip_sum` and the unwritten
-- bytes of `tcp` held before, where the buffer `response` lies, and where some bytes lie.
pub record World : Type 0 where
  pub kernel : Kernel
  pub s_addr : ℕ → ℕ
  pub ip_sum : ℕ → ℕ
  pub stale : ℕ → Stale
  pub response : ℕ → ℕ
  pub place : List ℕ → ℕ

module _ (o : ByteOrder) (inet_addr : String → ℕ) (w : World) where
  -- `tcp.flags = 0x10`
  unfoldable pub ack_packet : ℕ → Option (List ℕ)
  unfolding padded_packet checksum
  ack_packet port =
      padded_packet o inet_addr (λ b len. checksum o (w.place b) b len) (w.stale port) 0x10
        (w.s_addr port) (w.ip_sum port) port

  -- Failures of `socket`, `setsockopt` and `recvfrom` do not change what follows. `response_tcp`,
  -- compared with 4, is a pointer.
  unfoldable pub tcp_ack_scan : ℕ → Option Probe
  unfolding ack_packet
  tcp_ack_scan port =
      if not (is_one (w.kernel.inet_pton port))
      then some (record { packets = []; verdict = exited 1 })
      else (do
        packet ← ack_packet port
        let response_tcp = w.response port + sizeof_ip
        if is_neg (w.kernel.sendto port)
            then some (record { packets = []; verdict = exited 1 })
            else if response_tcp == 0x04
            then some (record { packets = packet ∷ []; verdict = returned 1 })
            else some (record { packets = packet ∷ []; verdict = returned 0 }))

  -- `for (port = 1; port < 1024; port++)`
  unfoldable pub scan_ports : Option Scan
  unfolding tcp_ack_scan scan_loop report
  scan_ports = scan_loop report tcp_ack_scan 1023 1
