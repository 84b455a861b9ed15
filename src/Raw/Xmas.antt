-- ===== src/Raw/Xmas.antt =====
-- Network_Mapping/TCP_XMAS_SCAN/tcp_xmas_scan.c. Its braces do not match: the loop of `checksum` is
-- read up to the brace behind the `return`, so that the folds and the `return` are in its body; the
-- brace of the function itself is missing, and the one behind the `printf` of `tcp_xmas_scan` is one
-- too many. `exit(FAILURE)` is read as `exit(EXIT_FAILURE)`.
pub mod Laws
use Prim.Native.String.{String}
use c_network_tools.Base.{
  ℕ, zero, suc, word16, u32, none, ◌+◌, List, [], ◌∷◌, Option, some, ◌>>=◌, ◌==◌, not, ◌||◌,
  ByteOrder, is_neg, is_one, if◌then◌else◌,
}
use c_network_tools.Checksum.{finish}
use c_network_tools.Scan.{Kernel, returned, exited}
use c_network_tools.Raw.{sizeof_ip, Probe, Scan, report_open, scan_loop}
use c_network_tools.Raw.Padded.{Stale, padded_packet}

-- The kernel's answers, and for each port the address in `server`, what `ip_sum` and the unwritten
-- bytes of `tcp` held before, and where the buffer `response` lies.
pub record World : Type 0 where
  pub kernel : Kernel
  pub s_addr : ℕ → ℕ
  pub ip_sum : ℕ → ℕ
  pub stale : ℕ → Stale
  pub response : ℕ → ℕ

-- `checksum` on `bytes`: the first round of the loop returns, with `len` as it was. `none` is a read
-- outside of them, or the end of the function without a value.
unfoldable pub checksum : ByteOrder → List ℕ → ℕ → Option ℕ
unfolding finish
checksum o bytes zero = none
checksum o bytes (suc zero) = none
checksum o [] (suc (suc len)) = none
checksum o (a ∷ []) (suc (suc len)) = none
checksum o (a ∷ b ∷ []) (suc (suc len)) = none
checksum o (a ∷ b ∷ c ∷ bytes) (suc (suc len)) = some (finish (u32 (u32 (word16 o a b) + c)))

module _ (o : ByteOrder) (inet_addr : String → ℕ) (w : World) where
  -- `tcp.flags = 0x29`
  unfoldable pub xmas_packet : ℕ → Option (List ℕ)
  unfolding padded_packet checksum
  xmas_packet port =
      padded_packet o inet_addr (checksum o) (w.stale port) 0x29 (w.s_addr port) (w.ip_sum port)
        port

  -- A failed `sendto` is only reported. What is compared with 4 and 20 is a pointer.
  unfoldable pub tcp_xmas_scan : ℕ → Option Probe
  unfolding xmas_packet
  tcp_xmas_scan port =
      if not (is_one (w.kernel.inet_pton port))
      then some (record { packets = []; verdict = exited 1 })
      else if is_neg (w.kernel.socket port)
      then some (record { packets = []; verdict = exited 1 })
      else (do
        packet ← xmas_packet port
        let packets = if is_neg (w.kernel.sendto port) then [] else packet ∷ []
        let header_of_recv_tcp = w.response port + sizeof_ip
        if is_neg (w.kernel.setsockopt port)
            then some (record { packets = packets; verdict = exited 1 })
            else if is_neg (w.kernel.recvfrom port)
            then some (record { packets = packets; verdict = exited 1 })
            else if header_of_recv_tcp == 0x04 || header_of_recv_tcp == 0x14
            then some (record { packets = packets; verdict = returned 0 })
            else some (record { packets = packets; verdict = returned 1 }))

  -- `for(int i = 1; i < 1024;i++)`
  unfoldable pub scan : Option Scan
  unfolding tcp_xmas_scan scan_loop report_open
  scan = scan_loop report_open tcp_xmas_scan 1023 1
