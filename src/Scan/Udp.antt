-- ===== src/Scan/Udp.antt =====
-- Network_Mapping/UDP_SCAN/udp_scan.c
use c_network_tools.Base.{
  ℕ, ℤ, ◌<◌, ◌≡◌, Bool, true, false, [], ◌∷◌, is_neg, is_minus_one, is_one, if◌then◌else◌, arith,
  ◌&&◌, not,
}
use c_network_tools.Scan.{
  opened, sent, returned, exited, Probe, Kernel, Scan, scan_loop, count_opened, count_closed,
}
use c_network_tools.Scan.Loop.{bit}
use c_network_tools.Scan.Leaky.{IsLeakyScan, scan_loop-IsLeakyScan}

-- The kernel's answers, but that of `recvfrom`, which here is a function of the address that is
-- passed for `fromlen` and of the port.
pub record World : Type 0 where
  pub kernel : Kernel
  pub recvfrom : ℕ → ℕ → ℤ

-- `sizeof(serv)`, which the code passes as that address.
abbrev pub sizeof_serv : ℕ
sizeof_serv = 16

unfoldable pub udp_scan : World → ℕ → Probe
udp_scan w port =
    let k = w.kernel in
    let sock = k.socket port in
    if is_neg sock
    then record { calls = []; verdict = exited 1 }
    else if not (is_one (k.inet_pton port))
    then record { calls = opened sock ∷ []; verdict = exited 1 }
    else if is_minus_one (k.sendto port)
    then record { calls = opened sock ∷ sent sock ∷ []; verdict = exited 1 }
    else if is_neg (w.recvfrom sizeof_serv port)
    then record { calls = opened sock ∷ sent sock ∷ []; verdict = returned 1 }
    else record { calls = opened sock ∷ sent sock ∷ []; verdict = returned 0 }

-- `for (port = 1; port <= 1024; port++)`
unfoldable pub scan_ports : World → Scan
unfolding udp_scan scan_loop
scan_ports w = scan_loop (udp_scan w) 1024 1

-- Whether a probe can be sent to the port.
abbrev pub is_sent : Kernel → ℕ → Bool
is_sent k port =
    not (is_neg (k.socket port)) && is_one (k.inet_pton port) && not (is_minus_one (k.sendto port))

-- A kernel that maps nothing at the first 4096 addresses: `recvfrom` fails with EFAULT if an answer
-- has come, and else as its time is over.
abbrev pub GuardsAddresses : World → Type 0
GuardsAddresses w = (fromlen port : ℕ) → fromlen < 4096 → is_neg (w.recvfrom fromlen port) ≡ true

module _ (w : World) (guards : GuardsAddresses w) where
  udp_scan_sent :
      (port : ℕ)
      → is_sent w.kernel port ≡ true
      → ((udp_scan w port).verdict ≡ returned (bit true))
        × (count_opened (udp_scan w port).calls ≡ 1)
        × (count_closed (udp_scan w port).calls ≡ 0)
  unfolding udp_scan count_opened count_closed
  udp_scan_sent port h =
      let fails : is_neg (w.recvfrom 16 port) ≡ true = guards 16 port (omega arith) in
      ground (arith, fails)

  udp_scan_unsent :
      (port : ℕ)
      → is_sent w.kernel port ≡ false
      → ((udp_scan w port).verdict ≡ exited 1) × (count_closed (udp_scan w port).calls ≡ 0)
  unfolding udp_scan count_closed
  udp_scan_unsent port h = ground arith

abbrev pub IsUdpScan : World → ℕ → ℕ → Scan → Type 0
IsUdpScan w = IsLeakyScan (is_sent w.kernel) (λ port. true)

-- The ports 1 to 1024 get a line each, OPEN whether an answer comes or not, up to the first one to
-- which no probe can be sent; there the program ends with status 1. No socket is closed.
pub scan_ports-IsUdpScan : (w : World) → GuardsAddresses w → IsUdpScan w 1024 1 (scan_ports w)
unfolding scan_ports
scan_ports-IsUdpScan w guards =
    scan_loop-IsLeakyScan (is_sent w.kernel) (λ port. true) (udp_scan w) (udp_scan_sent w guards)
      (udp_scan_unsent w guards) 1024 1
