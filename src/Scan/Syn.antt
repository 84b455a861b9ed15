-- ===== src/Scan/Syn.antt =====
-- Network_Mapping/TCP_SYN_SCAN/tcp_syn_scan.c. The call of `sendto` has no packet; what the kernel
-- answers to it is modelled, not what it sends.
use c_network_tools.Base.{
  ℕ, ◌≡◌, Bool, true, false, [], ◌∷◌, is_minus_one, is_positive, if◌then◌else◌, arith, ◌&&◌, not,
}
use c_network_tools.Scan.{
  opened, sent, returned, exited, Probe, Kernel, Scan, scan_loop, count_opened, count_closed,
}
use c_network_tools.Scan.Loop.{bit}
use c_network_tools.Scan.Leaky.{IsLeakyScan, scan_loop-IsLeakyScan}

-- An address that `inet_pton` refuses is only reported. The answer to `recv` is `recvfrom`.
unfoldable pub syn_scan : Kernel → ℕ → Probe
syn_scan k port =
    let sockfd = k.socket port in
    if is_minus_one sockfd
    then record { calls = []; verdict = exited 1 }
    else if is_minus_one (k.sendto port)
    then record { calls = opened sockfd ∷ sent sockfd ∷ []; verdict = exited 1 }
    else if is_positive (k.recvfrom port)
    then record { calls = opened sockfd ∷ sent sockfd ∷ []; verdict = returned 1 }
    else record { calls = opened sockfd ∷ sent sockfd ∷ []; verdict = returned 0 }

-- `for (port = 1; port < 1024; port++)`
unfoldable pub scan_ports : Kernel → Scan
unfolding syn_scan scan_loop
scan_ports k = scan_loop (syn_scan k) 1023 1

-- Whether a probe is sent to the port, and whether bytes come back.
abbrev pub is_sent : Kernel → ℕ → Bool
is_sent k port = not (is_minus_one (k.socket port)) && not (is_minus_one (k.sendto port))

abbrev pub is_answered : Kernel → ℕ → Bool
is_answered k port = is_positive (k.recvfrom port)

abbrev pub IsSynScan : Kernel → ℕ → ℕ → Scan → Type 0
IsSynScan k = IsLeakyScan (is_sent k) (is_answered k)

module _ (k : Kernel) where
  syn_scan_sent :
      (port : ℕ)
      → is_sent k port ≡ true
      → ((syn_scan k port).verdict ≡ returned (bit (is_answered k port)))
        × (count_opened (syn_scan k port).calls ≡ 1)
        × (count_closed (syn_scan k port).calls ≡ 0)
  unfolding syn_scan count_opened count_closed
  syn_scan_sent port h = ground arith

  syn_scan_unsent :
      (port : ℕ)
      → is_sent k port ≡ false
      → ((syn_scan k port).verdict ≡ exited 1) × (count_closed (syn_scan k port).calls ≡ 0)
  unfolding syn_scan count_closed
  syn_scan_unsent port h = ground arith

-- The ports 1 to 1023 get a line each, OPEN exactly if bytes came back, up to the first one to
-- which no probe is sent; there the program ends with status 1. No socket is closed.
pub scan_ports-IsSynScan : (k : Kernel) → IsSynScan k 1023 1 (scan_ports k)
unfolding scan_ports
scan_ports-IsSynScan k =
    scan_loop-IsLeakyScan (is_sent k) (is_answered k) (syn_scan k) (syn_scan_sent k)
      (syn_scan_unsent k) 1023 1
