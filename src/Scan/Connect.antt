-- ===== src/Scan/Connect.antt =====
-- Network_Mapping/TCP_CONNECT_SCAN/tcp_connect_scan.c
use c_network_tools.Base.{
  ℕ, ◌≡◌, Bool, [], ◌∷◌, is_minus_one, is_one, if◌then◌else◌, arith, ◌&&◌, not,
}
use c_network_tools.Scan.{
  opened, attempted, closed, returned, Probe, Kernel, Scan, scan_loop, count_opened, count_closed,
}
use c_network_tools.Scan.Loop.{bit, IsComplete, scan_loop-IsComplete}

unfoldable pub tcp_syn_scan : Kernel → ℕ → Probe
tcp_syn_scan k port =
    let fd = k.socket port in
    if is_minus_one fd
    then record { calls = []; verdict = returned 0 }
    else if not (is_one (k.inet_pton port))
    then record { calls = opened fd ∷ closed fd ∷ []; verdict = returned 0 }
    else if is_minus_one (k.connect port)
    then record { calls = opened fd ∷ attempted fd ∷ closed fd ∷ []; verdict = returned 0 }
    else record { calls = opened fd ∷ attempted fd ∷ closed fd ∷ []; verdict = returned 1 }

-- `for (port = 1; port < 1024; port++)`
unfoldable pub scan_ports : Kernel → Scan
unfolding tcp_syn_scan scan_loop
scan_ports k = scan_loop (tcp_syn_scan k) 1023 1

-- The port accepts a connection.
abbrev pub accepts : Kernel → ℕ → Bool
accepts k port =
    not (is_minus_one (k.socket port))
    && is_one (k.inet_pton port)
    && not (is_minus_one (k.connect port))

tcp_syn_scan-accepts :
    (k : Kernel) (port : ℕ) → (tcp_syn_scan k port).verdict ≡ returned (bit (accepts k port))
unfolding tcp_syn_scan
tcp_syn_scan-accepts k port = ground arith

tcp_syn_scan_closes :
    (k : Kernel) (port : ℕ)
    → count_opened (tcp_syn_scan k port).calls ≡ count_closed (tcp_syn_scan k port).calls
unfolding tcp_syn_scan count_opened count_closed
tcp_syn_scan_closes k port = ground arith

-- The scan prints a line for each of the ports 1 to 1023, in order, OPEN exactly where a socket was
-- made, the address was valid and the connection was accepted. It never exits early, and closes as
-- many sockets as it opens.
pub scan_ports-IsComplete : (k : Kernel) → IsComplete (accepts k) 1023 1 (scan_ports k)
unfolding scan_ports
scan_ports-IsComplete k =
    scan_loop-IsComplete (tcp_syn_scan k) (accepts k) (tcp_syn_scan-accepts k)
      (tcp_syn_scan_closes k) 1023 1
