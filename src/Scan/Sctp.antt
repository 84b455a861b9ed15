-- ===== src/Scan/Sctp.antt =====
-- Network_Mapping/SCTP_SCAN/sctp_scan.c
use c_network_tools.Base.{ℕ, ◌≡◌, Bool, [], ◌∷◌, is_neg, is_one, if◌then◌else◌, arith, ◌&&◌, not}
use c_network_tools.Scan.{
  opened, attempted, closed, returned, Probe, Kernel, Scan, scan_loop, count_opened, count_closed,
}
use c_network_tools.Scan.Loop.{bit, IsComplete, scan_loop-IsComplete}

-- The second `setsockopt`, for the time-out, is not checked.
unfoldable pub sctp_init_scan : Kernel → ℕ → Probe
sctp_init_scan k port =
    let sock = k.socket port in
    if is_neg sock
    then record { calls = []; verdict = returned 0 }
    else if not (is_one (k.inet_pton port))
    then record { calls = opened sock ∷ closed sock ∷ []; verdict = returned 0 }
    else if is_neg (k.setsockopt port)
    then record { calls = opened sock ∷ closed sock ∷ []; verdict = returned 0 }
    else if is_neg (k.connect port)
    then record { calls = opened sock ∷ attempted sock ∷ closed sock ∷ []; verdict = returned 0 }
    else record { calls = opened sock ∷ attempted sock ∷ closed sock ∷ []; verdict = returned 1 }

-- `for (port = 1; port <= 1024; port++)`
unfoldable pub scan_ports : Kernel → Scan
unfolding sctp_init_scan scan_loop
scan_ports k = scan_loop (sctp_init_scan k) 1024 1

-- The port accepts an association.
abbrev pub accepts : Kernel → ℕ → Bool
accepts k port =
    not (is_neg (k.socket port))
    && is_one (k.inet_pton port)
    && not (is_neg (k.setsockopt port))
    && not (is_neg (k.connect port))

sctp_init_scan-accepts :
    (k : Kernel) (port : ℕ) → (sctp_init_scan k port).verdict ≡ returned (bit (accepts k port))
unfolding sctp_init_scan
sctp_init_scan-accepts k port = ground arith

sctp_init_scan_closes :
    (k : Kernel) (port : ℕ)
    → count_opened (sctp_init_scan k port).calls ≡ count_closed (sctp_init_scan k port).calls
unfolding sctp_init_scan count_opened count_closed
sctp_init_scan_closes k port = ground arith

-- The scan prints a line for each of the ports 1 to 1024, in order, OPEN exactly where every
-- checked call succeeded, the connection included. It never exits early, and closes as many sockets
-- as it opens.
pub scan_ports_sctp-IsComplete : (k : Kernel) → IsComplete (accepts k) 1024 1 (scan_ports k)
unfolding scan_ports
scan_ports_sctp-IsComplete k =
    scan_loop-IsComplete (sctp_init_scan k) (accepts k) (sctp_init_scan-accepts k)
      (sctp_init_scan_closes k) 1024 1
