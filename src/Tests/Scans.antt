-- ===== src/Tests/Scans.antt =====
-- Scans of ports.
use c_network_tools.Base.{
  arith, ◌≡◌, refl, [], ◌∷◌, some, pos, negsuc, ◌==◌, if◌then◌else◌, ltb, true, false,
}
use c_network_tools.Scan.{Kernel}
use c_network_tools.Scan.Loop.{IsComplete}
use c_network_tools.Scan.Connect
use c_network_tools.Scan.Connect.{scan_ports-IsComplete}
use c_network_tools.Scan.Sctp
use c_network_tools.Scan.Sctp.{scan_ports_sctp-IsComplete}
use c_network_tools.Scan.Udp
use c_network_tools.Scan.Udp.{IsUdpScan, scan_ports-IsUdpScan}
use c_network_tools.Scan.Syn
use c_network_tools.Scan.Syn.{IsSynScan, scan_ports-IsSynScan}

-- Only port 22 accepts; nothing can be sent to the ports from 5 on.
abbrev kernel : Kernel
kernel = record {
  socket = λ port. pos 3;
  inet_pton = λ port. pos 1;
  setsockopt = λ port. pos 0;
  connect = λ port. if port == 22 then pos 0 else negsuc 0;
  sendto = λ port. if ltb port 5 then pos 1024 else negsuc 0;
  recvfrom = λ port. if port == 3 then pos 8 else negsuc 0;
}

scan_ports-IsComplete_example :
    IsComplete (Connect.accepts kernel) 1023 1 (Connect.scan_ports kernel)
scan_ports-IsComplete_example = scan_ports-IsComplete kernel

scan_ports_sctp-IsComplete_example :
    IsComplete (Sctp.accepts kernel) 1024 1 (Sctp.scan_ports kernel)
scan_ports_sctp-IsComplete_example = scan_ports_sctp-IsComplete kernel

-- Port 3 would answer; no address below 4096 can be written to.
abbrev udp_world : Udp.World
udp_world = record {
  kernel = kernel;
  recvfrom = λ fromlen port. if ltb fromlen 4096 then negsuc 13 else kernel.recvfrom port;
}

guarded : Udp.GuardsAddresses udp_world
guarded fromlen port low = ground (arith, low)

scan_ports-IsUdpScan_example : IsUdpScan udp_world 1024 1 (Udp.scan_ports udp_world)
scan_ports-IsUdpScan_example = scan_ports-IsUdpScan udp_world guarded

-- Port 3 is reported OPEN like the others, and the scan stops at port 5.
udp_lines :
    ((Udp.scan_ports udp_world).lines
      ≡ record { port = 1; is_open = true }
        ∷ record { port = 2; is_open = true }
        ∷ record { port = 3; is_open = true }
        ∷ record { port = 4; is_open = true }
        ∷ [])
    × ((Udp.scan_ports udp_world).status ≡ some 1)
unfolding Udp.scan_ports
udp_lines = (refl, refl)

scan_ports-IsSynScan_example : IsSynScan kernel 1023 1 (Syn.scan_ports kernel)
scan_ports-IsSynScan_example = scan_ports-IsSynScan kernel

syn_lines :
    ((Syn.scan_ports kernel).lines
      ≡ record { port = 1; is_open = false }
        ∷ record { port = 2; is_open = false }
        ∷ record { port = 3; is_open = true }
        ∷ record { port = 4; is_open = false }
        ∷ [])
    × ((Syn.scan_ports kernel).status ≡ some 1)
unfolding Syn.scan_ports
syn_lines = (refl, refl)
