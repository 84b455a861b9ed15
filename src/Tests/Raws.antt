-- ===== src/Tests/Raws.antt =====
-- The scans with raw TCP segments.
use Prim.Native.String.{String}
use mathlib.Core.Option.{some-injective}
use c_network_tools.Base.{
  ℕ, ◌≡◌, refl, sym, List, [], ◌∷◌, ◌++◌, some, arith, little, replicate, pos, negsuc, ltb,
  if◌then◌else◌, false, ℤ,
}
use c_network_tools.Scan.{Kernel}
use c_network_tools.Raw.{Scan}
use c_network_tools.Raw.Loop.{IsScan}
use c_network_tools.Raw.Padded.{Stale}
use c_network_tools.Raw.Fin
use c_network_tools.Raw.Fin.Laws.{scan_ports-IsScan}
use c_network_tools.Raw.Null
use c_network_tools.Raw.Null.{Run, exited, tcp_null_scan}
use c_network_tools.Raw.Null.Laws.{
  IsNullPacket, Ends, tcp_null_scan-Ends, tcp_null_scan_rejects, packets, left_open,
}
use c_network_tools.Raw.Ack
use c_network_tools.Raw.Xmas

-- `inet_addr("127.0.0.1")` on a little-endian host.
abbrev address_of : String → ℕ
address_of s = 0x0100007f

-- The ports up to 3 answer; `inet_pton` gives the number `valid`.
abbrev kernel_with : ℤ → Kernel
kernel_with valid = record {
  socket = λ port. pos 3;
  inet_pton = λ port. valid;
  setsockopt = λ port. pos 0;
  connect = λ port. pos 0;
  sendto = λ port. if ltb port 6 then pos 40 else negsuc 0;
  recvfrom = λ port. if ltb port 4 then pos 40 else negsuc 0;
}

abbrev fin_world : ℤ → Fin.World
fin_world valid = record {
  kernel = kernel_with valid;
  s_addr = λ port. 0x04030201;
  ip_sum = λ port. 7;
  response = λ port. 1000;
}

abbrev stale_bytes : Stale
stale_bytes = record { rsrv = 2; gap = 0; end1 = 0; end2 = 0 }

abbrev ack_world : Ack.World
ack_world = record {
  kernel = kernel_with (pos 1);
  s_addr = λ port. 0x04030201;
  ip_sum = λ port. 0;
  stale = λ port. stale_bytes;
  response = λ port. 1000;
  place = λ bytes. 2000;
}

abbrev xmas_world : Xmas.World
xmas_world = record {
  kernel = kernel_with (pos 1);
  s_addr = λ port. 0x04030201;
  ip_sum = λ port. 0;
  stale = λ port. stale_bytes;
  response = λ port. 1000;
}

scan_ports-IsScan_example :
    (s : Scan) × (Fin.scan_ports little address_of (fin_world (pos 0)) ≡ some s)
    × IsScan
        (Fin.Laws.is_answered (fin_world (pos 0)))
        (Fin.Laws.IsSent little address_of (fin_world (pos 0)))
        false
        1023
        1
        s
scan_ports-IsScan_example = scan_ports-IsScan little address_of (fin_world (pos 0))

-- An answer with the flags RST and ACK.
abbrev reset : List ℕ
reset = replicate 33 0 ++ 0x14 ∷ replicate 6 0

abbrev null_world : ℤ → Null.World
null_world valid = record {
  socket = pos 3;
  setsockopt = pos 0;
  inet_pton = valid;
  sendto = pos 40;
  recvfrom = some reset;
  s_addr = 0x04030201;
  ip_sum = 0;
  response = replicate 1024 0;
}

tcp_null_scan-Ends_example :
    (packet : List ℕ) × (run : Run) × (tcp_null_scan little address_of (null_world (pos 0)) 80
      ≡ some run)
    × IsNullPacket little address_of 0x04030201 0 80 packet
    × Ends (null_world (pos 0)) packet run
tcp_null_scan-Ends_example =
    tcp_null_scan-Ends little address_of (null_world (pos 0)) 80 refl refl refl refl fits
  where
    fits : Null.Laws.Fits (null_world (pos 0))
    fits bytes came = rw (some-injective bytes reset (sym came)) (omega arith)

-- A valid address.
tcp_null_scan_rejects_example :
    (run : Run) × (tcp_null_scan little address_of (null_world (pos 1)) 80 ≡ some run)
    × (run.outcome ≡ exited 1)
    × (packets run.calls ≡ [])
    × (left_open 0 run.calls ≡ 0)
tcp_null_scan_rejects_example = tcp_null_scan_rejects little address_of (null_world (pos 1)) 80 refl
